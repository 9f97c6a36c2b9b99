-- ===== src/Auth/Examples.antt =====
-- Headers at a concrete configuration.
use jmap_bridge.Base.{◌<>◌, ◌≡◌, refl, none, some, [], ◌∷◌, string_eq, if◌then◌else◌, ◌==◌}
use jmap_bridge.Base.Dict
use jmap_bridge.Auth.{
  implicit, starttls, DomainConfig, BridgeConfig, Runtime, text, value_error, granted, denied,
  authenticate_request, missing_header, parse_basic_auth_header, split_first,
}
use jmap_bridge.Base.Text.{after_prefix}
use jmap_bridge.Auth.Grants.{IsAnswer, authenticate_request-granted, authenticate_request-IsAnswer}

abbrev example_domain : DomainConfig
example_domain = record {
  imap = record { host = "imap.x.org"; port = 993; tls = implicit };
  smtp = record { host = "smtp.x.org"; port = 587; tls = starttls };
  caldav = none;
  carddav = none;
  connection_pool_max_per_user = 4;
  idle_eviction_seconds = 300;
}

abbrev config : BridgeConfig
config = record { domains = ("x.org", example_domain) ∷ [] }

-- A runtime that knows two texts in base64, and that refuses any other.
abbrev runtime : Runtime
unfolding string_eq
runtime = record {
  lower = λ s. if s == "X.org" then "x.org" else s;
  strip = λ s. s;
  decode = λ s.
      if s == "YW5uQFgub3JnOnA6dw=="
      then text "ann@X.org:p:w"
      else if s == "YW5u"
      then text "ann"
      else value_error;
}

no_colon_runs : authenticate_request runtime config (some "Basic YW5u") ≡ denied missing_header
unfolding authenticate_request parse_basic_auth_header split_first after_prefix string_eq runtime
no_colon_runs = refl

bearer_runs : authenticate_request runtime config (some "Bearer x") ≡ denied missing_header
unfolding authenticate_request parse_basic_auth_header after_prefix string_eq runtime
bearer_runs = refl

authenticate_request-granted_example :
    authenticate_request runtime config (some ("Basic " <> "YW5uQFgub3JnOnA6dw=="))
    ≡ granted (record {
      email = "ann" <> ("@" <> "X.org");
      password = "p:w";
      domain = "x.org";
      domain_config = example_domain;
    })
unfolding runtime string_eq Dict.get
authenticate_request-granted_example =
    authenticate_request-granted runtime config "YW5uQFgub3JnOnA6dw==" "ann" "X.org" "p:w"
      example_domain refl refl refl refl

authenticate_request-IsAnswer_example :
    IsAnswer runtime config
      (some "Basic YW5u")
      (authenticate_request runtime config (some "Basic YW5u"))
authenticate_request-IsAnswer_example =
    authenticate_request-IsAnswer runtime config (some "Basic YW5u")
