-- ===== src/Auth/Grants.antt =====
-- Which headers are granted, to whom, and what the others are answered.
use jmap_bridge.Base.{
  ℕ, String, ◌<>◌, ◌≡◌, refl, ap, false, Option, none, some, string_eq, arith, inl, inr,
  Option-cases,
}
use jmap_bridge.Base.Text.{holds, nil_append, cons_append, sep_append, after_prefix-append}
use jmap_bridge.Base.Dict
use jmap_bridge.Auth.{
  Runtime, text, DomainConfig, BridgeConfig, split_first, after_last, lower_of, domain_for_email,
  get_domain, get_domain_for_email, Parsed, parsed, no_credentials, parse_error, of_pair,
  parse_basic_auth_header, Answer, granted, denied, escaped, assertion_error, with_domain,
  resolve_backend, authenticate_request,
}

split_first-append :
    (a b : String) → holds b':' a ≡ false → split_first b':' (a <> (":" <> b)) ≡ some (a, b)
unfolding split_first
split_first-append String.[] b h = rw (nil_append (":" <> b), sep_append _ b) refl
split_first-append (String.◌∷◌ c a) b h =
    rw (cons_append c a (":" <> b)) (ground (arith, split_first-append a b))

after_last-none : (n : ℕ) (s : String) → holds n s ≡ false → after_last n s ≡ none
unfolding after_last
after_last-none n String.[] h = refl
after_last-none n (String.◌∷◌ c s) h = ground (arith, after_last-none n s)

after_last-append :
    (a b : String) → holds b'@' b ≡ false → after_last b'@' (a <> ("@" <> b)) ≡ some b
unfolding after_last
after_last-append String.[] b h =
    rw (nil_append ("@" <> b), sep_append _ b) (rw (after_last-none b'@' b h) refl)
after_last-append (String.◌∷◌ c a) b h =
    rw (cons_append c a ("@" <> b), after_last, after_last-append a b h) refl

module _ (py : Runtime) (config : BridgeConfig) where
  parsed_header :
      (header username password : String)
      → holds b':' username ≡ false
      → py.decode (py.strip header) ≡ text (username <> (":" <> password))
      → parse_basic_auth_header py (some ("Basic " <> header)) ≡ parsed username password
  unfolding parse_basic_auth_header
  parsed_header header username password no_colon p =
      rw (parse_basic_auth_header, after_prefix-append "Basic " header, p)
        (ap of_pair (split_first-append username password no_colon))

  domain_of :
      (local domain : String)
      → holds b'@' domain ≡ false
      → domain_for_email py (local <> ("@" <> domain)) ≡ some (py.lower domain)
  unfolding domain_for_email
  domain_of local domain no_at = ap (lower_of py) (after_last-append local domain no_at)

  resolved_backend :
      (local domain password : String) (domain_config : DomainConfig)
      → holds b'@' domain ≡ false
      → Dict.get (py.lower (py.lower domain)) config.domains ≡ some domain_config
      → resolve_backend py config (local <> ("@" <> domain)) password
        ≡ granted (record {
          email = local <> ("@" <> domain);
          password = password;
          domain = py.lower domain;
          domain_config = domain_config;
        })
  unfolding resolve_backend get_domain_for_email get_domain
  resolved_backend local domain password domain_config no_at q =
      rw (resolve_backend, get_domain_for_email, domain_of local domain no_at, get_domain, q)
        (ap (with_domain (local <> ("@" <> domain)) password domain_config)
          (domain_of local domain no_at))

  -- A `Basic` header whose text is, in base64, a user name without a colon, a colon and a password
  -- is granted where the part of the user name behind its last `@`, in lower case, is a domain of
  -- the configuration: with that domain and its configuration, and the whole rest as the password.
  pub authenticate_request-granted :
      (header local domain password : String) (domain_config : DomainConfig)
      → holds b':' (local <> ("@" <> domain)) ≡ false
      → holds b'@' domain ≡ false
      → py.decode (py.strip header) ≡ text ((local <> ("@" <> domain)) <> (":" <> password))
      → Dict.get (py.lower (py.lower domain)) config.domains ≡ some domain_config
      → authenticate_request py config (some ("Basic " <> header))
        ≡ granted (record {
          email = local <> ("@" <> domain);
          password = password;
          domain = py.lower domain;
          domain_config = domain_config;
        })
  unfolding authenticate_request
  authenticate_request-granted header local domain password domain_config no_colon no_at p q =
      rw (authenticate_request, parsed_header header (local <> ("@" <> domain)) password no_colon p)
        (resolved_backend local domain password domain_config no_at q)

module _ (py : Runtime) (config : BridgeConfig) where
  abbrev pub IsAnswer : Option String → Answer → Type 0
  IsAnswer header (granted c) =
      (domain_for_email py c.email ≡ some c.domain)
      × (get_domain py c.domain config ≡ some c.domain_config)
      × (parse_basic_auth_header py header ≡ parsed c.email c.password)
  IsAnswer header (denied e) = e.status ≡ 401
  IsAnswer header escaped = parse_basic_auth_header py header ≡ parse_error
  IsAnswer header assertion_error = ⊥

  resolve_backend-IsAnswer :
      (header : Option String) (username password : String)
      → parse_basic_auth_header py header ≡ parsed username password
      → IsAnswer header (resolve_backend py config username password)
  unfolding resolve_backend get_domain_for_email
  resolve_backend-IsAnswer header username password p =
      elim (Option-cases (domain_for_email py username)) [
        | inl n ↦ rw (resolve_backend, get_domain_for_email, n) refl
        | inr (d, e) ↦ elim (Option-cases (get_domain py d config)) [
          | inl n ↦ rw (resolve_backend, get_domain_for_email, e, n) refl
          | inr (dc, q) ↦ rw (resolve_backend, get_domain_for_email, e, q) (rw e (e, q, p))
        ]
      ]

  answered_as :
      (header : Option String) (r : Parsed)
      → parse_basic_auth_header py header ≡ r
      → IsAnswer header (authenticate_request py config header)
  unfolding authenticate_request
  answered_as header (parsed username password) p =
      rw (authenticate_request, p) (resolve_backend-IsAnswer header username password p)
  answered_as header no_credentials p = rw (authenticate_request, p) refl
  answered_as header parse_error p = rw (authenticate_request, p) p

  -- What every header is answered: who is granted is the user of the header, with the domain of
  -- that address and the configuration of that domain; the denied are answered 401; no assertion
  -- fails; and an exception that is no `RequestError` escapes only where the header's text is
  -- refused with a `ValueError`.
  pub authenticate_request-IsAnswer :
      (header : Option String) → IsAnswer header (authenticate_request py config header)
  authenticate_request-IsAnswer header = answered_as header (parse_basic_auth_header py header) refl
