-- ===== src/Auth.antt =====
-- config.py and auth.py: which backend an address belongs to, and what an `Authorization` header
-- grants.
pub mod Grants
mod Examples
use Prim.Native.String
use jmap_bridge.Base.{
  ℕ, String, Bool, true, false, Option, none, some, List, [], ◌∷◌, if◌then◌else◌, ◌==◌, string_eq,
  map,
}
use jmap_bridge.Base.Text.{is_char, after_prefix}
use jmap_bridge.Base.Dict
use jmap_bridge.Base.Dict.{Dict}
use jmap_bridge.Errors.{RequestError, unauthorized}

-- `Literal["implicit", "starttls", "plain"]`
pub data Tls : Type 0 where
  implicit : Tls
  starttls : Tls
  plain : Tls

-- `ImapConfig` and `SmtpConfig`, which differ in their defaults.
pub record ServerConfig : Type 0 where
  pub host : String
  pub port : ℕ
  pub tls : Tls

-- `caldav` and `carddav` are the URLs of `CaldavConfig` and `CarddavConfig`.
pub record DomainConfig : Type 0 where
  pub imap : ServerConfig
  pub smtp : ServerConfig
  pub caldav : Option String
  pub carddav : Option String
  pub connection_pool_max_per_user : ℕ
  pub idle_eviction_seconds : ℕ

pub record BridgeConfig : Type 0 where
  pub domains : Dict String DomainConfig

-- What `base64.b64decode(encoded, validate=True).decode("utf-8")` does: `refused` is its
-- `binascii.Error` or `UnicodeDecodeError`, and `value_error` the `ValueError` for a text that is not
-- ASCII.
pub data Decoding : Type 0 where
  text : String → Decoding
  refused : Decoding
  value_error : Decoding

-- `str.lower` and `str.strip` go by the tables of Unicode.
pub record Runtime : Type 0 where
  pub lower : String → String
  pub strip : String → String
  pub decode : String → Decoding

-- `s.split(sep, 1)` of a text that holds the separator.
unfoldable pub split_first : ℕ → String → Option (String × String)
split_first n String.[] = none
split_first n (String.◌∷◌ c s) =
    let rest = split_first n s in
    if is_char n c
    then some (String.[], s)
    else elim rest [ none ↦ none | some (a, b) ↦ some (String.◌∷◌ c a, b) ]

-- `s.rsplit(sep, 1)[1]` of a text that holds the separator.
unfoldable pub after_last : ℕ → String → Option String
after_last n String.[] = none
after_last n (String.◌∷◌ c s) = elim (after_last n s) [
  | some t ↦ some t
  | none ↦ if is_char n c then some s else none
]

module _ (py : Runtime) where
  abbrev pub lower_of : Option String → Option String
  lower_of none = none
  lower_of (some s) = some (py.lower s)

  unfoldable pub domain_for_email : String → Option String
  unfolding after_last
  domain_for_email email = lower_of (after_last b'@' email)

  unfoldable pub get_domain : String → BridgeConfig → Option DomainConfig
  get_domain domain config = Dict.get (py.lower domain) config.domains

  unfoldable pub get_domain_for_email : String → BridgeConfig → Option DomainConfig
  unfolding domain_for_email get_domain
  get_domain_for_email email config = elim (domain_for_email email) [
    | none ↦ none
    | some domain ↦ get_domain domain config
  ]

-- What `parse_basic_auth_header` returns, and the `ValueError` that it does not catch.
pub data Parsed : Type 0 where
  parsed : String → String → Parsed
  no_credentials : Parsed
  parse_error : Parsed

abbrev pub of_pair : Option (String × String) → Parsed
of_pair none = no_credentials
of_pair (some (username, password)) = parsed username password

abbrev pub split_credentials : Decoding → Parsed
split_credentials (text decoded) = of_pair (split_first b':' decoded)
split_credentials refused = no_credentials
split_credentials value_error = parse_error

module _ (py : Runtime) where
  -- An empty header does not start with `Basic `.
  unfoldable pub parse_basic_auth_header : Option String → Parsed
  unfolding split_first after_prefix
  parse_basic_auth_header none = no_credentials
  parse_basic_auth_header (some header) = elim (after_prefix "Basic " header) [
    | none ↦ no_credentials
    | some rest ↦ split_credentials (py.decode (py.strip rest))
  ]

pub record Credentials : Type 0 where
  pub email : String
  pub password : String
  pub domain : String
  pub domain_config : DomainConfig

-- What `authenticate_request` returns or raises; `escaped` is an exception that is no
-- `RequestError`.
pub data Answer : Type 0 where
  granted : Credentials → Answer
  denied : RequestError → Answer
  escaped : Answer
  assertion_error : Answer

abbrev pub missing_header : RequestError
missing_header = unauthorized (some "missing or malformed Authorization header")

abbrev pub no_backend : RequestError
no_backend = unauthorized (some "no backend configured for this account")

abbrev pub with_domain : String → String → DomainConfig → Option String → Answer
with_domain username password domain_config none = assertion_error
with_domain username password domain_config (some domain) = granted (record {
  email = username;
  password = password;
  domain = domain;
  domain_config = domain_config;
})

module _ (py : Runtime) (config : BridgeConfig) where
  unfoldable pub resolve_backend : String → String → Answer
  unfolding get_domain_for_email
  resolve_backend username password = elim (get_domain_for_email py username config) [
    | none ↦ denied no_backend
    | some domain_config ↦
        with_domain username password domain_config (domain_for_email py username)
  ]

  unfoldable pub authenticate_request : Option String → Answer
  unfolding parse_basic_auth_header resolve_backend
  authenticate_request authorization_header =
      elim (parse_basic_auth_header py authorization_header) [
        | parsed username password ↦ resolve_backend username password
        | no_credentials ↦ denied missing_header
        | parse_error ↦ escaped
      ]
