-- ===== src/Errors.antt =====
-- errors.py: the method-level errors, and the results of code that may raise.
use jmap_bridge.Base.{ℕ, ◌≡◌, refl, ap, String, Option, none, some, List, [], ◌∷◌, if◌then◌else◌}
use jmap_bridge.Base.Text.{is_empty}
use jmap_bridge.Json.{str, arr, num, Fields, end, field, texts}
use jmap_bridge.Json.Object.{put, merge}
use jmap_bridge.Base.Int.{pos}

-- A `RequestError`, answered as an HTTP problem response.
pub record RequestError : Type 0 where
  pub error_type : String
  pub status : ℕ
  pub title : String
  pub detail : Option String

abbrev pub not_json : Option String → RequestError
not_json detail = record {
  error_type = "urn:ietf:params:jmap:error:notJSON";
  status = 400;
  title = "Not JSON";
  detail = detail;
}

abbrev pub not_request : Option String → RequestError
not_request detail = record {
  error_type = "urn:ietf:params:jmap:error:notRequest";
  status = 400;
  title = "Not a Request object";
  detail = detail;
}

abbrev pub unauthorized : Option String → RequestError
unauthorized detail = record {
  error_type = "urn:ietf:params:jmap:error:unauthorized";
  status = 401;
  title = "Unauthorized";
  detail = detail;
}

-- Adds a text under a key where there is one and it is not empty.
abbrev pub put_text : String → Option String → Fields → Fields
put_text k none fs = fs
put_text k (some s) fs = if is_empty s then fs else put k (str s) fs

unfoldable pub to_problem : RequestError → Fields
unfolding put
to_problem e = put_text "detail" e.detail (
    field "type" (str e.error_type)
      (field "status" (num (pos e.status)) (field "title" (str e.title) end)))

pub record MethodError : Type 0 where
  pub error_type : String
  pub message : Option String
  pub extra : Fields

abbrev pub method_error : String → Option String → MethodError
method_error error_type message = record { error_type = error_type; message = message; extra = end }

-- `{key: names}` where there are names, `{}` otherwise.
abbrev pub extra_names : String → List String → Fields
extra_names key [] = end
extra_names key (n ∷ names) = field key (arr (texts (n ∷ names))) end

abbrev pub unknown_method : MethodError
unknown_method = method_error "unknownMethod" none

abbrev pub invalid_arguments : String → List String → MethodError
invalid_arguments message arguments = record {
  error_type = "invalidArguments";
  message = some message;
  extra = extra_names "arguments" arguments;
}

abbrev pub invalid_properties : String → List String → MethodError
invalid_properties message properties = record {
  error_type = "invalidProperties";
  message = some message;
  extra = extra_names "properties" properties;
}

abbrev pub invalid_result_reference : String → MethodError
invalid_result_reference message = method_error "invalidResultReference" (some message)

abbrev pub account_not_found : String → MethodError
account_not_found message = method_error "accountNotFound" (some message)

abbrev pub account_not_supported : String → MethodError
account_not_supported message = method_error "accountNotSupportedByMethod" (some message)

abbrev pub cannot_calculate_changes : String → MethodError
cannot_calculate_changes message = method_error "cannotCalculateChanges" (some message)

abbrev pub server_fail : String → MethodError
server_fail message = method_error "serverFail" (some message)

unfoldable pub to_response : MethodError → Fields
unfolding put merge
to_response e =
    put_text "description" e.message (merge (field "type" (str e.error_type) end) e.extra)

abbrev pub unsupported_filter : String → MethodError
unsupported_filter message = method_error "unsupportedFilter" (some message)

abbrev pub unsupported_sort : String → MethodError
unsupported_sort message = method_error "unsupportedSort" (some message)

-- What a handler's code raises: a `MethodError`, an `ImapError`, a `CaldavError` or `CarddavError`,
-- or any other exception with its text.
pub data Exn : Type 0 where
  raised : MethodError → Exn
  imap_error : String → Exn
  dav_error : String → Exn
  failed : String → Exn

-- `except MethodError` and `except Exception` of the dispatcher.
abbrev pub error_body : Exn → Fields
error_body (raised e) = to_response e
error_body (imap_error message) = to_response (server_fail message)
error_body (dav_error message) = to_response (server_fail message)
error_body (failed message) = to_response (server_fail message)

pub data Result {ℓ} (A : Type ℓ) : Type ℓ where
  ok : A → Result A
  err : Exn → Result A

module _ {ℓ κ} {A : Type ℓ} {B : Type κ} where
  infixl 5 ◌>>=◌
  abbrev pub ◌>>=◌ : Result A → (A → Result B) → Result B
  ok x >>= next = next x
  err exception >>= next = err exception

  abbrev pub map_ok : (A → B) → Result A → Result B
  map_ok g (ok x) = ok (g x)
  map_ok g (err exception) = err exception

  -- A bind that succeeds: the value that the first part returned, and the second part's success.
  pub >>=-eq-ok :
      (first : Result A) (next : A → Result B) {y : B}
      → first >>= next ≡ ok y
      → (x : A) × (first ≡ ok x) × (next x ≡ ok y)
  >>=-eq-ok (ok x) next done = (x, refl, done)
  >>=-eq-ok (err exception) next done = cc

abbrev value_or {ℓ} : {A : Type ℓ} → A → Result A → A
value_or d (ok x) = x
value_or d (err exception) = d

pub ok-injective {ℓ} : {A : Type ℓ} (x y : A) → ok x ≡ ok y → x ≡ y
ok-injective x y same = ap (value_or x) same

module _ {ℓ κ} {A : Type ℓ} {B : Type κ} (g : A → B) where
  pub map_ok-eq-ok :
      (first : Result A) {y : B} → map_ok g first ≡ ok y → (x : A) × (first ≡ ok x) × (g x ≡ y)
  map_ok-eq-ok (ok x) {y} done = (x, refl, ok-injective (g x) y done)
  map_ok-eq-ok (err exception) done = cc
