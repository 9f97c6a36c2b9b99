-- ===== src/Dispatch/SetResponses.antt =====
-- `_normalize_set_response`: an argument of a `/set` response with nothing to report is `null`.
use jmap_bridge.Base.{String, ◌≡◌, refl, Option, none, some, List, [], ◌∷◌, arith, if◌then◌else◌}
use jmap_bridge.Base.{◌==◌, contains, string_eq}
use jmap_bridge.Json.{Value, null, Fields, truthy}
use jmap_bridge.Json.Object.{get, put, get-put}

abbrev pub set_response_nullable_keys : List String
set_response_nullable_keys =
    "created" ∷ "updated" ∷ "destroyed" ∷ "notCreated" ∷ "notUpdated" ∷ "notDestroyed" ∷ []

-- The body of the loop for one key.
unfoldable pub nullify_key : String → Fields → Fields
nullify_key key result = elim (get key result) [
  | none ↦ result
  | some value ↦ if truthy value then result else put key null result
]

unfoldable pub nullify : List String → Fields → Fields
unfolding nullify_key
nullify [] result = result
nullify (key ∷ keys) result = nullify keys (nullify_key key result)

unfoldable pub normalize_set_response : Fields → Fields
unfolding nullify
normalize_set_response result = nullify set_response_nullable_keys result

-- The value that a nullable argument is answered with.
abbrev pub or_null : Option Value → Option Value
or_null none = none
or_null (some value) = if truthy value then some value else some null

or_null_idem : (v : Option Value) → or_null (or_null v) ≡ or_null v
unfolding truthy
or_null_idem none = refl
or_null_idem (some v) = ground arith

get-nullify_key :
    (key j : String) (result : Fields)
    → get j (nullify_key key result) ≡ (if j == key then or_null (get j result) else get j result)
unfolding nullify_key
get-nullify_key key j result = ground (arith, get-put j key null result)

get-nullify :
    (keys : List String) (j : String) (result : Fields)
    → get j (nullify keys result)
      ≡ (if contains keys j then or_null (get j result) else get j result)
unfolding nullify
get-nullify [] j result = refl
get-nullify (key ∷ keys) j result = ground (
  arith,
  get-nullify keys j (nullify_key key result),
  get-nullify_key key j result,
  or_null_idem (get j result),
)

-- Exactly the six nullable arguments change: one that is there and empty becomes `null`, and every
-- other argument, and every nullable one that reports something, is kept.
pub get-normalize_set_response :
    (j : String) (result : Fields)
    → get j (normalize_set_response result)
      ≡ (if contains set_response_nullable_keys j then or_null (get j result) else get j result)
unfolding normalize_set_response
get-normalize_set_response j result = get-nullify set_response_nullable_keys j result
