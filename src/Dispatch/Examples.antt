-- ===== src/Dispatch/Examples.antt =====
-- Runs of the dispatcher, and the theorems at concrete requests.
use jmap_bridge.Base.{
  ℕ, String, ◌≡◌, refl, ◌≢◌, true, Option, none, some, List, [], ◌∷◌, ◌++◌, arith, inr, map,
  if◌then◌else◌,
}
use jmap_bridge.Base.{◌==◌, string_eq, nat_eq}
use jmap_bridge.Base.Dict
use jmap_bridge.Json.{Value, null, bool, str, arr, obj, nil, cons, Fields, end, field, truthy}
use jmap_bridge.Json.Object.{get, put}
use jmap_bridge.Base.Text.{after_char}
use jmap_bridge.Errors.{ok, err, raised, to_response, method_error}
use jmap_bridge.Dispatch.Python.{Python, key_of, key_eq}
use jmap_bridge.Dispatch.BackReferences.{resolve_path, resolve_args}
use jmap_bridge.Dispatch.BackReferences.Laws.{resolve_path-star, flat_values, objects}
use jmap_bridge.Dispatch.CreationIds.{
  CreatedIds, creation_ref, substitute_created_ids, substitute_fields, substitute_id_string,
  record_created_ids,
}
use jmap_bridge.Dispatch.CreationIds.References.{Resolved, HasPlainMaps, NoRef}
use jmap_bridge.Dispatch.CreationIds.Resolved.{substitute_created_ids-Resolved}
use jmap_bridge.Dispatch.CreationIds.Recorded.{substitute-record_created_ids, reference}
use jmap_bridge.Dispatch.SetResponses.{normalize_set_response}
use jmap_bridge.Base.{if◌then◌else◌}
use jmap_bridge.Dispatch.Run.{
  Response, Handler, Batch, Outcome, running, crashed, initial, dispatch_request, dispatch_calls,
  unpack, ends_with,
}
use jmap_bridge.Dispatch.Run.Answers.{tags, tag_of, dispatch_request-tags}
use jmap_bridge.Dispatch.Run.Failures.{dispatch_request-Crashes}
use jmap_bridge.Dispatch.Run.Remembers.{Leaves, Knows, dispatch_calls-Knows}

abbrev py : Python
py = record {
  repr = λ v. "value";
  unhashable = λ v. "unhashable type";
  no_attribute = λ v name. name;
}

-- A context that counts how often the request's cache was cleared.
abbrev Context : Type 0
Context = ℕ

abbrev echo : Handler Context
echo args context = (ok args, context)

abbrev set_mailbox : Handler Context
set_mailbox args context = (
  ok (
      field "created" (obj (field "c1" (obj (field "id" (str "Mnew") end)) end))
        (field "notCreated" (obj end) end)),
  context,
)

abbrev refuse : Handler Context
refuse args context = (err (raised (method_error "forbidden" none)), context)

abbrev registry : String → Option (Handler Context)
registry name =
    if name == "Core/echo"
    then some echo
    else if name == "Mailbox/set"
    then some set_mailbox
    else if name == "Email/get"
    then some refuse
    else none

abbrev clear : Context → Context
clear n = ℕ.suc n

abbrev call : String → Fields → String → Value
call name args tag = arr (cons (str name) (cons (obj args) (cons (str tag) nil)))

abbrev args_with_ref : Fields
args_with_ref = field "emailId" (str "#c1") (field "color" (str "#3b82f6") end)

abbrev request : List Value
request =
    call "Mailbox/set" end "0"
    ∷ call "Core/echo" args_with_ref "1"
    ∷ call "Nope" end "2"
    ∷ null
    ∷ []

abbrev responses_of : Outcome Context → List Response
responses_of (running b) = b.responses
responses_of (crashed m) = []

-- The creation id of the first call is replaced in the second, and the colour is left alone.
request_runs :
    map {B = String × Value}
      (λ r. (r.name, r.tag))
      (responses_of (dispatch_request py registry clear request [] 0))
    ≡ ("Mailbox/set", str "0")
      ∷ ("Core/echo", str "1")
      ∷ ("error", str "2")
      ∷ ("error", str "unknown")
      ∷ []
unfolding dispatch_request resolve_args substitute_fields substitute_created_ids record_created_ids
    key_of unpack normalize_set_response get put Dict.get Dict.put string_eq key_eq creation_ref
    substitute_id_string truthy to_response ends_with
request_runs = refl

hashable_text : (s : String) → key_of (str s) ≢ none
unfolding key_of
hashable_text s p = cc

dispatch_request-tags_example :
    (b : Batch Context) × (dispatch_request py registry clear request [] 0 ≡ running b)
    × (tags b.responses ≡ map tag_of request)
unfolding unpack
dispatch_request-tags_example = dispatch_request-tags py registry clear request [] 0 (
  (hashable_text "Mailbox/set", hashable_text "0"),
  (
    (hashable_text "Core/echo", hashable_text "1"),
    ((hashable_text "Nope", hashable_text "2"), (tt, tt)),
  ),
)

-- A call whose tag is an array.
abbrev array_tag : Value
array_tag = arr (cons (str "Core/echo") (cons (obj end) (cons (arr nil) nil)))

dispatch_request-Crashes_example :
    (message : String) × (dispatch_request py registry clear
        ((call "Mailbox/set" end "0" ∷ []) ++ (array_tag ∷ []))
        []
        0
      ≡ crashed message)
unfolding unpack key_of
dispatch_request-Crashes_example =
    dispatch_request-Crashes py registry clear (call "Mailbox/set" end "0" ∷ []) [] array_tag [] 0
      ((hashable_text "Mailbox/set", hashable_text "0"), tt) (inr refl)

dispatch_calls-Knows_example :
    Leaves (Knows "c0") (dispatch_calls py registry clear request (initial (("c0", "M0") ∷ []) 0))
unfolding Dict.get string_eq
dispatch_calls-Knows_example =
    dispatch_calls-Knows py registry clear "c0" request (initial (("c0", "M0") ∷ []) 0) (λ p. cc)

get-normalize_runs :
    get "created" (normalize_set_response (field "created" (obj end) end)) ≡ some null
unfolding normalize_set_response get put string_eq truthy
get-normalize_runs = refl

abbrev two_rows : List (Fields × Value)
two_rows =
    (field "id" (str "M1") end, str "M1")
    ∷ (
      field "id" (arr (cons (str "M2") (cons (str "M3") nil))) end,
      arr (cons (str "M2") (cons (str "M3") nil)),
    )
    ∷ []

resolve_path-star_example :
    resolve_path py ("*" ∷ "id" ∷ []) (arr (objects two_rows)) ≡ ok (arr (flat_values two_rows))
unfolding string_eq get
resolve_path-star_example = resolve_path-star py "id" two_rows refl (refl, (refl, tt))

abbrev known : CreatedIds
known = ("c1", "M1") ∷ []

known_value : (c id : String) → Dict.get c known ≡ some id → ◌≡◌ {A = String} "M1" id
unfolding Dict.get
known_value c id p = ground arith

known-NoRef : (c id : String) → Dict.get c known ≡ some id → NoRef id
unfolding creation_ref after_char
known-NoRef c id p = rw (← known_value c id p) refl

abbrev with_ids : String → String → Value
with_ids email mailbox =
    obj (field "emailId" (str email) (field "mailboxIds" (obj (field mailbox (bool true) end)) end))

substitute_created_ids-Resolved_example : Resolved (with_ids "M1" "M1")
unfolding substitute_created_ids creation_ref after_char string_eq Dict.get put substitute_id_string
    HasPlainMaps
substitute_created_ids-Resolved_example =
    substitute_created_ids-Resolved py known known-NoRef (with_ids "#c1" "#c1") (with_ids "M1" "M1")
      maps_plain substitution_runs
  where
    maps_plain : HasPlainMaps (with_ids "#c1" "#c1")
    maps_plain = (tt, ((tt, tt), tt))

    substitution_runs :
        substitute_created_ids py known (with_ids "#c1" "#c1") ≡ ok (with_ids "M1" "M1")
    substitution_runs = refl

abbrev set_result : Fields
set_result = field "created" (obj (field "c2" (obj (field "id" (str "M2") end)) end)) end

substitute-record_created_ids_example :
    substitute_id_string py (record_created_ids set_result known) (reference "c2") ≡ ok "M2"
unfolding get string_eq
substitute-record_created_ids_example =
    substitute-record_created_ids py "c2" "M2" set_result
      (field "c2" (obj (field "id" (str "M2") end)) end) known refl (refl, tt) refl
      (refl, (refl, tt)) refl
