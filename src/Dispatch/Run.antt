-- ===== src/Dispatch/Run.antt =====
-- `dispatch_request`: one response for each call, in order, with what later calls may refer to.
pub mod Answers
pub mod Failures
pub mod Remembers
use Prim.Native.String
use Prim.Native.Char.{Char}
use jmap_bridge.Base.{
  ℕ, String, Bool, true, false, ◌||◌, Option, none, some, List, [], ◌∷◌, ◌++◌, if◌then◌else◌,
}
use jmap_bridge.Base.{◌==◌, string_eq}
use jmap_bridge.Base.Dict
use jmap_bridge.Json.{Value, null, bool, num, str, arr, obj, Items, nil, cons, Fields, end, field}
use jmap_bridge.Errors.{
  Exn, raised, Result, ok, err, error_body, invalid_arguments, unknown_method, to_response, ◌>>=◌,
}
use jmap_bridge.Dispatch.Python.{Python, Key, text, key_of, key_eq}
use jmap_bridge.Dispatch.BackReferences.{Entry, Results, resolve_args}
use jmap_bridge.Dispatch.CreationIds.{CreatedIds, substitute_fields, record_created_ids}
use jmap_bridge.Dispatch.SetResponses.{normalize_set_response}

-- `[name, args, tag]` of `methodResponses`.
pub record Response : Type 0 where
  pub name : String
  pub args : Fields
  pub tag : Value

-- A handler reads and writes the request's context, and returns its result or raises.
abbrev pub Handler : Type 0 → Type 0
Handler S = Fields → S → Result Fields × S

-- The local variables of the loop, and the context that the handlers share.
pub record Batch (S : Type 0) : Type 0 where
  pub responses : List Response
  pub results : Results
  pub created_ids : CreatedIds
  pub context : S

-- The request's outcome: an exception outside the `try` ends the whole request.
pub data Outcome (S : Type 0) : Type 0 where
  running : Batch S → Outcome S
  crashed : String → Outcome S

-- `name, args, tag = call`, which unpacks a list, and also a text or a dict, of three.
unfoldable pub unpack : Value → Option (Value × Value × Value)
unpack (arr (cons name (cons args (cons tag nil)))) = some (name, args, tag)
unpack (str (String.◌∷◌ a (String.◌∷◌ b (String.◌∷◌ c String.[])))) =
    some (str (String.◌∷◌ a ""), str (String.◌∷◌ b ""), str (String.◌∷◌ c ""))
unpack (obj (field a u (field b v (field c w end)))) = some (str a, str b, str c)
unpack call = none

-- `s.endswith(suffix)`
unfoldable pub ends_with : String → String → Bool
ends_with suffix String.[] = suffix == ""
ends_with suffix (String.◌∷◌ c s) = suffix == String.◌∷◌ c s || ends_with suffix s

-- The calls whose response has the shape of a `/set` response.
abbrev pub is_mutation : String → Bool
is_mutation name = ends_with "/set" name || name == "Email/import"

-- The answer to a call that is not a triple.
abbrev pub malformed : Response
malformed = record {
  name = "error";
  args = to_response (invalid_arguments "malformed method call" []);
  tag = str "unknown";
}

module _ {S : Type 0} where
  abbrev pub respond : Batch S → Response → Batch S
  respond b r = record b { responses = b.responses ++ (r ∷ []) }

  -- `method_responses.append([name, args, tag])`, then `results_by_tag[tag] = …`.
  abbrev pub answered : Batch S → String → Fields → Value → Key → Batch S
  answered b name args tag key = record b {
    responses = b.responses ++ (record { name = name; args = args; tag = tag } ∷ []);
    results = Dict.put key (record { name = name; args = obj args }) b.results;
  }

  unfoldable pub answer : Python → Batch S → String → Fields → Value → Outcome S
  answer py b name args tag = elim (key_of tag) [
    | none ↦ crashed (py.unhashable tag)
    | some key ↦ running (answered b name args tag key)
  ]

  abbrev pub and_then : Outcome S → (Batch S → Outcome S) → Outcome S
  and_then (running b) next = next b
  and_then (crashed message) next = crashed message

  abbrev pub initial : CreatedIds → S → Batch S
  initial created_ids context = record {
    responses = [];
    results = [];
    created_ids = created_ids;
    context = context;
  }

abbrev pub with_name : {S : Type 0} → String → Option (Handler S) → Option (String × Handler S)
with_name name none = none
with_name name (some handler) = some (name, handler)

module _ {S : Type 0} (registry : String → Option (Handler S)) where
  -- `_REGISTRY.get(name)` for a name that is hashable: only texts are registered.
  abbrev pub find_handler : Key → Option (String × Handler S)
  find_handler (text name) = with_name name (registry name)
  find_handler _ = none

module _ {S : Type 0} (py : Python) where
  abbrev pub prepare : Value → Batch S → Result Fields
  prepare args b = do
    resolved ← resolve_args py args b.results
    substitute_fields py b.created_ids resolved

  -- The body of the `try` statement.
  unfoldable pub attempt : Handler S → Value → Batch S → Result Fields × S
  attempt handler args b = elim (prepare args b) [
    | ok resolved ↦ handler resolved b.context
    | err e ↦ (err e, b.context)
  ]

module _ {S : Type 0} (py : Python) (registry : String → Option (Handler S))
    (invalidate_cache : S → S) where
  -- What follows the `try` statement, in the order of its steps.
  unfoldable pub finish : Batch S → String → Fields → Value → Outcome S
  unfolding answer
  finish b name result tag =
      let created = record_created_ids result b.created_ids in
      if is_mutation name
      then answer py (record b { created_ids = created; context = invalidate_cache b.context }) name
          (normalize_set_response result) tag
      else answer py (record b { created_ids = created }) name result tag

  -- The `try` statement's two handlers of exceptions, or what follows it.
  unfoldable pub settle : String → Value → Batch S → Result Fields × S → Outcome S
  unfolding finish
  settle name tag b (ok result, context) = finish (record b { context = context }) name result tag
  settle name tag b (err e, context) =
      answer py (record b { context = context }) "error" (error_body e) tag

  abbrev pub call_handler : Value → Value → Batch S → Option (String × Handler S) → Outcome S
  call_handler args tag b none = answer py b "error" (to_response unknown_method) tag
  call_handler args tag b (some (name, handler)) = settle name tag b (attempt py handler args b)

  -- The body of the loop, for a call that unpacks.
  unfoldable pub dispatch_named : Batch S → Value → Value → Value → Outcome S
  unfolding settle attempt
  dispatch_named b name args tag = elim (key_of name) [
    | none ↦ crashed (py.unhashable name)
    | some key ↦ call_handler args tag b (find_handler registry key)
  ]

  unfoldable pub dispatch_call : Batch S → Value → Outcome S
  unfolding dispatch_named
  dispatch_call b call = elim (unpack call) [
    | none ↦ running (respond b malformed)
    | some (name, args, tag) ↦ dispatch_named b name args tag
  ]

  unfoldable pub dispatch_calls : List Value → Batch S → Outcome S
  unfolding dispatch_call
  dispatch_calls [] b = running b
  dispatch_calls (call ∷ calls) b = and_then (dispatch_call b call) (λ b'. dispatch_calls calls b')

  unfoldable pub dispatch_request : List Value → CreatedIds → S → Outcome S
  unfolding dispatch_calls
  dispatch_request method_calls created_ids context =
      dispatch_calls method_calls (initial created_ids context)
