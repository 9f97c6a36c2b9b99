-- ===== src/Dispatch/Run/Failures.antt =====
-- What a failing call does to the rest of its request.
use mathlib.Core.Path.{fun_ext}
use jmap_bridge.Base.{
  String, ◌≡◌, refl, ◌∙◌, Option, none, some, ◌⊎◌, inl, inr, List, [], ◌∷◌, ◌++◌, Bool-cases,
  Option-cases, All,
}
use jmap_bridge.Base.{string_eq}
use jmap_bridge.Json.{Value, Fields}
use jmap_bridge.Errors.{Result, ok, err, error_body, to_response, unknown_method}
use jmap_bridge.Dispatch.Python.{Python, key_of, key_eq}
use jmap_bridge.Dispatch.CreationIds.{CreatedIds}
use jmap_bridge.Dispatch.SetResponses.{normalize_set_response}
use jmap_bridge.Dispatch.Run.{
  Handler, Batch, Outcome, running, crashed, unpack, is_mutation, answer, respond, malformed,
  finish, settle, attempt, find_handler, call_handler, dispatch_named, dispatch_call,
  dispatch_calls, and_then, initial, dispatch_request,
}
use jmap_bridge.Dispatch.Run.Answers.{IsHashable, dispatch_calls-Answered}

abbrev Crashes : {S : Type 0} → Outcome S → Type 0
Crashes o = (message : String) × (o ≡ crashed message)

abbrev UnhashableParts : Option (Value × Value × Value) → Type 0
UnhashableParts none = ⊥
UnhashableParts (some (name, args, tag)) = (key_of name ≡ none) ⊎ (key_of tag ≡ none)

-- A triple whose name or tag is an array or an object.
abbrev pub IsUnhashable : Value → Type 0
IsUnhashable call = UnhashableParts (unpack call)

and_then_assoc :
    {S : Type 0} (o : Outcome S) (f g : Batch S → Outcome S)
    → and_then o (λ b. and_then (f b) g) ≡ and_then (and_then o f) g
and_then_assoc (running b) f g = refl
and_then_assoc (crashed m) f g = refl

module _ {S : Type 0} (py : Python) where
  answer-Crashes :
      (b : Batch S) (name : String) (args : Fields) (tag : Value)
      → key_of tag ≡ none
      → Crashes (answer py b name args tag)
  unfolding answer
  answer-Crashes b name args tag h = (py.unhashable tag, rw (h, answer))

module _ {S : Type 0} (py : Python) (registry : String → Option (Handler S))
    (invalidate_cache : S → S) where
  finish-Crashes :
      (b : Batch S) (name : String) (result : Fields) (tag : Value)
      → key_of tag ≡ none
      → Crashes (finish py registry invalidate_cache b name result tag)
  unfolding finish
  finish-Crashes b name result tag h = elim (Bool-cases (is_mutation name)) [
    | inl m ↦ rw m (answer-Crashes py _ name (normalize_set_response result) tag h)
    | inr m ↦ rw m (answer-Crashes py _ name result tag h)
  ]

  settle-Crashes :
      (name : String) (tag : Value) (b : Batch S) (r : Result Fields × S)
      → key_of tag ≡ none
      → Crashes (settle py registry invalidate_cache name tag b r)
  unfolding settle
  settle-Crashes name tag b (ok result, context) h =
      finish-Crashes (record b { context = context }) name result tag h
  settle-Crashes name tag b (err e, context) h =
      answer-Crashes py (record b { context = context }) "error" (error_body e) tag h

  call_handler-Crashes :
      (args tag : Value) (b : Batch S) (found : Option (String × Handler S))
      → key_of tag ≡ none
      → Crashes (call_handler py registry invalidate_cache args tag b found)
  call_handler-Crashes args tag b none h =
      answer-Crashes py b "error" (to_response unknown_method) tag h
  call_handler-Crashes args tag b (some (name, handler)) h =
      settle-Crashes name tag b (attempt py handler args b) h

  dispatch_named-Crashes :
      (b : Batch S) (name args tag : Value)
      → (key_of name ≡ none) ⊎ (key_of tag ≡ none)
      → Crashes (dispatch_named py registry invalidate_cache b name args tag)
  unfolding dispatch_named
  dispatch_named-Crashes b name args tag h = elim (Option-cases (key_of name)) [
    | inl n ↦ (py.unhashable name, rw (n, dispatch_named))
    | inr (key, e) ↦ elim h [
      | inl n ↦ cc (e, n)
      | inr n ↦
          rw (e, dispatch_named) (call_handler-Crashes args tag b (find_handler registry key) n)
    ]
  ]

  dispatch_call-Crashes :
      (b : Batch S) (call : Value)
      → IsUnhashable call
      → Crashes (dispatch_call py registry invalidate_cache b call)
  unfolding dispatch_call
  dispatch_call-Crashes b call h = parts (unpack call) h
    where
      parts :
          (p : Option (Value × Value × Value))
          → UnhashableParts p
          → Crashes (elim p [
            | none ↦ running (respond b malformed)
            | some (name, args, tag) ↦ dispatch_named py registry invalidate_cache b name args tag
          ])
      parts none h = absurd h
      parts (some (name, args, tag)) h = dispatch_named-Crashes b name args tag h

  dispatch_calls-append :
      (first rest : List Value) (b : Batch S)
      → dispatch_calls py registry invalidate_cache (first ++ rest) b
        ≡ and_then
            (dispatch_calls py registry invalidate_cache first b)
            (λ b'. dispatch_calls py registry invalidate_cache rest b')
  unfolding dispatch_calls
  dispatch_calls-append [] rest b = refl
  dispatch_calls-append (call ∷ first) rest b =
      rw (fun_ext (λ b'. dispatch_calls-append first rest b'))
        (and_then_assoc (dispatch_call py registry invalidate_cache b call) _ _)

  -- One call whose name or tag is an array or an object ends the whole request with an exception,
  -- whatever stands before it and after it: no call is answered.
  pub dispatch_request-Crashes :
      (before after : List Value) (call : Value) (created_ids : CreatedIds) (context : S)
      → All IsHashable before
      → IsUnhashable call
      → (message : String) × (dispatch_request py registry invalidate_cache
            (before ++ (call ∷ after))
            created_ids
            context
          ≡ crashed message)
  unfolding dispatch_request dispatch_calls
  dispatch_request-Crashes before after call created_ids context h u =
      let (b, e, _) =
        dispatch_calls-Answered py registry invalidate_cache before (initial created_ids context)
          h in
      let (m, c) = dispatch_call-Crashes b call u in
      (m, dispatch_calls-append before (call ∷ after) (initial created_ids context) ∙ rw (e, c))
