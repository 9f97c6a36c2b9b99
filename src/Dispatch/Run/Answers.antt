-- ===== src/Dispatch/Run/Answers.antt =====
-- Every call of a request is answered, once, in order and under its own tag.
use jmap_bridge.Base.{
  String, ◌≡◌, refl, sym, ◌∙◌, ◌≢◌, Option, none, some, inl, inr, List, [], ◌∷◌, ◌++◌, Bool-cases,
  Option-cases, All, map,
}
use mathlib.Core.List.{map-append, append_assoc, append-nil}
use jmap_bridge.Base.{string_eq}
use jmap_bridge.Json.{Value, str, Fields}
use jmap_bridge.Errors.{Result, ok, err, error_body, to_response, unknown_method}
use jmap_bridge.Dispatch.Python.{Python, key_of}
use jmap_bridge.Dispatch.CreationIds.{CreatedIds}
use jmap_bridge.Dispatch.SetResponses.{normalize_set_response}
use jmap_bridge.Dispatch.Run.{
  Response, Handler, Batch, Outcome, running, unpack, is_mutation, answer, answered, respond,
  finish, settle, attempt, find_handler, call_handler, dispatch_named, dispatch_call,
  dispatch_calls, initial, dispatch_request, malformed,
}

abbrev pub tags : List Response → List Value
tags = map (λ r. r.tag)

-- The tag under which a call is answered.
abbrev tag_or : Option (Value × Value × Value) → Value
tag_or none = str "unknown"
tag_or (some (name, args, tag)) = tag

abbrev pub tag_of : Value → Value
tag_of call = tag_or (unpack call)

abbrev HashableParts : Option (Value × Value × Value) → Type 0
HashableParts none = Unit
HashableParts (some (name, args, tag)) = (key_of name ≢ none) × (key_of tag ≢ none)

-- The call's name and tag can be keys of a dict.
abbrev pub IsHashable : Value → Type 0
IsHashable call = HashableParts (unpack call)

-- The outcome is a batch with one more response, under the tag.
abbrev pub Answered : {S : Type 0} → Batch S → Outcome S → Value → Type 0
Answered {S} b o tag =
    (b' : Batch S) × (o ≡ running b') × (tags b'.responses ≡ tags b.responses ++ (tag ∷ []))

module _ {S : Type 0} (py : Python) where
  answer-Answered :
      (b : Batch S) (name : String) (args : Fields) (tag : Value)
      → key_of tag ≢ none
      → Answered b (answer py b name args tag) tag
  unfolding answer
  answer-Answered b name args tag h = elim (Option-cases (key_of tag)) [
    | inl n ↦ absurd (h n)
    | inr (key, e) ↦ (answered b name args tag key, rw (e, answer), map-append _ b.responses _)
  ]

module _ {S : Type 0} (py : Python) (registry : String → Option (Handler S))
    (invalidate_cache : S → S) where
  finish-Answered :
      (b : Batch S) (name : String) (result : Fields) (tag : Value)
      → key_of tag ≢ none
      → Answered b (finish py registry invalidate_cache b name result tag) tag
  unfolding finish
  finish-Answered b name result tag h = elim (Bool-cases (is_mutation name)) [
    | inl m ↦ rw m (answer-Answered py _ name (normalize_set_response result) tag h)
    | inr m ↦ rw m (answer-Answered py _ name result tag h)
  ]

  settle-Answered :
      (name : String) (tag : Value) (b : Batch S) (r : Result Fields × S)
      → key_of tag ≢ none
      → Answered b (settle py registry invalidate_cache name tag b r) tag
  unfolding settle
  settle-Answered name tag b (ok result, context) h =
      finish-Answered (record b { context = context }) name result tag h
  settle-Answered name tag b (err e, context) h =
      answer-Answered py (record b { context = context }) "error" (error_body e) tag h

  call_handler-Answered :
      (args tag : Value) (b : Batch S) (found : Option (String × Handler S))
      → key_of tag ≢ none
      → Answered b (call_handler py registry invalidate_cache args tag b found) tag
  call_handler-Answered args tag b none h =
      answer-Answered py b "error" (to_response unknown_method) tag h
  call_handler-Answered args tag b (some (name, handler)) h =
      settle-Answered name tag b (attempt py handler args b) h

  dispatch_named-Answered :
      (b : Batch S) (name args tag : Value)
      → key_of name ≢ none
      → key_of tag ≢ none
      → Answered b (dispatch_named py registry invalidate_cache b name args tag) tag
  unfolding dispatch_named
  dispatch_named-Answered b name args tag hn ht = elim (Option-cases (key_of name)) [
    | inl n ↦ absurd (hn n)
    | inr (key, e) ↦
        rw (e, dispatch_named) (call_handler-Answered args tag b (find_handler registry key) ht)
  ]

  dispatch_call-Answered :
      (b : Batch S) (call : Value)
      → IsHashable call
      → Answered b (dispatch_call py registry invalidate_cache b call) (tag_of call)
  unfolding dispatch_call
  dispatch_call-Answered b call h = parts (unpack call) h
    where
      parts :
          (p : Option (Value × Value × Value))
          → HashableParts p
          → Answered b
              (elim p [
                | none ↦ running (respond b malformed)
                | some (name, args, tag) ↦
                    dispatch_named py registry invalidate_cache b name args tag
              ])
              (tag_or p)
      parts none h = (respond b malformed, refl, map-append _ b.responses _)
      parts (some (name, args, tag)) h = dispatch_named-Answered b name args tag h.0 h.1

  pub dispatch_calls-Answered :
      (calls : List Value) (b : Batch S)
      → All IsHashable calls
      → (b' : Batch S) × (dispatch_calls py registry invalidate_cache calls b ≡ running b')
        × (tags b'.responses ≡ tags b.responses ++ map tag_of calls)
  unfolding dispatch_calls
  dispatch_calls-Answered [] b h = (b, refl, sym (append-nil _))
  dispatch_calls-Answered (call ∷ calls) b (h, hs) =
      let (b', e, t) = dispatch_call-Answered b call h in
      let (b'', es, ts) = dispatch_calls-Answered calls b' hs in
      (
        b'',
        rw e es,
        ts ∙ rw t (append_assoc (tags b.responses) (tag_of call ∷ []) (map tag_of calls)),
      )

  -- A request whose calls all have names and tags that can be dict keys is answered as a whole:
  -- one response for each call, in the order of the calls, under the call's own tag ("unknown" for
  -- a call that is not a triple), whichever of the calls fail.
  pub dispatch_request-tags :
      (calls : List Value) (created_ids : CreatedIds) (context : S)
      → All IsHashable calls
      → (b : Batch S) × (dispatch_request py registry invalidate_cache calls created_ids context
          ≡ running b)
        × (tags b.responses ≡ map tag_of calls)
  unfolding dispatch_request
  dispatch_request-tags calls created_ids context h =
      dispatch_calls-Answered calls (initial created_ids context) h
