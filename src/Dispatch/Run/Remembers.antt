-- ===== src/Dispatch/Run/Remembers.antt =====
-- What a call leaves for the later calls of its request.
use jmap_bridge.Base.{
  String, ◌<>◌, ◌≡◌, refl, ap, ◌∙◌, ◌≢◌, Option, none, some, inl, inr, List, [], ◌∷◌, ◌++◌,
  Bool-cases, Option-cases,
}
use jmap_bridge.Base.{==_refl, string_eq}
use jmap_bridge.Base.Dict
use jmap_bridge.Json.{Value, str, obj, Fields}
use jmap_bridge.Errors.{
  Result, ok, err, Exn, raised, error_body, to_response, unknown_method, invalid_result_reference,
}
use jmap_bridge.Dispatch.Python.{Python, Key, key_of, key_eq}
use jmap_bridge.Dispatch.BackReferences.{resolve_backref}
use jmap_bridge.Dispatch.CreationIds.Recorded.{kept-record_created_ids}
use jmap_bridge.Dispatch.SetResponses.{normalize_set_response}
use jmap_bridge.Dispatch.Run.{
  Handler, Batch, Outcome, running, crashed, unpack, is_mutation, answer, answered, finish, settle,
  attempt, find_handler, with_name, call_handler, dispatch_named, dispatch_call, dispatch_calls,
  and_then,
}

-- A batch that the outcome holds, if it holds one, satisfies the predicate.
abbrev pub Leaves : {S : Type 0} → (Batch S → Type 0) → Outcome S → Type 0
Leaves P (running b) = P b
Leaves P (crashed message) = Unit

-- A creation id is known.
abbrev pub Knows : {S : Type 0} → String → Batch S → Type 0
Knows cid b = Dict.get cid b.created_ids ≢ none

answer_at :
    {S : Type 0} (py : Python) (b : Batch S) (name : String) (args : Fields) (tag : Value)
    (key : Key)
    → key_of tag ≡ some key
    → answer py b name args tag ≡ running (answered b name args tag key)
unfolding answer
answer_at py b name args tag key k = rw (k, answer)

module _ {S : Type 0} (py : Python) (cid : String) where
  answer-Knows :
      (b : Batch S) (name : String) (args : Fields) (tag : Value)
      → Knows cid b
      → Leaves (Knows cid) (answer py b name args tag)
  unfolding answer
  answer-Knows b name args tag h = elim (Option-cases (key_of tag)) [
    | inl n ↦ rw (n, answer) tt
    | inr (key, e) ↦ rw (e, answer) h
  ]

module _ {S : Type 0} (py : Python) (registry : String → Option (Handler S))
    (invalidate_cache : S → S) where
  module _ (cid : String) where
    finish-Knows :
        (b : Batch S) (name : String) (result : Fields) (tag : Value)
        → Knows cid b
        → Leaves (Knows cid) (finish py registry invalidate_cache b name result tag)
    unfolding finish
    finish-Knows b name result tag h =
        let known = kept-record_created_ids cid result b.created_ids h in
        elim (Bool-cases (is_mutation name)) [
          | inl m ↦ rw m (answer-Knows py cid _ name (normalize_set_response result) tag known)
          | inr m ↦ rw m (answer-Knows py cid _ name result tag known)
        ]

    settle-Knows :
        (name : String) (tag : Value) (b : Batch S) (r : Result Fields × S)
        → Knows cid b
        → Leaves (Knows cid) (settle py registry invalidate_cache name tag b r)
    unfolding settle
    settle-Knows name tag b (ok result, context) h =
        finish-Knows (record b { context = context }) name result tag h
    settle-Knows name tag b (err e, context) h =
        answer-Knows py cid (record b { context = context }) "error" (error_body e) tag h

    call_handler-Knows :
        (args tag : Value) (b : Batch S) (found : Option (String × Handler S))
        → Knows cid b
        → Leaves (Knows cid) (call_handler py registry invalidate_cache args tag b found)
    call_handler-Knows args tag b none h =
        answer-Knows py cid b "error" (to_response unknown_method) tag h
    call_handler-Knows args tag b (some (name, handler)) h =
        settle-Knows name tag b (attempt py handler args b) h

    dispatch_call-Knows :
        (b : Batch S) (call : Value)
        → Knows cid b
        → Leaves (Knows cid) (dispatch_call py registry invalidate_cache b call)
    unfolding dispatch_call
    dispatch_call-Knows b call h = elim (Option-cases (unpack call)) [
      | inl n ↦ rw (n, dispatch_call) h
      | inr ((name, args, tag), e) ↦
          rw (e, dispatch_call)
            (elim (Option-cases (key_of name)) [
              | inl n ↦ rw (n, dispatch_named) tt
              | inr (key, k) ↦
                  rw (k, dispatch_named)
                    (call_handler-Knows args tag b (find_handler registry key) h)
            ])
    ]

    -- Through a whole request no creation id is forgotten: one that is known before some calls is
    -- known after them, whatever they do, unless the request ends with an exception.
    pub dispatch_calls-Knows :
        (calls : List Value) (b : Batch S)
        → Knows cid b
        → Leaves (Knows cid) (dispatch_calls py registry invalidate_cache calls b)
    unfolding dispatch_calls
    dispatch_calls-Knows [] b h = h
    dispatch_calls-Knows (call ∷ calls) b h =
        through (dispatch_call py registry invalidate_cache b call) (dispatch_call-Knows b call h)
          (dispatch_calls-Knows calls)
      where
        through :
            (o : Outcome S)
            → Leaves (Knows cid) o
            → ((b' : Batch S)
                → Knows cid b'
                → Leaves (Knows cid) (dispatch_calls py registry invalidate_cache calls b'))
            → Leaves
                (Knows cid)
                (and_then o (λ b'. dispatch_calls py registry invalidate_cache calls b'))
        through (running b') k next = next b' k
        through (crashed m) k next = tt

  -- A call of a registered method that raises is answered with an error and no more: the batch
  -- keeps its creation ids and its earlier responses, and a back-reference to the call's tag is
  -- refused as an invalid result reference, whatever its path.
  pub dispatch_named-raises :
      (b : Batch S) (name : String) (handler : Handler S) (args tag : Value) (key : Key) (e : Exn)
      (context : S)
      → registry name ≡ some handler
      → attempt py handler args b ≡ (err e, context)
      → key_of tag ≡ some key
      → (b' : Batch S) × (dispatch_named py registry invalidate_cache b (str name) args tag
          ≡ running b')
        × (b'.created_ids ≡ b.created_ids)
        × (b'.responses
            ≡ b.responses ++ (record { name = "error"; args = error_body e; tag = tag } ∷ []))
        × ((path : Value)
            → resolve_backref py b'.results tag path
              ≡ err (
                  raised (
                    invalid_result_reference
                      ("referenced call " <> (py.repr tag <> " returned an error")))))
  unfolding dispatch_named resolve_backref key_of settle
  dispatch_named-raises b name handler args tag key e context r a k =
      let failed_batch = record b { context = context } in
      (
        answered failed_batch "error" (error_body e) tag key,
        ap (call_handler py registry invalidate_cache args tag b) (ap (with_name name) r)
            ∙ ap (settle py registry invalidate_cache name tag b) a
            ∙ answer_at py failed_batch "error" (error_body e) tag key k,
        refl,
        refl,
        λ path.
            rw (k, resolve_backref)
              (rw
                (Dict.get-put_self key (record { name = "error"; args = obj (error_body e) })
                  b.results)
                (rw (==_refl {A = String} "error"))),
      )
