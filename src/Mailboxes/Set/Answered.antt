-- ===== src/Mailboxes/Set/Answered.antt =====
-- Every creation, update and destruction that `Mailbox/set` is asked for is answered.
use jmap_bridge.Base.{
  ◌≡◌, refl, String, ◌||◌, Option, none, some, List, [], ◌∷◌, ◌==◌, contains, contains-append,
  arith, string_eq,
}
use jmap_bridge.Base.Dict
use jmap_bridge.Base.Dict.{Dict, NodupKeys}
use jmap_bridge.Json.{Value, Fields}
use jmap_bridge.Errors.{
  Result, ok, err, raised, imap_error, dav_error, failed, server_fail, invalid_arguments,
  to_response,
}
use jmap_bridge.Effects.{trying, for_each, ◌>>◌}
use jmap_bridge.Effects.Keeps.{
  Returns, Returns-mono, >>=-Returns, >>=-Returns_of, for_each-Returns, or_server_fail-Returns,
}
use jmap_bridge.Imap.{ImapMailboxEntry}
use jmap_bridge.Encoding.{decode_mailbox_id}
use jmap_bridge.Requests.{Request, Ctx, on_server, require_account, resolve_id}
use jmap_bridge.Mailboxes.Sweeping.{list_selectable_mailboxes}
use jmap_bridge.Mailboxes.Set.{
  CreateProps, UpdateProps, SetArgs, SetResponse, SetOutcome, CreateState, DestroyState,
  nothing_done, nothing_destroyed, given_text, create_one, update_one, after_delete,
  destroy_decoded, destroy_one, apply_set, list_and_apply, mailbox_set, server_delimiter_of,
  create_start, final_sweep,
}
use jmap_bridge.Mailboxes.Set.Answers.{
  bit, answers, Progress, is_fresh, advance, has-put, create_with-Adds, update_decoded-Adds,
}

-- Each id of a `create` or an `update` is answered once, either with what was done or with an
-- error; each id of `destroy` at least once, and no other id.
pub record IsAnswering (args : SetArgs) (r : SetResponse) : Type 0 where
  pub created : (k : String) → answers k r.created ≡ bit (Dict.has k args.create)
  pub updated : (k : String) → answers k r.updated ≡ bit (Dict.has k args.update)
  pub destroyed :
      (k : String)
      → (contains r.destroyed.destroyed k || Dict.has k r.destroyed.not_destroyed)
        ≡ contains args.destroy k

-- The ids that are left, and those that are answered, are the ids that are asked for.
abbrev pub Covers : List String → DestroyState → List String → Type 0
Covers asked d left =
    (k : String)
    → ((contains d.destroyed k || Dict.has k d.not_destroyed) || contains left k) ≡ contains asked k

-- One id more is in one of the answers, and the other answers are kept.
abbrev pub AddsTo : String → DestroyState → DestroyState → Type 0
AddsTo id d d' =
    (k : String)
    → (contains d'.destroyed k || Dict.has k d'.not_destroyed)
      ≡ ((contains d.destroyed k || Dict.has k d.not_destroyed) || id == k)

module _ {σ : Type 0} (req : Request σ) where
  pub refused-AddsTo :
      (d : DestroyState) (id : String) (fs : Fields)
      → AddsTo id d (record d { not_destroyed = Dict.put id fs d.not_destroyed })
  refused-AddsTo d id fs k = elim (string_eq.dec id k) [
    | yes p ↦ ground (arith, has-put k id fs d.not_destroyed)
    | no ne ↦ ground (arith, has-put k id fs d.not_destroyed)
  ]

  after_delete-AddsTo :
      (d : DestroyState) (id : String) (r : Result {0} Unit) (c : Ctx σ)
      → Returns (λ d' _. AddsTo id d d') (after_delete req d id r c)
  after_delete-AddsTo d id (ok _) c = record {
    post = λ k. ground (arith, contains-append d.destroyed (id ∷ []) k);
  }
  after_delete-AddsTo d id (err (imap_error m)) c = record {
    post = refused-AddsTo d id (to_response (server_fail m));
  }
  after_delete-AddsTo d id (err (raised e)) c = record { post = tt }
  after_delete-AddsTo d id (err (dav_error m)) c = record { post = tt }
  after_delete-AddsTo d id (err (failed m)) c = record { post = tt }

  destroy_decoded-AddsTo :
      (d : DestroyState) (id : String) (name : Option String) (c : Ctx σ)
      → Returns (λ d' _. AddsTo id d d') (destroy_decoded req d id name c)
  destroy_decoded-AddsTo d id none c = record {
    post = refused-AddsTo d id (to_response (invalid_arguments "invalid id" []));
  }
  destroy_decoded-AddsTo d id (some name) c =
      >>=-Returns (trying (on_server (req.imap.delete_folder name))) (after_delete req d id) c
        λ r t _. after_delete-AddsTo d id r t

  create_one-Progress :
      (args : SetArgs) (delimiter : String) (st : CreateState) (b : String × CreateProps)
      (left : Dict String CreateProps) (c : Ctx σ)
      → Progress args.create st.outcome (b ∷ left)
      → Returns (λ st' _. Progress args.create st'.outcome left) (create_one req delimiter st b c)
  unfolding create_one
  create_one-Progress args delimiter st b left c p =
      Returns-mono _ (λ st' _ adds. advance args.create st.outcome b.0 b.1 left p st'.outcome adds)
        (create_with-Adds req delimiter st b.0 (is_fresh args.create st.outcome b.0 b.1 left p) b.1
          (given_text b.1.name) c)

  update_one-Progress :
      (args : SetArgs) (delimiter : String) (entry_by_name : Dict String ImapMailboxEntry)
      (o : SetOutcome Value) (b : String × UpdateProps) (left : Dict String UpdateProps) (c : Ctx σ)
      → Progress args.update o (b ∷ left)
      → Returns
          (λ o' _. Progress args.update o' left)
          (update_one req delimiter entry_by_name o b c)
  unfolding update_one
  update_one-Progress args delimiter entry_by_name o b left c p =
      Returns-mono _ (λ o' _ adds. advance args.update o b.0 b.1 left p o' adds)
        (update_decoded-Adds req delimiter entry_by_name o b.0
          (is_fresh args.update o b.0 b.1 left p) b.1
          (decode_mailbox_id req.lib (resolve_id req c b.0)) c)

  destroy_one-Covers :
      (asked : List String) (d : DestroyState) (id : String) (left : List String) (c : Ctx σ)
      → Covers asked d (id ∷ left)
      → Returns (λ d' _. Covers asked d' left) (destroy_one req d id c)
  unfolding destroy_one
  destroy_one-Covers asked d id left c covers =
      Returns-mono _ (λ d' _ adds k. ground (arith, adds k, covers k))
        (destroy_decoded-AddsTo d id (decode_mailbox_id req.lib (resolve_id req c id)) c)

  apply_set-IsAnswering :
      (args : SetArgs) (account_id : String) (entries : List ImapMailboxEntry) (c : Ctx σ)
      → NodupKeys args.create
      → NodupKeys args.update
      → Returns (λ r _. IsAnswering args r) (apply_set req args account_id entries c)
  unfolding apply_set Dict.has Dict.get
  apply_set-IsAnswering args account_id entries c u v =
      >>=-Returns_of
        (for_each (create_one req (server_delimiter_of entries)) (create_start entries) args.create)
        _ c
        (for_each-Returns (create_one req (server_delimiter_of entries))
          (λ st left. Progress args.create st.outcome left)
          (create_one-Progress args (server_delimiter_of entries)) (create_start entries)
          args.create c (u, λ k. omega arith))
        λ created c₁ (_, p₁).
          >>=-Returns_of
            (for_each (update_one req (server_delimiter_of entries) created.entry_by_name)
              nothing_done args.update)
            _ c₁
            (for_each-Returns (update_one req (server_delimiter_of entries) created.entry_by_name)
              (Progress args.update)
              (update_one-Progress args (server_delimiter_of entries) created.entry_by_name)
              nothing_done args.update c₁ (v, λ k. omega arith))
            λ updated c₂ (_, p₂).
              >>=-Returns_of (for_each (destroy_one req) nothing_destroyed args.destroy) _ c₂
                (for_each-Returns (destroy_one req) (Covers args.destroy)
                  (destroy_one-Covers args.destroy) nothing_destroyed args.destroy c₂ (λ k. refl))
                λ destroyed c₃ p₃. >>=-Returns (on_server (final_sweep req)) _ c₃ λ statuses c₄ _.
                  record {
                    post = record {
                      created = λ k. omega (arith, p₁ k);
                      updated = λ k. omega (arith, p₂ k);
                      destroyed = λ k. ground (arith, p₃ k);
                    };
                  }

  list_and_apply-IsAnswering :
      (args : SetArgs) (account_id : String) (c : Ctx σ)
      → NodupKeys args.create
      → NodupKeys args.update
      → Returns (λ r _. IsAnswering args r) (list_and_apply req args account_id c)
  unfolding list_and_apply
  list_and_apply-IsAnswering args account_id c u v =
      >>=-Returns (on_server (req.imap.connect >> list_selectable_mailboxes req)) _ c
        λ entries c₂ _. apply_set-IsAnswering args account_id entries c₂ u v

  -- A response to `Mailbox/set` answers each id of `create` and of `update` once, with what was done
  -- or with an error, and each id of `destroy` in one of its two answers or both. It answers no
  -- other ids. The ids of `create`, and those of `update`, are the keys of a dict.
  pub mailbox_set-IsAnswering :
      (args : SetArgs) (c : Ctx σ)
      → NodupKeys args.create
      → NodupKeys args.update
      → Returns (λ r _. IsAnswering args r) (mailbox_set req args c)
  unfolding mailbox_set
  mailbox_set-IsAnswering args c u v =
      >>=-Returns (require_account req args.account_id) _ c λ account_id c₁ _.
        or_server_fail-Returns (list_and_apply req args account_id) c₁
          (list_and_apply-IsAnswering args account_id c₁ u v)
