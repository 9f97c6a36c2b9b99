-- ===== src/Collections/Answered.antt =====
-- Every creation, update and destruction that `Calendar/set` and `AddressBook/set` are asked for is
-- answered.
use jmap_bridge.Base.{
  ◌≡◌, refl, String, ◌||◌, Option, none, some, List, [], ◌∷◌, contains, contains-append, arith,
  string_eq,
}
use jmap_bridge.Base.Dict
use jmap_bridge.Base.Dict.{Dict, NodupKeys}
use jmap_bridge.Json.{Value, null}
use jmap_bridge.Errors.{
  Result, ok, err, raised, imap_error, dav_error, failed, server_fail, invalid_arguments,
  to_response,
}
use jmap_bridge.Effects.{trying, for_each}
use jmap_bridge.Effects.Keeps.{
  Returns, Returns-mono, >>=-Returns, >>=-Returns_of, for_each-Returns, or_server_fail-Returns,
}
use jmap_bridge.Encoding.{Libraries}
use jmap_bridge.Requests.{Request, Ctx, on_server, require_account}
use jmap_bridge.Requests.Keeps.{on_server-Returns}
use jmap_bridge.Mailboxes.Set.{
  SetOutcome, nothing_done, DestroyState, nothing_destroyed, given_text,
}
use jmap_bridge.Mailboxes.Set.Answers.{
  bit, answers, Adds, accept-Adds, refuse-Adds, Progress, is_fresh, advance,
}
use jmap_bridge.Mailboxes.Set.Answered.{Covers, AddsTo, refused-AddsTo}
use jmap_bridge.Collections.{
  DavServer, CollectionKind, CollectionSetArgs, CollectionSetResponse, encode_collection_id,
  decode_collection_id, open_dav, after_make, make_named, make_one, after_relabel, relabel_to,
  relabel_decoded, relabel_one, after_remove, remove_decoded, remove_one, apply_collection_set,
  collection_set,
}

-- As for mailboxes: each id of a `create` or an `update` is answered once, each id of `destroy` at
-- least once, and no other id.
pub record IsAnsweringAll (args : CollectionSetArgs) (r : CollectionSetResponse) : Type 0 where
  pub created : (k : String) → answers k r.created ≡ bit (Dict.has k args.create)
  pub updated : (k : String) → answers k r.updated ≡ bit (Dict.has k args.update)
  pub destroyed :
      (k : String)
      → (contains r.destroyed.destroyed k || Dict.has k r.destroyed.not_destroyed)
        ≡ contains args.destroy k

module _ (lib : Libraries) (href_path : String → String) (kind : CollectionKind) {σ : Type 0}
    (req : Request σ) (dav : DavServer σ) where
  module _ (o : SetOutcome String) (cid : String) (fresh : answers cid o ≡ 0) where
    after_make-Adds :
        (r : Result String) (s : σ)
        → Returns (λ o' _. Adds cid o o') (after_make lib href_path kind req dav o cid r s)
    after_make-Adds (ok href) s = record {
      post = accept-Adds cid o fresh (encode_collection_id lib href_path kind href);
    }
    after_make-Adds (err (dav_error m)) s = record {
      post = refuse-Adds cid o fresh (server_fail m);
    }
    after_make-Adds (err (raised e)) s = record { post = tt }
    after_make-Adds (err (imap_error m)) s = record { post = tt }
    after_make-Adds (err (failed m)) s = record { post = tt }

    make_named-Adds :
        (name : Option String) (s : σ)
        → Returns (λ o' _. Adds cid o o') (make_named lib href_path kind req dav o cid name s)
    make_named-Adds none s = record {
      post = refuse-Adds cid o fresh (invalid_arguments "name is required" ("name" ∷ []));
    }
    make_named-Adds (some name) s =
        >>=-Returns (trying (dav.create_collection name))
          (after_make lib href_path kind req dav o cid) s λ r t _. after_make-Adds r t

  module _ (o : SetOutcome Value) (id : String) (fresh : answers id o ≡ 0) where
    after_relabel-Adds :
        (r : Result (Unit {0})) (s : σ)
        → Returns (λ o' _. Adds id o o') (after_relabel lib href_path kind req dav o id r s)
    after_relabel-Adds (ok _) s = record { post = accept-Adds id o fresh null }
    after_relabel-Adds (err (dav_error m)) s = record {
      post = refuse-Adds id o fresh (server_fail m);
    }
    after_relabel-Adds (err (raised e)) s = record { post = tt }
    after_relabel-Adds (err (imap_error m)) s = record { post = tt }
    after_relabel-Adds (err (failed m)) s = record { post = tt }

    relabel_to-Adds :
        (href : String) (name : Option String) (s : σ)
        → Returns (λ o' _. Adds id o o') (relabel_to lib href_path kind req dav o id href name s)
    relabel_to-Adds href none s = record { post = accept-Adds id o fresh null }
    relabel_to-Adds href (some name) s =
        >>=-Returns (trying (dav.rename_collection href name))
          (after_relabel lib href_path kind req dav o id) s λ r t _. after_relabel-Adds r t

    relabel_decoded-Adds :
        (name href : Option String) (s : σ)
        → Returns
            (λ o' _. Adds id o o')
            (relabel_decoded lib href_path kind req dav o id name href s)
    relabel_decoded-Adds name none s = record {
      post = refuse-Adds id o fresh (invalid_arguments "invalid id" []);
    }
    relabel_decoded-Adds name (some href) s = relabel_to-Adds href (given_text name) s

  after_remove-AddsTo :
      (d : DestroyState) (id : String) (r : Result (Unit {0})) (s : σ)
      → Returns (λ d' _. AddsTo id d d') (after_remove lib href_path kind req dav d id r s)
  after_remove-AddsTo d id (ok _) s = record {
    post = λ k. ground (arith, contains-append d.destroyed (id ∷ []) k);
  }
  after_remove-AddsTo d id (err (dav_error m)) s = record {
    post = refused-AddsTo req d id (to_response (server_fail m));
  }
  after_remove-AddsTo d id (err (raised e)) s = record { post = tt }
  after_remove-AddsTo d id (err (imap_error m)) s = record { post = tt }
  after_remove-AddsTo d id (err (failed m)) s = record { post = tt }

  remove_decoded-AddsTo :
      (d : DestroyState) (id : String) (href : Option String) (s : σ)
      → Returns (λ d' _. AddsTo id d d') (remove_decoded lib href_path kind req dav d id href s)
  remove_decoded-AddsTo d id none s = record {
    post = refused-AddsTo req d id (to_response (invalid_arguments "invalid id" []));
  }
  remove_decoded-AddsTo d id (some href) s =
      >>=-Returns (trying (dav.delete_collection href))
        (after_remove lib href_path kind req dav d id) s λ r t _. after_remove-AddsTo d id r t

  module _ (args : CollectionSetArgs) where
    make_one-Progress :
        (o : SetOutcome String) (b : String × Option String) (left : Dict String (Option String))
        (s : σ)
        → Progress args.create o (b ∷ left)
        → Returns (λ o' _. Progress args.create o' left) (make_one lib href_path kind req dav o b s)
    unfolding make_one
    make_one-Progress o b left s p =
        Returns-mono _ (λ o' _ adds. advance args.create o b.0 b.1 left p o' adds)
          (make_named-Adds o b.0 (is_fresh args.create o b.0 b.1 left p) (given_text b.1) s)

    relabel_one-Progress :
        (o : SetOutcome Value) (b : String × Option String) (left : Dict String (Option String))
        (s : σ)
        → Progress args.update o (b ∷ left)
        → Returns
            (λ o' _. Progress args.update o' left)
            (relabel_one lib href_path kind req dav o b s)
    unfolding relabel_one
    relabel_one-Progress o b left s p =
        Returns-mono _ (λ o' _ adds. advance args.update o b.0 b.1 left p o' adds)
          (relabel_decoded-Adds o b.0 (is_fresh args.update o b.0 b.1 left p) b.1
            (decode_collection_id lib href_path kind b.0) s)

    remove_one-Covers :
        (d : DestroyState) (id : String) (left : List String) (s : σ)
        → Covers args.destroy d (id ∷ left)
        → Returns
            (λ d' _. Covers args.destroy d' left)
            (remove_one lib href_path kind req dav d id s)
    unfolding remove_one
    remove_one-Covers d id left s covers =
        Returns-mono _ (λ d' _ adds k. ground (arith, adds k, covers k))
          (remove_decoded-AddsTo d id (decode_collection_id lib href_path kind id) s)

    apply_collection_set-IsAnsweringAll :
        (account_id : String) (s : σ)
        → NodupKeys args.create
        → NodupKeys args.update
        → Returns
            (λ r _. IsAnsweringAll args r)
            (apply_collection_set lib href_path kind req dav args account_id s)
    unfolding apply_collection_set Dict.has Dict.get
    apply_collection_set-IsAnsweringAll account_id s u v =
        let make = make_one lib href_path kind req dav in
        let relabel = relabel_one lib href_path kind req dav in
        let remove = remove_one lib href_path kind req dav in
        >>=-Returns (open_dav lib href_path kind req dav) _ s λ _ s₁ _.
          >>=-Returns_of (for_each make nothing_done args.create) _ s₁
            (for_each-Returns make (Progress args.create) make_one-Progress nothing_done args.create
              s₁ (u, λ k. omega arith))
            λ created s₂ (_, p₁).
              >>=-Returns_of (for_each relabel nothing_done args.update) _ s₂
                (for_each-Returns relabel (Progress args.update) relabel_one-Progress nothing_done
                  args.update s₂ (v, λ k. omega arith))
                λ updated s₃ (_, p₂).
                  >>=-Returns_of (for_each remove nothing_destroyed args.destroy) _ s₃
                    (for_each-Returns remove (Covers args.destroy) remove_one-Covers
                      nothing_destroyed args.destroy s₃ (λ k. refl))
                    λ destroyed s₄ p₃. >>=-Returns dav.list_collections _ s₄ λ entries s₅ _.
                      record {
                        post = record {
                          created = λ k. omega (arith, p₁ k);
                          updated = λ k. omega (arith, p₂ k);
                          destroyed = λ k. ground (arith, p₃ k);
                        };
                      }

    -- A response to `Calendar/set` or `AddressBook/set` answers each id of `create` and of `update`
    -- once, with what was done or with an error, and each id of `destroy` in one of its two answers
    -- or both. It answers no other ids. The ids of `create`, and those of `update`, are the keys of
    -- a dict.
    pub collection_set-IsAnsweringAll :
        (c : Ctx σ)
        → NodupKeys args.create
        → NodupKeys args.update
        → Returns (λ r _. IsAnsweringAll args r) (collection_set lib href_path kind req dav args c)
    unfolding collection_set
    collection_set-IsAnsweringAll c u v =
        >>=-Returns (require_account req args.account_id) _ c λ account_id c₁ _.
          or_server_fail-Returns
            (on_server (apply_collection_set lib href_path kind req dav args account_id)) c₁
            (on_server-Returns (apply_collection_set lib href_path kind req dav args account_id) c₁
              (apply_collection_set-IsAnsweringAll account_id c₁.server u v))
