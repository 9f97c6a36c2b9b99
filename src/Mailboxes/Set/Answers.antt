-- ===== src/Mailboxes/Set/Answers.antt =====
-- What one round of `Mailbox/set` adds to its answers.
use jmap_bridge.Base.{
  ℕ, ◌+◌, ◌≡◌, String, Bool, true, false, Option, none, some, List, [], ◌∷◌, if◌then◌else◌, ◌==◌,
  arith, string_eq, ==_refl,
}
use jmap_bridge.Base.Dict
use jmap_bridge.Base.Dict.{Dict, NodupKeys}
use jmap_bridge.Json.{Value, null}
use jmap_bridge.Errors.{
  MethodError, Result, ok, err, raised, imap_error, dav_error, failed, server_fail,
  invalid_arguments, to_response,
}
use jmap_bridge.Effects.{trying, ◌>>=◌, lift}
use jmap_bridge.Effects.Keeps.{Returns, >>=-Returns}
use jmap_bridge.Imap.{ImapMailboxEntry}
use jmap_bridge.Encoding.{encode_mailbox_id}
use jmap_bridge.Requests.{Request, Ctx, on_server}
use jmap_bridge.Mailboxes.Set.{
  CreateProps, UpdateProps, SetOutcome, CreateState, accept, refuse, given_text, full_name_of,
  after_create, create_named, create_with, after_rename, rename_to, renamed_path, delimiter_of,
  update_named, update_decoded, unsupported_props, unsupported_update,
}

abbrev pub bit : Bool → ℕ
bit true = 1
bit false = 0

-- How often an id is answered.
abbrev pub answers : {V : Type 0} → String → SetOutcome V → ℕ
answers id o = bit (Dict.has id o.done) + bit (Dict.has id o.refused)

-- One id more is answered, once.
abbrev pub Adds : {V : Type 0} → String → SetOutcome V → SetOutcome V → Type 0
Adds id o o' = (k : String) → answers k o' ≡ (if k == id then 1 else answers k o)

pub has-put :
    {V : Type 0} (k id : String) (v : V) (d : Dict String V)
    → Dict.has k (Dict.put id v d) ≡ (if k == id then true else Dict.has k d)
unfolding Dict.has
has-put k id v d = ground (arith, Dict.get-put k id v d)

module _ {V : Type 0} (id : String) (o : SetOutcome V) (fresh : answers id o ≡ 0) where
  pub accept-Adds : (v : V) → Adds id o (accept id v o)
  accept-Adds v k = elim (string_eq.dec k id) [
    | yes p ↦ rw p (ground (arith, has-put id id v o.done, ==_refl id))
    | no ne ↦ ground (arith, has-put k id v o.done)
  ]

  pub refuse-Adds : (e : MethodError) → Adds id o (refuse id e o)
  refuse-Adds e k = elim (string_eq.dec k id) [
    | yes p ↦ rw p (ground (arith, has-put id id (to_response e) o.refused, ==_refl id))
    | no ne ↦ ground (arith, has-put k id (to_response e) o.refused)
  ]

-- Of the ids that are asked for, those that are left are not answered yet, and the others once.
abbrev pub Progress : {V P : Type 0} → Dict String P → SetOutcome V → Dict String P → Type 0
Progress asked o left =
    NodupKeys left × ((k : String) → answers k o + bit (Dict.has k left) ≡ bit (Dict.has k asked))

module _ {V P : Type 0} (asked : Dict String P) (o : SetOutcome V) (id : String) (props : P)
    (left : Dict String P) (progress : Progress asked o ((id, props) ∷ left)) where
  pub is_fresh : answers id o ≡ 0
  unfolding Dict.has Dict.get
  is_fresh = ground (arith, ==_refl id, progress.1 id)

  pub advance : (o' : SetOutcome V) → Adds id o o' → Progress asked o' left
  unfolding Dict.has Dict.get
  advance o' adds = (
    progress.0.1,
    λ k. elim (string_eq.dec k id) [
      | yes p ↦ rw p (ground (arith, ==_refl id, progress.1 id, adds id, progress.0.0))
      | no ne ↦ ground (arith, progress.1 k, adds k)
    ],
  )

module _ {σ : Type 0} (req : Request σ) where
  module _ (delimiter : String) (st : CreateState) (cid : String)
      (fresh : answers cid st.outcome ≡ 0) where
    after_create-Adds :
        (full_name : String) (r : Result {0} Unit) (c : Ctx σ)
        → Returns
            (λ st' _. Adds cid st.outcome st'.outcome)
            (after_create req delimiter st cid full_name r c)
    after_create-Adds full_name (ok _) c = record {
      post = accept-Adds cid st.outcome fresh (encode_mailbox_id req.lib full_name);
    }
    after_create-Adds full_name (err (imap_error m)) c = record {
      post = refuse-Adds cid st.outcome fresh (server_fail m);
    }
    after_create-Adds full_name (err (raised e)) c = record { post = tt }
    after_create-Adds full_name (err (dav_error m)) c = record { post = tt }
    after_create-Adds full_name (err (failed m)) c = record { post = tt }

    create_named-Adds :
        (full_name : Option String) (c : Ctx σ)
        → Returns
            (λ st' _. Adds cid st.outcome st'.outcome)
            (create_named req delimiter st cid full_name c)
    create_named-Adds none c = record {
      post =
          refuse-Adds cid st.outcome fresh (invalid_arguments "invalid parentId" ("parentId" ∷ []));
    }
    create_named-Adds (some full_name) c =
        >>=-Returns (trying (on_server (req.imap.create_folder full_name)))
          (after_create req delimiter st cid full_name) c λ r t _. after_create-Adds full_name r t

    pub create_with-Adds :
        (props : CreateProps) (name : Option String) (c : Ctx σ)
        → Returns
            (λ st' _. Adds cid st.outcome st'.outcome)
            (create_with req delimiter st cid props name c)
    create_with-Adds props none c = record {
      post = refuse-Adds cid st.outcome fresh (invalid_arguments "name is required" ("name" ∷ []));
    }
    create_with-Adds props (some name) c =
        create_named-Adds (full_name_of req delimiter st (given_text props.parent_id) name) c

  module _ (delimiter : String) (entry_by_name : Dict String ImapMailboxEntry)
      (o : SetOutcome Value) (id : String) (fresh : answers id o ≡ 0) where
    after_rename-Adds :
        (new_name : String) (r : Result {0} Unit) (c : Ctx σ)
        → Returns (λ o' _. Adds id o o') (after_rename req o id new_name r c)
    unfolding after_rename ◌>>=◌
    after_rename-Adds new_name (ok _) c = record { post = accept-Adds id o fresh null }
    after_rename-Adds new_name (err (imap_error m)) c = record {
      post = refuse-Adds id o fresh (server_fail m);
    }
    after_rename-Adds new_name (err (raised e)) c = record { post = tt }
    after_rename-Adds new_name (err (dav_error m)) c = record { post = tt }
    after_rename-Adds new_name (err (failed m)) c = record { post = tt }

    rename_to-Adds :
        (old_name : String) (name : Option String) (c : Ctx σ)
        → Returns
            (λ o' _. Adds id o o')
            (rename_to req delimiter entry_by_name o id old_name name c)
    unfolding rename_to
    rename_to-Adds old_name none c = record { post = accept-Adds id o fresh null }
    rename_to-Adds old_name (some new) c =
        >>=-Returns
          (lift (renamed_path (delimiter_of delimiter old_name entry_by_name) old_name new)) _ c
          λ new_name t _.
            >>=-Returns (trying (on_server (req.imap.rename_folder old_name new_name)))
              (after_rename req o id new_name) t λ r t' _. after_rename-Adds new_name r t'

    update_named-Adds :
        (props : UpdateProps) (old_name : String) (ps : List String) (c : Ctx σ)
        → Returns
            (λ o' _. Adds id o o')
            (update_named req delimiter entry_by_name o id props old_name ps c)
    update_named-Adds props old_name [] c = rename_to-Adds old_name (given_text props.name) c
    update_named-Adds props old_name (p ∷ ps) c = record {
      post = refuse-Adds id o fresh (unsupported_update req (p ∷ ps));
    }

    pub update_decoded-Adds :
        (props : UpdateProps) (old_name : Option String) (c : Ctx σ)
        → Returns
            (λ o' _. Adds id o o')
            (update_decoded req delimiter entry_by_name o id props old_name c)
    update_decoded-Adds props none c = record {
      post = refuse-Adds id o fresh (invalid_arguments "invalid id" []);
    }
    update_decoded-Adds props (some old_name) c =
        update_named-Adds props old_name (unsupported_props props.given) c
