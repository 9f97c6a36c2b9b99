-- ===== src/Mailboxes/Set/Rename.antt =====
-- A mailbox that `Mailbox/set` renames keeps its parent, and its old id keeps working.
use jmap_bridge.Base.{
  ◌<◌, ◌≡◌, ◌≢◌, refl, sym, ap, ◌∙◌, String, ◌<>◌, none, some, some-injective, List, [], ◌∷◌, ◌++◌,
  arith, string_eq, inl, inr, Bool-cases,
}
use jmap_bridge.Base.Dict
use jmap_bridge.Base.Dict.{Dict}
use jmap_bridge.Base.Text.{is_empty, join, append_assoc}
use jmap_bridge.Json.{Value, null}
use jmap_bridge.Errors.{Result, ok, ok-injective}
use jmap_bridge.Effects.{trying, ◌>>=◌}
use jmap_bridge.Imap.{ImapMailboxEntry}
use jmap_bridge.Encoding.{encode_mailbox_id, decode_mailbox_id}
use jmap_bridge.IdRedirect.{table_of}
use jmap_bridge.IdRedirect.Record.{IsValid, resolve-record', record'-IsValid}
use jmap_bridge.Requests.{Request, Ctx, on_server, resolve_id}
use jmap_bridge.Mailboxes.Mapping.{split_text, last_piece, but_last, parent_of}
use jmap_bridge.Mailboxes.Split.{IsCons}
use jmap_bridge.Mailboxes.Hierarchy.{split_path}
use jmap_bridge.Mailboxes.Set.{
  UpdateProps, SetOutcome, accept, redirect, renamed_path, delimiter_of, after_rename, rename_to,
  update_one, given_text, unsupported_props,
}

join-snoc :
    (sep y : String) (xs : List String)
    → IsCons xs
    → join sep (xs ++ (y ∷ [])) ≡ join sep xs <> (sep <> y)
unfolding join
join-snoc sep y [] h = absurd h
join-snoc sep y (x ∷ []) h = refl
join-snoc sep y (x ∷ z ∷ xs) h =
    ap (λ t. x <> (sep <> t)) (join-snoc sep y (z ∷ xs) tt)
    ∙ ap (λ t. x <> t) (sym (append_assoc sep (join sep (z ∷ xs)) (sep <> y)))
    ∙ sym (append_assoc x (sep <> join sep (z ∷ xs)) (sep <> y))

sibling_path :
    (delimiter new parent : String) (segments : List String)
    → parent_of delimiter segments ≡ some parent
    → join delimiter (but_last segments ++ (new ∷ [])) ≡ parent <> (delimiter <> new)
unfolding but_last
sibling_path delimiter new parent [] p = absurd (ground arith)
sibling_path delimiter new parent (q ∷ []) p = absurd (ground arith)
sibling_path delimiter new parent (q ∷ r ∷ rest) p =
    join-snoc delimiter new (but_last (q ∷ r ∷ rest)) tt
    ∙ ap (λ t. t <> (delimiter <> new))
        (some-injective (join delimiter (but_last (q ∷ r ∷ rest))) parent p)

-- The old and the new name of a mailbox, below the same parent.
pub record AreSiblings (delimiter parent old_name new_name new_display_name : String) : Type 0 where
  pub old_path : old_name ≡ parent <> (delimiter <> last_piece (split_text delimiter old_name))
  pub new_path : new_name ≡ parent <> (delimiter <> new_display_name)

-- Where a mailbox with a parent is renamed, the old and the new name are the parent's name, the
-- delimiter, and the old or the new display name.
pub renamed_path-AreSiblings :
    (delimiter old_name new_display_name new_name parent : String)
    → renamed_path delimiter old_name new_display_name ≡ ok new_name
    → parent_of delimiter (split_text delimiter old_name) ≡ some parent
    → AreSiblings delimiter parent old_name new_name new_display_name
unfolding renamed_path
renamed_path-AreSiblings delimiter old_name new_display_name new_name parent h p =
    elim (Bool-cases (is_empty delimiter)) [
      | inl b ↦ absurd (ground (arith, rw b at h))
      | inr b ↦
          let made : ok _ ≡ ok new_name = rw b at h in
          record {
            old_path = split_path delimiter old_name parent b p;
            new_path =
                sym (
                  ok-injective
                    (join delimiter
                      (but_last (split_text delimiter old_name) ++ (new_display_name ∷ [])))
                    new_name made)
                ∙ sibling_path delimiter new_display_name parent (split_text delimiter old_name) p;
          }
    ]

-- A rename that the server carries out.
pub record IsRename {σ : Type 0} (req : Request σ) (delimiter : String)
    (entry_by_name : Dict String ImapMailboxEntry) (id : String) (props : UpdateProps) (c : Ctx σ)
    (new_name : String) : Type 0 where
  pub old_name : String
  pub display_name : String
  pub server : σ
  pub is_decoded : decode_mailbox_id req.lib (resolve_id req c id) ≡ some old_name
  pub is_supported : unsupported_props props.given ≡ []
  pub is_named : given_text props.name ≡ some display_name
  pub is_renamed :
      renamed_path (delimiter_of delimiter old_name entry_by_name) old_name display_name
      ≡ ok new_name
  pub is_done : req.imap.rename_folder old_name new_name c.server ≡ (ok tt, server)

-- After an update, the client's id stands for the new name.
pub record IsRedirected {σ : Type 0} (req : Request σ) (o : SetOutcome Value) (id new_name : String)
    (outcome : Result (SetOutcome Value) × Ctx σ) : Type 0 where
  pub state : Ctx σ
  pub is_updated : outcome ≡ (ok (accept id null o), state)
  pub is_resolved : resolve_id req state id ≡ encode_mailbox_id req.lib new_name
  pub redirects_valid : IsValid state.redirects

-- An update that renames a mailbox is reported under the id that the client gave, and afterwards
-- that id resolves to the id of the new name, where the new id is another one that has no redirect
-- itself. The redirects stay valid.
pub update_one-IsRedirected :
    {σ : Type 0} (req : Request σ) (delimiter : String)
    (entry_by_name : Dict String ImapMailboxEntry) (o : SetOutcome Value) (id : String)
    (props : UpdateProps) (c : Ctx σ) (new_name : String)
    → IsRename req delimiter entry_by_name id props c new_name
    → IsValid c.redirects
    → 0 < c.redirects.max_entries
    → id ≢ encode_mailbox_id req.lib new_name
    → Dict.get (encode_mailbox_id req.lib new_name) (table_of req.redirect_key c.redirects) ≡ none
    → IsRedirected req o id new_name (update_one req delimiter entry_by_name o (id, props) c)
unfolding update_one rename_to trying on_server after_rename ◌>>=◌
update_one-IsRedirected req delimiter entry_by_name o id props c new_name r valid room differs
      free =
    record {
      state = redirect req id (encode_mailbox_id req.lib new_name) (record c { server = r.server });
      is_updated =
          rw (update_one, r.is_decoded, r.is_supported, r.is_named, r.is_renamed, r.is_done) refl;
      is_resolved =
          resolve-record' req.redirect_key id (encode_mailbox_id req.lib new_name) c.redirects valid
            room differs free;
      redirects_valid =
          record'-IsValid req.redirect_key id (encode_mailbox_id req.lib new_name) c.redirects
            valid;
    }
