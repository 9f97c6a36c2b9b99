-- ===== src/Emails/Update.antt =====
-- types/email.py: one update and one destroy of `Email/set`, which `EmailSubmission/set` also applies.
pub mod Events
pub mod NoLoss
pub mod Moved
mod Examples
use jmap_bridge.Base.{
  String, ◌<>◌, Bool, true, false, Option, none, some, List, [], ◌∷◌, if◌then◌else◌, not, ◌==◌,
  contains, string_eq,
}
use jmap_bridge.Base.Dict
use jmap_bridge.Base.Dict.{Dict}
use jmap_bridge.Base.Int.{ℤ, int_eq}
use jmap_bridge.Base.Text.{after_prefix}
use jmap_bridge.Json.{Value, null, obj, Fields, end, field, truthy}
use jmap_bridge.Json.Object.{get}
use jmap_bridge.Errors.{
  MethodError, Result, ok, err, raised, failed, invalid_arguments, invalid_properties,
}
use jmap_bridge.Effects.{Action, pure, raise, lift, modify, for_each, ◌>>=◌, ◌>>◌}
use jmap_bridge.Encoding.{decode_mailbox_id, decode_name}
use jmap_bridge.IdRedirect.{record'}
use jmap_bridge.Imap.{MailboxStatus}
use jmap_bridge.Requests.{Request, Ctx, on_server, resolve_id}
use jmap_bridge.Emails.Filter.{flag_of}
use jmap_bridge.Emails.Ids.{EmailId, encode_email_id, decode_email_id}

-- client.py: the connection's operations on the messages of the selected mailbox. The handlers
-- give each of them one UID. `select_for_update` is `select(mailbox, readonly=False)`, and `copy`
-- returns the UIDVALIDITY and the UID of the copy where the server reports them.
pub record Messages (σ : Type 0) : Type 0 where
  pub select_for_update : String → Action σ MailboxStatus
  pub set_flags : ℤ → List String → Action σ Unit
  pub add_flags : ℤ → List String → Action σ Unit
  pub remove_flags : ℤ → List String → Action σ Unit
  pub copy : ℤ → String → Action σ (Option (ℤ × ℤ))
  pub expunge : ℤ → Action σ Unit

-- `email_map.keywords_to_flags`
unfoldable pub keywords_to_flags : Fields → List String
keywords_to_flags end = []
keywords_to_flags (field k v fs) =
    let rest = keywords_to_flags fs in if truthy v then flag_of k ∷ rest else rest

-- `{k[len(prefix):]: v for k, v in patch.items() if k.startswith(prefix)}`
unfoldable pub patches : String → Fields → Dict String Value
patches prefix end = []
patches prefix (field k v fs) =
    let rest = patches prefix fs in
    elim (after_prefix prefix k) [ none ↦ rest | some name ↦ (name, v) ∷ rest ]

-- A set of texts: `add`, `discard` and `- {text}`.
abbrev pub add_text : String → List String → List String
add_text name names = if contains names name then names else name ∷ names

unfoldable pub discard_name : String → List String → List String
discard_name name [] = []
discard_name name (n ∷ names) =
    let rest = discard_name name names in if name == n then rest else n ∷ rest

-- A value that is read as a dict: `.items()` of any other is an `AttributeError`.
abbrev pub items_of : Value → Result Fields
items_of (obj fs) = ok fs
items_of v = err (failed "AttributeError")

abbrev pub add_name : String → Result (List String) → Result (List String)
add_name name (ok names) = ok (add_text name names)
add_name name (err e) = err e

module _ {σ : Type 0} (req : Request σ) where
  -- `decode_mailbox_id(id)`: the `ValueError` of an id that is none is not caught.
  abbrev pub mailbox_named : String → Result String
  mailbox_named id = elim (decode_mailbox_id req.lib id) [
    | none ↦ err (failed "ValueError")
    | some name ↦ ok name
  ]

  -- `{decode_mailbox_id(m) for m, keep in new_mailbox_ids.items() if keep}`
  unfoldable pub kept_names : Fields → Result (List String)
  unfolding decode_name
  kept_names end = ok []
  kept_names (field m keep fs) =
      let rest = kept_names fs in
      if truthy keep
      then elim (mailbox_named m) [ err e ↦ err e | ok name ↦ add_name name rest ]
      else rest

  -- The loop over `mailbox_id_patches`.
  unfoldable pub patch_names : List String → Dict String Value → Result (List String)
  unfolding decode_name discard_name
  patch_names names [] = ok names
  patch_names names ((id, keep) ∷ ps) = elim (mailbox_named id) [
    | err e ↦ err e
    | ok name ↦
        patch_names (if truthy keep then add_text name names else discard_name name names) ps
  ]

  abbrev pub some_names : Result (List String) → Result (Option (List String))
  some_names (ok names) = ok (some names)
  some_names (err e) = err e

  abbrev pub names_of : Result Fields → Result (Option (List String))
  names_of (ok fs) = some_names (kept_names fs)
  names_of (err e) = err e

  abbrev pub patched : String → Dict String Value → Result (Option (List String))
  patched mailbox [] = ok none
  patched mailbox (p ∷ ps) = some_names (patch_names (mailbox ∷ []) (p ∷ ps))

  abbrev pub targets_of : String → Option Value → Dict String Value → Result (Option (List String))
  targets_of mailbox none ps = patched mailbox ps
  targets_of mailbox (some null) ps = patched mailbox ps
  targets_of mailbox (some v) ps = names_of (items_of v)

  -- `target_names`, for the message's mailbox and a patch.
  unfoldable pub target_names : String → Fields → Result (Option (List String))
  unfolding get patches kept_names patch_names
  target_names mailbox patch =
      targets_of mailbox (get "mailboxIds" patch) (patches "mailboxIds/" patch)

  module _ (messages : Messages σ) (str_of : Value → String) where
    abbrev pub set_keywords : ℤ → Result Fields → Action σ Unit
    set_keywords uid (ok keywords) = messages.set_flags uid (keywords_to_flags keywords)
    set_keywords uid (err e) = raise e

    -- One round of the loop over `keywords_patch`.
    unfoldable pub patch_keyword : ℤ → Unit {0} → String × Value → Action σ (Unit {0})
    unfolding flag_of
    patch_keyword uid _ (keyword, v) =
        if truthy v
        then messages.add_flags uid (flag_of keyword ∷ [])
        else messages.remove_flags uid (flag_of keyword ∷ [])

    abbrev pub apply_keywords : ℤ → Option Value → Dict String Value → Action σ Unit
    apply_keywords uid (some v) ps = set_keywords uid (items_of v)
    apply_keywords uid none ps = for_each (patch_keyword uid) tt ps

    -- The keywords' part of an update.
    unfoldable pub update_keywords : ℤ → Fields → Action σ Unit
    unfolding get patches patch_keyword keywords_to_flags for_each
    update_keywords uid patch =
        apply_keywords uid (get "keywords" patch) (patches "keywords/" patch)

    -- One round of the loop over `copy_destinations`.
    abbrev pub note_copy : Dict String (ℤ × ℤ) → String → Option (ℤ × ℤ) → Dict String (ℤ × ℤ)
    note_copy locations extra none = locations
    note_copy locations extra (some location) = Dict.put extra location locations

    unfoldable pub copy_one :
        ℤ → Dict String (ℤ × ℤ) → String → Action (Ctx σ) (Dict String (ℤ × ℤ))
    unfolding ◌>>=◌ on_server
    copy_one uid locations extra = do
      result ← on_server (messages.copy uid extra)
      pure (note_copy locations extra result)

    -- The redirect of a message that moved to one mailbox, where the server reported the copy.
    abbrev pub redirect_to : String → String → Option (ℤ × ℤ) → Ctx σ → Ctx σ
    redirect_to email_id extra none c = c
    redirect_to email_id extra (some (uidvalidity, uid)) c = record c {
      redirects =
          record' req.redirect_key email_id (encode_email_id req.lib extra uidvalidity uid)
            c.redirects;
    }

    abbrev pub redirect_moved : String → List String → Dict String (ℤ × ℤ) → Ctx σ → Ctx σ
    redirect_moved email_id (extra ∷ []) locations c =
        redirect_to email_id extra (Dict.get extra locations) c
    redirect_moved email_id _ locations c = c

    -- `set_flags([uid], ["\\Deleted"])`, then `expunge([uid])`.
    unfoldable pub remove_message : ℤ → Action σ Unit
    unfolding ◌>>=◌
    remove_message uid = messages.set_flags uid ("\\Deleted" ∷ []) >> messages.expunge uid

    -- What follows the copies: the mailbox that is not wanted any more loses its message.
    unfoldable pub leave_mailbox :
        String → String → ℤ → List String → Dict String (ℤ × ℤ) → Action (Ctx σ) Unit
    unfolding ◌>>=◌ on_server remove_message record' encode_email_id discard_name
    leave_mailbox email_id mailbox uid names locations =
        if contains names mailbox
        then pure tt
        else (modify (redirect_moved email_id (discard_name mailbox names) locations)
            >> on_server (remove_message uid))

    abbrev pub no_mailbox : MethodError
    no_mailbox =
        invalid_properties "a message must belong to one or more mailboxes" ("mailboxIds" ∷ [])

    -- The mailboxes' part of an update.
    abbrev pub move_to : String → String → ℤ → Option (List String) → Action (Ctx σ) Unit
    move_to email_id mailbox uid none = pure tt
    move_to email_id mailbox uid (some []) = raise (raised no_mailbox)
    move_to email_id mailbox uid (some (n ∷ names)) =
        for_each (copy_one uid) [] (req.enumerate_set (discard_name mailbox (n ∷ names)))
        >>= leave_mailbox email_id mailbox uid (n ∷ names)

    abbrev pub or_direct : EmailId → Option EmailId → EmailId
    or_direct direct none = direct
    or_direct direct (some location) = location

    -- Where the message of an id is, with the redirects followed; `none` is an id that is no
    -- Email's.
    abbrev pub located : String → Option EmailId → String → Option EmailId
    located email_id none resolved = none
    located email_id (some direct) resolved =
        if resolved == email_id
        then some direct
        else some (or_direct direct (decode_email_id req.lib str_of resolved))

    unfoldable pub locate : String → Ctx σ → Option EmailId
    unfolding decode_email_id
    locate email_id c =
        located email_id (decode_email_id req.lib str_of email_id) (resolve_id req c email_id)

    abbrev pub stale_id : MethodError
    stale_id = invalid_arguments "mailbox UIDVALIDITY changed; id is stale" []

    -- The mailbox is selected, and its UIDVALIDITY is the id's.
    abbrev pub check_fresh : ℤ → MailboxStatus → Action σ Unit
    check_fresh uidvalidity status =
        if status.uidvalidity == uidvalidity then pure tt else raise (raised stale_id)

    unfoldable pub open_mailbox : String → ℤ → Action σ Unit
    unfolding ◌>>=◌
    open_mailbox mailbox uidvalidity =
        messages.select_for_update mailbox >>= check_fresh uidvalidity

    unfoldable pub update_at : String → Fields → EmailId → Action (Ctx σ) Unit
    unfolding ◌>>=◌ on_server open_mailbox update_keywords target_names for_each copy_one
        leave_mailbox
    update_at email_id patch (mailbox, uidvalidity, uid) = do
      on_server (open_mailbox mailbox uidvalidity)
      on_server (update_keywords uid patch)
      names ← lift (target_names mailbox patch)
      move_to email_id mailbox uid names

    abbrev pub update_found : String → Fields → Option EmailId → Action (Ctx σ) Unit
    update_found email_id patch none = raise (raised (invalid_arguments "invalid id" []))
    update_found email_id patch (some location) = update_at email_id patch location

    -- `_apply_email_update`
    unfoldable pub apply_email_update : String → Fields → Action (Ctx σ) Unit
    unfolding locate update_at
    apply_email_update email_id patch c = update_found email_id patch (locate email_id c) c

    abbrev pub destroy_found : Option EmailId → Action σ Unit
    destroy_found none = raise (raised (invalid_arguments "invalid id" []))
    destroy_found (some (mailbox, uidvalidity, uid)) =
        open_mailbox mailbox uidvalidity >> remove_message uid

    -- `_destroy_one_email`
    unfoldable pub destroy_one_email : String → Action (Ctx σ) Unit
    unfolding ◌>>=◌ on_server locate open_mailbox remove_message
    destroy_one_email email_id c = on_server (destroy_found (locate email_id c)) c
