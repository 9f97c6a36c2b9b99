-- ===== src/Emails/Changes.antt =====
-- types/email.py: `Email/changes`.
pub mod Arrived
mod Examples
use jmap_bridge.Base.{
  String, ◌<>◌, Bool, Option, none, some, List, [], ◌∷◌, ◌++◌, map, length, if◌then◌else◌, ◌==◌,
  contains, string_eq,
}
use jmap_bridge.Base.Dict
use jmap_bridge.Base.Dict.{Dict, keys}
use jmap_bridge.Base.Int.{ℤ, pos, ltb_ℤ, int_eq}
use jmap_bridge.Errors.{Result, ok, err, raised, cannot_calculate_changes}
use jmap_bridge.Effects.{Action, pure, lift, for_each, or_server_fail, ◌>>=◌, ◌>>◌}
use jmap_bridge.State.{encode_mail_state, decode_mail_state}
use jmap_bridge.Snapshots.Mail.{MailboxCursor, verify_no_missing_destroys}
use jmap_bridge.Mailboxes.Sweeping.{cursors_from_statuses}
use jmap_bridge.Mailboxes.Changes.{
  ChangesArgs, ChangesResponse, required, readable, checkout_and_sweep,
}
use jmap_bridge.Requests.{Request, Ctx, on_server, require_account}
use jmap_bridge.Emails.Ids.{encode_email_id}

-- client.py: what is asked of the selected mailbox. `search_from n` is the search
-- `["UID", f"{n}:*"]`, and `fetch_changed_since` gives the UIDs that it has data for.
pub record Arrivals (σ : Type 0) : Type 0 where
  pub search_from : ℤ → Action σ (List ℤ)
  pub fetch_changed_since : ℤ → Action σ (List ℤ)

-- The two lists that the loop fills.
pub record Reported : Type 0 where
  pub created : List String
  pub updated : List String

-- `[uid for uid in changed_data if uid not in new_uid_set]`
unfoldable pub without_uids : List ℤ → List ℤ → List ℤ
without_uids new_uids [] = []
without_uids new_uids (uid ∷ uids) =
    let rest = without_uids new_uids uids in if contains new_uids uid then rest else uid ∷ rest

module _ {σ : Type 0} (req : Request σ) where
  -- Every old mailbox is still there.
  unfoldable pub check_present : Dict String MailboxCursor → List String → Result (Unit {0})
  check_present new_cursors [] = ok tt
  check_present new_cursors (name ∷ names) =
      if Dict.has name new_cursors
      then check_present new_cursors names
      else err
          (raised (cannot_calculate_changes ("mailbox " <> req.repr name <> " no longer exists")))

  abbrev pub rotated_text : String → String
  rotated_text name = "mailbox " <> req.repr name <> " UIDVALIDITY rotated"

  -- The text of the error of `verify_no_missing_destroys`.
  abbrev pub missing_text : MailboxCursor → MailboxCursor → ℤ → String
  missing_text old new created_count =
      "message count doesn't reconcile as pure creates (old exists="
      <> req.show old.exists
      <> ", new exists="
      <> req.show new.exists
      <> ", created="
      <> req.show created_count
      <> ") - some messages were likely destroyed, which requires QRESYNC to identify individually"

  -- `verify_no_missing_destroys(old, new, created_count=…)`
  unfoldable pub verify : MailboxCursor → MailboxCursor → ℤ → Result (Unit {0})
  unfolding verify_no_missing_destroys
  verify old new created_count =
      if verify_no_missing_destroys old new created_count
      then ok tt
      else err (raised (cannot_calculate_changes (missing_text old new created_count)))

  module _ (arrivals : Arrivals σ) where
    abbrev pub new_uids_of : MailboxCursor → MailboxCursor → Action σ (List ℤ)
    new_uids_of old new =
        if ltb_ℤ old.uidnext new.uidnext then arrivals.search_from old.uidnext else pure []

    abbrev pub report : String → MailboxCursor → Reported → List ℤ → List ℤ → Reported
    report name new reported new_uids changed = record {
      created =
          reported.created
          ++ map (λ uid. encode_email_id req.lib name new.uidvalidity uid) new_uids;
      updated =
          reported.updated
          ++ map (λ uid. encode_email_id req.lib name new.uidvalidity uid)
              (without_uids new_uids changed);
    }

    -- The part of a round that asks the server.
    unfoldable pub ask_mailbox :
        String → MailboxCursor → MailboxCursor → Reported → Action σ Reported
    unfolding ◌>>=◌ verify without_uids encode_email_id
    ask_mailbox name old new reported = do
      req.imap.select name
      new_uids ← new_uids_of old new
      changed ← arrivals.fetch_changed_since old.highestmodseq
      lift (verify old new (pos (length new_uids)))
      pure (report name new reported new_uids changed)

    unfoldable pub compare_mailbox :
        String → MailboxCursor → MailboxCursor → Reported → Action σ Reported
    unfolding ask_mailbox
    compare_mailbox name old new reported =
        if old.uidvalidity == new.uidvalidity
        then (if old.highestmodseq == new.highestmodseq
            then pure reported
            else ask_mailbox name old new reported)
        else lift (err (raised (cannot_calculate_changes (rotated_text name))))

    -- One round of the loop over the new cursors.
    unfoldable pub changes_of_mailbox :
        Dict String MailboxCursor → Reported → String × MailboxCursor → Action σ Reported
    unfolding compare_mailbox
    changes_of_mailbox old_cursors reported (name, new) = elim (Dict.get name old_cursors) [
      | none ↦ pure reported
      | some old ↦ compare_mailbox name old new reported
    ]

    unfoldable pub collect :
        Dict String MailboxCursor → Dict String MailboxCursor → Action σ Reported
    unfolding ◌>>=◌ check_present for_each changes_of_mailbox
    collect old_cursors new_cursors = do
      lift (check_present new_cursors (keys old_cursors))
      for_each (changes_of_mailbox old_cursors) (record { created = []; updated = [] }) new_cursors

    unfoldable pub sweep_and_collect :
        Dict String MailboxCursor → Action (Ctx σ) (Reported × Dict String MailboxCursor)
    unfolding ◌>>=◌ checkout_and_sweep collect on_server cursors_from_statuses
    sweep_and_collect old_cursors = do
      (_, statuses) ← checkout_and_sweep req
      reported ← on_server (collect old_cursors (cursors_from_statuses statuses))
      pure (reported, cursors_from_statuses statuses)

    -- `destroyed` is always empty.
    unfoldable pub email_changes : ChangesArgs → Action (Ctx σ) ChangesResponse
    unfolding ◌>>=◌ require_account or_server_fail sweep_and_collect encode_mail_state
        decode_mail_state
    email_changes args = do
      account_id ← require_account req args.account_id
      since_state ← lift (required args.since_state)
      old_cursors ← lift (readable req (decode_mail_state req.lib since_state))
      (reported, new_cursors) ← or_server_fail (sweep_and_collect old_cursors)
      pure (record {
        account_id = account_id;
        old_state = since_state;
        new_state = encode_mail_state req.lib new_cursors;
        created = reported.created;
        updated = reported.updated;
        destroyed = [];
      })
