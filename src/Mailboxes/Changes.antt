-- ===== src/Mailboxes/Changes.antt =====
-- `Mailbox/changes`.
use jmap_bridge.Base.{String, ◌<>◌, Option, none, some, List, [], map, if◌then◌else◌}
use jmap_bridge.Base.Dict.{Dict}
use jmap_bridge.Base.Int.{ℤ}
use jmap_bridge.Base.Text.{is_empty}
use jmap_bridge.Errors.{
  Result, ok, err, raised, failed, invalid_arguments, cannot_calculate_changes,
}
use jmap_bridge.Effects.{Action, pure, lift, or_server_fail, ◌>>=◌, ◌>>◌}
use jmap_bridge.Encoding.{encode_mailbox_id}
use jmap_bridge.Snapshots.{Changes}
use jmap_bridge.Snapshots.Mail.{
  MailboxCursor, Diff, changes, rotated, key_error, diff_mailbox_state,
}
use jmap_bridge.State.{Decoded, decoded, invalid, encode_mail_state, decode_mail_state}
use jmap_bridge.Mailboxes.Sweeping.{cursors_from_statuses, cached_mail_sweep}
use jmap_bridge.Requests.{Request, Sweep, Ctx, on_server, require_account}

pub record ChangesArgs : Type 0 where
  pub account_id : Option String
  pub since_state : Option String

-- `hasMoreChanges` is always false.
pub record ChangesResponse : Type 0 where
  pub account_id : String
  pub old_state : String
  pub new_state : String
  pub created : List String
  pub updated : List String
  pub destroyed : List String

-- `if not since_state: raise InvalidArguments("sinceState is required")`
abbrev pub required : Option String → Result String
required none = err (raised (invalid_arguments "sinceState is required" []))
required (some s) =
    if is_empty s then err (raised (invalid_arguments "sinceState is required" [])) else ok s

module _ {σ : Type 0} (req : Request σ) where
  abbrev pub readable : Decoded (Dict String MailboxCursor) → Result (Dict String MailboxCursor)
  readable (decoded cursors) = ok cursors
  readable (invalid reason) = err (raised (cannot_calculate_changes (req.describe reason)))

  -- The text of the error of `diff_mailbox_state`.
  abbrev pub rotation_text : String → ℤ → ℤ → String
  rotation_text name old new =
      "mailbox "
      <> req.repr name
      <> " UIDVALIDITY rotated ("
      <> req.show old
      <> " -> "
      <> req.show new
      <> ")"

  abbrev pub diff_result : Diff → Result Changes
  diff_result (changes c) = ok c
  diff_result (rotated name old new) =
      err (raised (cannot_calculate_changes (rotation_text name old new)))
  diff_result (key_error name) = err (failed "KeyError")

  unfoldable pub checkout_and_sweep : Action (Ctx σ) Sweep
  unfolding ◌>>=◌ on_server cached_mail_sweep
  checkout_and_sweep = do on_server (req.imap.connect); cached_mail_sweep req

  unfoldable pub mailbox_changes : ChangesArgs → Action (Ctx σ) ChangesResponse
  unfolding ◌>>=◌ require_account or_server_fail checkout_and_sweep diff_mailbox_state
      encode_mail_state decode_mail_state cursors_from_statuses
  mailbox_changes args = do
    account_id ← require_account req args.account_id
    since_state ← lift (required args.since_state)
    old_cursors ← lift (readable (decode_mail_state req.lib since_state))
    (_, statuses) ← or_server_fail checkout_and_sweep
    diff ← lift (
        diff_result
          (diff_mailbox_state req.enumerate_set old_cursors (cursors_from_statuses statuses)))
    pure (record {
      account_id = account_id;
      old_state = since_state;
      new_state = encode_mail_state req.lib (cursors_from_statuses statuses);
      created = map (λ n. encode_mailbox_id req.lib n) diff.created;
      updated = map (λ n. encode_mailbox_id req.lib n) diff.updated;
      destroyed = map (λ n. encode_mailbox_id req.lib n) diff.destroyed;
    })
