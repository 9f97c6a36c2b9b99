-- ===== src/Snapshots/Mail.antt =====
-- backends/imap/modseq_state.py: the cursors of the mailboxes, and the test that nothing was
-- destroyed.
use jmap_bridge.Base.{String, Bool, Option, none, some, List, [], ◌∷◌, ◌++◌, if◌then◌else◌}
use jmap_bridge.Base.{◌==◌, string_eq}
use jmap_bridge.Base.Dict
use jmap_bridge.Base.Dict.{Dict, keys}
use jmap_bridge.Base.Int.{ℤ, ◌+ℤ◌, int_eq}
use jmap_bridge.Snapshots.{Changes, absent, shared}

pub record MailboxCursor : Type 0 where
  pub uidvalidity : ℤ
  pub highestmodseq : ℤ
  pub uidnext : ℤ
  pub exists : ℤ

-- What `diff_mailbox_state` returns or raises: `rotated` is its `CannotCalculateChanges`, and
-- `key_error` the `KeyError` of `new[name]` and `old[name]`.
pub data Diff : Type 0 where
  changes : Changes → Diff
  rotated : String → ℤ → ℤ → Diff
  key_error : String → Diff

-- Two lookups that both succeed.
abbrev pub both {ℓ} : {A : Type ℓ} → Option A → Option A → Option (A × A)
both (some a) (some b) = some (a, b)
both _ _ = none

-- The loop over the mailboxes that are in both: `updated`, or the exception that ends it.
unfoldable pub compare_cursors :
    Dict String MailboxCursor
    → Dict String MailboxCursor
    → List String
    → List String
    → List String
    → List String
    → Diff
compare_cursors old new created destroyed updated [] =
    changes (record { created = created; updated = updated; destroyed = destroyed })
compare_cursors old new created destroyed updated (name ∷ names) =
    elim (both (Dict.get name new) (Dict.get name old)) [
      | none ↦ key_error name
      | some (n, o) ↦
          if n.uidvalidity == o.uidvalidity
          then compare_cursors old new created destroyed
              (if n.highestmodseq == o.highestmodseq then updated else updated ++ (name ∷ [])) names
          else rotated name o.uidvalidity n.uidvalidity
    ]

unfoldable pub diff_mailbox_state :
    (List String → List String) → Dict String MailboxCursor → Dict String MailboxCursor → Diff
unfolding absent shared compare_cursors
diff_mailbox_state enumerate_set old new =
    compare_cursors old new (absent old (keys new)) (absent new (keys old)) []
      (shared enumerate_set old new)

-- `true` where it returns, `false` where it raises `CannotCalculateChanges`.
unfoldable pub verify_no_missing_destroys : MailboxCursor → MailboxCursor → ℤ → Bool
verify_no_missing_destroys old new created_count = new.exists == old.exists +ℤ created_count
