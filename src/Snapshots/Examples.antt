-- ===== src/Snapshots/Examples.antt =====
-- Snapshots at concrete cursors.
use jmap_bridge.Base.{
  ℕ, String, ◌≡◌, refl, ◌↔◌, Bool, true, ltb, List, [], ◌∷◌, some, none, string_eq, option_eq,
  nat_eq,
}
use jmap_bridge.Base.Dict.{Dict, get, has}
use jmap_bridge.Base.Int.{pos, int_eq}
use jmap_bridge.Snapshots.{absent, present, shared}
use jmap_bridge.Snapshots.Mail.{
  MailboxCursor, changes, rotated, compare_cursors, diff_mailbox_state, verify_no_missing_destroys,
}
use jmap_bridge.Snapshots.WebDav.{CalendarCursor, AddressBookCursor, differing, diff_calendar_state}
use jmap_bridge.Snapshots.Reports.{Enumerates}
use jmap_bridge.Snapshots.Rotation.{IsRight, diff_mailbox_state-IsRight}
use jmap_bridge.Snapshots.Destroys.{NothingDestroyed, verify_no_missing_destroys-NothingDestroyed}

abbrev in_order : List String → List String
in_order names = names

in_order-Enumerates : Enumerates in_order
in_order-Enumerates names x = refl

abbrev cursor : ℕ → ℕ → ℕ → MailboxCursor
cursor uidvalidity highestmodseq exists = record {
  uidvalidity = pos uidvalidity;
  highestmodseq = pos highestmodseq;
  uidnext = pos 9;
  exists = pos exists;
}

abbrev then_mail : Dict String MailboxCursor
then_mail = ("INBOX", cursor 1 10 3) ∷ ("Sent", cursor 1 4 1) ∷ ("Old", cursor 1 2 0) ∷ []

abbrev now_mail : Dict String MailboxCursor
now_mail = ("INBOX", cursor 1 12 4) ∷ ("New", cursor 1 1 0) ∷ ("Sent", cursor 1 4 1) ∷ []

abbrev rotated_mail : Dict String MailboxCursor
rotated_mail = ("Sent", cursor 2 1 0) ∷ []

diff_runs :
    diff_mailbox_state in_order then_mail now_mail
    ≡ changes (record { created = "New" ∷ []; updated = "INBOX" ∷ []; destroyed = "Old" ∷ [] })
unfolding diff_mailbox_state absent present shared compare_cursors get has string_eq int_eq
diff_runs = refl

rotated_runs : diff_mailbox_state in_order then_mail rotated_mail ≡ rotated "Sent" (pos 1) (pos 2)
unfolding diff_mailbox_state absent present shared compare_cursors get has string_eq int_eq
rotated_runs = refl

abbrev calendars : Dict String CalendarCursor
calendars = ("/a", record { sync_token = some "1"; display_name = some "A" }) ∷ []

abbrev renamed : Dict String CalendarCursor
renamed = ("/a", record { sync_token = some "1"; display_name = some "B" }) ∷ []

abbrev books : Dict String AddressBookCursor
books = ("/b", record { sync_token = some "1"; display_name = none }) ∷ []

renamed_runs :
    diff_calendar_state in_order calendars renamed
    ≡ record { created = []; updated = "/a" ∷ []; destroyed = [] }
unfolding diff_calendar_state absent present shared differing get has string_eq option_eq
renamed_runs = refl

diff_mailbox_state-IsRight_example :
    IsRight then_mail now_mail (diff_mailbox_state in_order then_mail now_mail)
diff_mailbox_state-IsRight_example =
    diff_mailbox_state-IsRight in_order in_order-Enumerates then_mail now_mail

-- Of three messages one is destroyed, while two arrive.
abbrev survives : ℕ → Bool
survives uid = ltb uid 3

verify_no_missing_destroys-NothingDestroyed_example :
    (verify_no_missing_destroys (cursor 1 10 3) (cursor 1 12 4) (pos 2) ≡ true)
    ↔ NothingDestroyed survives (1 ∷ 2 ∷ 3 ∷ [])
verify_no_missing_destroys-NothingDestroyed_example =
    verify_no_missing_destroys-NothingDestroyed (cursor 1 10 3) (cursor 1 12 4) (1 ∷ 2 ∷ 3 ∷ [])
      (9 ∷ 10 ∷ []) survives refl refl
