-- ===== src/Push/Examples.antt =====
-- A watcher with one stream, on a server whose mailbox changes.
use jmap_bridge.Base.{
  ℕ, ◌≡◌, refl, true, false, none, some, [], ◌∷◌, nat_eq, string_eq, pair_eq, if◌then◌else◌, ◌==◌,
}
use jmap_bridge.Base.Dict
use jmap_bridge.Base.Dict.{Dict}
use jmap_bridge.Base.Int.{pos, int_eq}
use jmap_bridge.Base.Text.{join}
use jmap_bridge.Errors.{ok, err, imap_error, failed}
use jmap_bridge.Effects.{pure}
use jmap_bridge.Encoding.{Libraries}
use jmap_bridge.Imap.{ImapServer, MailboxStatus}
use jmap_bridge.Requests.{Request}
use jmap_bridge.Mailboxes.Mapping.{is_no_select}
use jmap_bridge.Push.{
  Cursors, Watcher, new_watcher, running, ended, subscribe, unsubscribe, round, state_change_of,
  same_cursors, read_cursors,
}
use jmap_bridge.Push.Notices.{IsDown, IsUp, rounds, rounds-notify}
use jmap_bridge.Push.Registry.{subscribe_account, unsubscribe_account, new_registry}
use jmap_bridge.Push.Registry.Sessions.{idle, opens, closes, Implements}
use jmap_bridge.Push.Registry.Refines.{Sessions-Implements}
use jmap_bridge.Push.Members.{begins, subscribes, polls, IsServed, Run-IsServed}
use jmap_bridge.Push.Ended.{stream_opens, stream_closes, play, is_vacated, round-ended}

abbrev libraries : Libraries
libraries = record {
  b64encode = λ raw. "";
  b64decode = λ text. none;
  utf8 = λ text. [];
  utf8_decode = λ raw. none;
  dumps = λ v. [];
  loads = λ raw. none;
  int_of_text = λ s. some (pos 9999);
}

-- The server's state is the number of messages in its one mailbox; at 0 it is down.
abbrev status_at : ℕ → MailboxStatus
status_at n = record {
  uidvalidity = pos 1;
  uidnext = pos 9;
  highestmodseq = some (pos n);
  exists = pos n;
  unseen = pos 0;
}

abbrev imap : ImapServer ℕ
imap = record {
  connect = pure tt;
  list_mailboxes = λ n.
      if n == 0
      then (err (imap_error "down"), n)
      else (ok (record { flags = []; delimiter = "/"; name = "INBOX" } ∷ []), n);
  select = λ name n. (ok (status_at n), n);
  search_unseen = pure [];
  create_folder = λ name. pure tt;
  rename_folder = λ old new. pure tt;
  delete_folder = λ name. pure tt;
}

abbrev request : Request ℕ
request = record {
  imap = imap;
  lib = libraries;
  account_id = "Aalice";
  redirect_key = ("example.com", "alice");
  pool_max = 4;
  upper = λ s. s;
  repr = λ s. s;
  repr_list = join ", ";
  show = λ n. "";
  describe = λ r. "";
  enumerate_set = λ names. names;
}

abbrev cursors : ℕ → Cursors
cursors n =
    (
      "INBOX",
      record { uidvalidity = pos 1; highestmodseq = pos n; uidnext = pos 9; exists = pos n },
    )
    ∷ []

abbrev watching : Watcher
watching = record {
  subscribers = 7 ∷ [];
  task = running;
  is_connected = true;
  last_cursors = some (cursors 3);
  queues = (7, []) ∷ [];
}

is_down : IsDown request 0
unfolding read_cursors nat_eq
is_down true = ("down", refl)
is_down false = ("down", refl)

is_up : IsUp request 4 (cursors 4)
unfolding read_cursors is_no_select nat_eq string_eq Dict.put
is_up true = refl
is_up false = refl

rounds-notify_example :
    Dict.get 7 (round request 4 (rounds request (0 ∷ 0 ∷ []) watching)).queues
    ≡ some (state_change_of request (cursors 4) ∷ [])
unfolding Dict.get nat_eq same_cursors int_eq string_eq
rounds-notify_example =
    rounds-notify request (0 ∷ 0 ∷ []) 4 watching (cursors 3) (cursors 4) 7 (is_down, (is_down, tt))
      is_up refl refl (refl, tt) refl

Run-IsServed_example : IsServed (round request 3 (subscribe 7 new_watcher))
unfolding subscribe Dict.get
Run-IsServed_example = Run-IsServed request (polls (subscribes begins 7 refl) 3 refl)

-- A server whose LIST fails with an error of the library.
abbrev broken : Request ℕ
broken = record request { imap = record imap { list_mailboxes = λ n. (err (failed "gone"), n) } }

round-ended_example :
    (play (stream_opens 8 ∷ stream_closes 7 ∷ []) (round broken 3 watching)).task ≡ ended
unfolding play is_vacated subscribe unsubscribe round read_cursors nat_eq
round-ended_example =
    round-ended broken 3 3 watching "gone" (stream_opens 8 ∷ stream_closes 7 ∷ []) refl refl

-- The second stream closes too, and a third one opens.
reopened_runs :
    (play
      (stream_opens 8 ∷ stream_closes 7 ∷ stream_closes 8 ∷ stream_opens 9 ∷ [])
      (round broken 3 watching)).task
    ≡ running
unfolding play subscribe unsubscribe round read_cursors nat_eq
reopened_runs = refl

-- Two streams of one account, the first of which ends.
Sessions-Implements_example :
    Implements
      (unsubscribe_account
        ("x", "a")
        0
        0
        (subscribe_account ("x", "a") (subscribe_account ("x", "a") new_registry).1).1)
      ((("x", "a"), (0, 1)) ∷ [])
unfolding subscribe_account unsubscribe_account subscribe Dict.get Dict.put string_eq pair_eq nat_eq
Sessions-Implements_example =
    Sessions-Implements (closes ("x", "a") 0 0 (opens ("x", "a") (opens ("x", "a") idle)) refl)
