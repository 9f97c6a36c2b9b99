-- ===== src/Push.antt =====
-- push.py: the watchers that tell the open /events streams of an account's changes.
pub mod Notices
pub mod Members
pub mod Ended
pub mod Registry
mod Examples
use jmap_bridge.Base.{
  ℕ, zero, suc, min, String, Bool, true, false, ◌&&◌, not, Option, none, some, List, [], ◌∷◌, ◌++◌,
  length, if◌then◌else◌, ◌==◌, contains, nat_eq, string_eq, pair_eq,
}
use jmap_bridge.Base.Dict
use jmap_bridge.Base.Dict.{Dict}
use jmap_bridge.Base.Int.{ℤ, pos, negsuc, int_eq}
use jmap_bridge.Base.Text.{is_empty}
use jmap_bridge.Errors.{Result, ok, err, raised, imap_error, dav_error, failed}
use jmap_bridge.Effects.{Action, pure, traverse, ◌>>=◌, ◌>>◌}
use jmap_bridge.Encoding.{Libraries}
use jmap_bridge.IdRedirect.{AccountKey}
use jmap_bridge.Imap.{ImapServer, ImapMailboxEntry, MailboxStatus}
use jmap_bridge.Requests.{Request}
use jmap_bridge.Snapshots.Mail.{MailboxCursor}
use jmap_bridge.State.{encode_mail_state}
use jmap_bridge.Mailboxes.Sweeping.{
  dict_of, select_one, list_selectable_mailboxes, cursors_from_statuses,
}

abbrev pub default_ping_seconds : ℕ
default_ping_seconds = 30

abbrev pub max_ping_seconds : ℕ
max_ping_seconds = 3600

-- `int(raw or "0")`, 0 where it is refused.
abbrev pub requested_of : Option ℤ → ℤ
requested_of none = pos 0
requested_of (some n) = n

abbrev pub requested_seconds : Libraries → Option String → ℤ
requested_seconds lib none = pos 0
requested_seconds lib (some raw) =
    if is_empty raw then pos 0 else requested_of (lib.int_of_text raw)

-- `max(0, min(requested, MAX_PING_SECONDS)) or DEFAULT_PING_SECONDS`
abbrev pub ping_within : ℤ → ℕ
ping_within (negsuc n) = default_ping_seconds
ping_within (pos zero) = default_ping_seconds
ping_within (pos (suc n)) = min (suc n) max_ping_seconds

unfoldable pub parse_ping_seconds : Libraries → Option String → ℕ
parse_ping_seconds lib raw = ping_within (requested_seconds lib raw)

abbrev pub Cursors : Type 0
Cursors = Dict String MailboxCursor

abbrev pub same_cursor : MailboxCursor → Option MailboxCursor → Bool
same_cursor a none = false
same_cursor a (some b) =
    a.uidvalidity == b.uidvalidity
    && (a.highestmodseq == b.highestmodseq && (a.uidnext == b.uidnext && a.exists == b.exists))

unfoldable pub all_in : Cursors → Cursors → Bool
all_in [] d = true
all_in ((name, c) ∷ cursors) d = same_cursor c (Dict.get name d) && all_in cursors d

-- `cursors == others`, for dicts.
unfoldable pub same_cursors : Cursors → Cursors → Bool
unfolding all_in
same_cursors cursors others = length cursors == length others && all_in cursors others

-- The payload: `state` is the state of Mailbox, Email and Thread.
pub record StateChange : Type 0 where
  pub account_id : String
  pub state : String

-- `_task`: none, a running one, or one that an exception ended.
pub data Task : Type 0 where
  no_task : Task
  running : Task
  ended : Task

-- An AccountWatcher, with what is in the queues that it has made. A queue is named by a number.
pub record Watcher : Type 0 where
  pub subscribers : List ℕ
  pub task : Task
  pub is_connected : Bool
  pub last_cursors : Option Cursors
  pub queues : Dict ℕ (List StateChange)

abbrev pub new_watcher : Watcher
new_watcher = record {
  subscribers = [];
  task = no_task;
  is_connected = false;
  last_cursors = none;
  queues = [];
}

abbrev pub started : Task → Task
started no_task = running
started t = t

-- `subscribe`, with the new queue.
unfoldable pub subscribe : ℕ → Watcher → Watcher
subscribe queue w = record w {
  subscribers = if contains w.subscribers queue then w.subscribers else queue ∷ w.subscribers;
  task = started w.task;
  queues = Dict.put queue [] w.queues;
}

-- `self._subscribers.discard_subscriber(queue)`
unfoldable pub discard_subscriber : ℕ → List ℕ → List ℕ
discard_subscriber queue [] = []
discard_subscriber queue (q ∷ qs) =
    let rest = discard_subscriber queue qs in if q == queue then rest else q ∷ rest

abbrev pub task_left : List ℕ → Task → Task
task_left [] t = no_task
task_left (q ∷ qs) t = t

abbrev pub is_none_left : List ℕ → Bool
is_none_left [] = true
is_none_left (q ∷ qs) = false

-- A task that is cancelled logs out: the connection is gone.
unfoldable pub unsubscribe : ℕ → Watcher → Watcher × Bool
unfolding discard_subscriber
unsubscribe queue w =
    let rest = discard_subscriber queue w.subscribers in
    (
      record w {
        subscribers = rest;
        task = task_left rest w.task;
        is_connected = if is_none_left rest then false else w.is_connected;
      },
      is_none_left rest,
    )

abbrev pub contents : Option (List StateChange) → List StateChange
contents none = []
contents (some payloads) = payloads

-- `queue.put_nowait(payload)` for each subscriber.
unfoldable pub put_all :
    StateChange → List ℕ → Dict ℕ (List StateChange) → Dict ℕ (List StateChange)
put_all payload [] queues = queues
put_all payload (q ∷ qs) queues =
    put_all payload qs (Dict.put q (contents (Dict.get q queues) ++ (payload ∷ [])) queues)

module _ {σ : Type 0} (req : Request σ) where
  abbrev pub state_change_of : Cursors → StateChange
  state_change_of cursors = record {
    account_id = req.account_id;
    state = encode_mail_state req.lib cursors;
  }

  unfoldable pub notify : Cursors → Watcher → Watcher
  unfolding put_all encode_mail_state
  notify cursors w = record w { queues = put_all (state_change_of cursors) w.subscribers w.queues }

  abbrev pub notify_if_changed : Option Cursors → Cursors → Watcher → Watcher
  notify_if_changed none cursors w = w
  notify_if_changed (some last) cursors w =
      if same_cursors cursors last then w else notify cursors w

  -- What a round does with the cursors that it has read.
  unfoldable pub observe : Cursors → Watcher → Watcher
  unfolding notify same_cursors
  observe cursors w = record (notify_if_changed w.last_cursors cursors w) {
    last_cursors = some cursors;
  }

  unfoldable pub sequential_status_map :
      List ImapMailboxEntry → Action σ (Dict String MailboxStatus)
  unfolding ◌>>=◌ traverse select_one dict_of
  sequential_status_map entries = do
    statuses ← traverse (select_one req) entries
    pure (dict_of statuses [])

  unfoldable pub read_cursors : Action σ Cursors
  unfolding ◌>>=◌ list_selectable_mailboxes sequential_status_map cursors_from_statuses
  read_cursors = do
    entries ← list_selectable_mailboxes req
    statuses ← sequential_status_map entries
    pure (cursors_from_statuses statuses)

  -- An `ImapError` drops the connection; another exception ends the task.
  abbrev pub after_reading : Result Cursors → Watcher → Watcher
  after_reading (ok cursors) w = observe cursors (record w { is_connected = true })
  after_reading (err (imap_error message)) w = record w { is_connected = false }
  after_reading (err (raised e)) w = record w { task = ended; is_connected = false }
  after_reading (err (dav_error message)) w = record w { task = ended; is_connected = false }
  after_reading (err (failed message)) w = record w { task = ended; is_connected = false }

  abbrev pub connect_if : Bool → Action σ Unit
  connect_if true = pure tt
  connect_if false = req.imap.connect

  -- One round of `_run`, on the server as it is then; `_try_connect` gives up on an `ImapError`.
  unfoldable pub round : σ → Watcher → Watcher
  unfolding ◌>>=◌ read_cursors observe
  round server w = after_reading ((connect_if w.is_connected >>= λ _. read_cursors) server).0 w
