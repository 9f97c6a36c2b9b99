-- ===== src/Push/Ended.antt =====
-- push.py: a watcher whose task an exception has ended, while streams open and close.
use jmap_bridge.Base.{
  String, ℕ, ◌≡◌, refl, ap, ◌∙◌, Bool, true, false, ◌||◌, List, [], ◌∷◌, if◌then◌else◌, contains,
  nat_eq, inl, inr, Bool-cases,
}
use jmap_bridge.Errors.{err, failed}
use jmap_bridge.Requests.{Request}
use jmap_bridge.Effects.{◌>>=◌}
use jmap_bridge.Mailboxes.Sweeping.{list_selectable_mailboxes}
use jmap_bridge.Push.{
  read_cursors, Task, no_task, running, ended, Watcher, started, subscribe, discard_subscriber,
  task_left, is_none_left, unsubscribe, round,
}
use jmap_bridge.Push.Members.{not_empty}

-- A stream opens or closes, with its queue.
pub data Event : Type 0 where
  stream_opens : ℕ → Event
  stream_closes : ℕ → Event

abbrev pub happen : Event → Watcher → Watcher
happen (stream_opens queue) w = subscribe queue w
happen (stream_closes queue) w = (unsubscribe queue w).0

unfoldable pub play : List Event → Watcher → Watcher
unfolding subscribe unsubscribe
play [] w = w
play (e ∷ events) w = play events (happen e w)

-- After one of the events, no stream is open.
unfoldable pub is_vacated : List Event → Watcher → Bool
unfolding subscribe unsubscribe
is_vacated [] w = false
is_vacated (e ∷ events) w =
    let rest = is_vacated events (happen e w) in is_none_left (happen e w).subscribers || rest

-- The task of a watcher that no exception has ended.
abbrev pub task_for : List ℕ → Task
task_for subscribers = if is_none_left subscribers then no_task else running

subscribe-occupied : (q : ℕ) (w : Watcher) → is_none_left (subscribe q w).subscribers ≡ false
unfolding subscribe
subscribe-occupied q w = elim (Bool-cases (contains w.subscribers q)) [
  | inl e ↦ rw e (not_empty q w.subscribers e)
  | inr e ↦ rw e refl
]

started-task_for : (subscribers : List ℕ) → started (task_for subscribers) ≡ running
started-task_for [] = refl
started-task_for (q ∷ qs) = refl

task_left-eq :
    (rest : List ℕ) (t : Task) → task_left rest t ≡ (if is_none_left rest then no_task else t)
task_left-eq [] t = refl
task_left-eq (q ∷ qs) t = refl

task_left-task_for :
    (queue : ℕ) (subscribers : List ℕ)
    → task_left (discard_subscriber queue subscribers) (task_for subscribers)
      ≡ task_for (discard_subscriber queue subscribers)
unfolding discard_subscriber
task_left-task_for queue [] = refl
task_left-task_for queue (q ∷ qs) = task_left-eq (discard_subscriber queue (q ∷ qs)) running

happen-task_for :
    (e : Event) (w : Watcher)
    → w.task ≡ task_for w.subscribers
    → (happen e w).task ≡ task_for (happen e w).subscribers
unfolding subscribe unsubscribe
happen-task_for (stream_opens q) w h =
    let occupied = subscribe-occupied q w in rw (h, occupied) (started-task_for w.subscribers)
happen-task_for (stream_closes q) w h = rw h (task_left-task_for q w.subscribers)

play-task_for :
    (events : List Event) (w : Watcher)
    → w.task ≡ task_for w.subscribers
    → (play events w).task ≡ task_for (play events w).subscribers
unfolding play
play-task_for [] w h = h
play-task_for (e ∷ events) w h = play-task_for events (happen e w) (happen-task_for e w h)

-- Where no stream is open there is no task, and otherwise the ended one.
abbrev EndsAs : List Event → Watcher → Bool → Type 0
EndsAs events w vacated =
    (play events w).task ≡ (if vacated then task_for (play events w).subscribers else ended)

after_event-EndsAs :
    (events : List Event) (w : Watcher)
    → w.task ≡ (if is_none_left w.subscribers then no_task else ended)
    → (w.task ≡ ended → EndsAs events w (is_vacated events w))
    → EndsAs events w (is_none_left w.subscribers || is_vacated events w)
after_event-EndsAs events w h occupied = elim (Bool-cases (is_none_left w.subscribers)) [
  | inl e ↦ rw e (play-task_for events w (h ∙ rw e refl))
  | inr e ↦ rw e (occupied (h ∙ rw e refl))
]

play-ended :
    (events : List Event) (w : Watcher) → w.task ≡ ended → EndsAs events w (is_vacated events w)
unfolding play is_vacated subscribe unsubscribe
play-ended [] w h = h
play-ended (stream_opens q ∷ events) w h =
    let occupied = subscribe-occupied q w in
    rw occupied (play-ended events (subscribe q w) (ap started h))
play-ended (stream_closes q ∷ events) w h =
    after_event-EndsAs events (unsubscribe q w).0
      (task_left-eq (discard_subscriber q w.subscribers) w.task ∙ rw h refl)
      (play-ended events (unsubscribe q w).0)

module _ {σ : Type 0} (req : Request σ) where
  -- A LIST that fails with another exception than an `ImapError` ends the task of a watcher
  -- that is connected. In whatever order streams open and close after that, before the next
  -- poll, the ended task stays and no other one is started, unless at some point no stream is
  -- open; from such a point on there is a running task where a stream is open, and none where
  -- none is.
  pub round-ended :
      (server after : σ) (w : Watcher) (message : String) (events : List Event)
      → w.is_connected ≡ true
      → req.imap.list_mailboxes server ≡ (err (failed message), after)
      → (play events (round req server w)).task ≡ (
          if is_vacated events (round req server w)
          then task_for (play events (round req server w)).subscribers
          else ended)
  unfolding round read_cursors list_selectable_mailboxes ◌>>=◌
  round-ended server after w message events on down =
      play-ended events (round req server w) (rw (round, on, down) refl)
