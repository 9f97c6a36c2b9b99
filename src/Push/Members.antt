-- ===== src/Push/Members.antt =====
-- Who is subscribed to a watcher, through any run of it.
use jmap_bridge.Base.{
  ℕ, ◌≡◌, refl, sym, ap, ◌∙◌, Bool, true, false, Option, none, some, List, [], ◌∷◌, ◌++◌,
  if◌then◌else◌, ◌==◌, contains, nat_eq, arith, inl, inr, Bool-cases,
}
use jmap_bridge.Base.Dict
use jmap_bridge.Base.Dict.{Dict}
use jmap_bridge.Errors.{Result, ok, err, raised, imap_error, dav_error, failed}
use jmap_bridge.Requests.{Request}
use jmap_bridge.Push.{
  Cursors, StateChange, Task, no_task, running, ended, Watcher, new_watcher, started, subscribe,
  discard_subscriber, task_left, is_none_left, unsubscribe, same_cursors, contents, put_all,
  state_change_of, notify, notify_if_changed, observe, after_reading, round,
}
use jmap_bridge.Push.Notices.{Distinct, reading}

-- What a run of a watcher is: streams open and close, and a running task polls.
pub data Run {σ : Type 0} (req : Request σ) : Watcher → Type 0 where
  begins : Run req new_watcher
  subscribes :
      {w : Watcher} → Run req w → (q : ℕ) → Dict.get q w.queues ≡ none → Run req (subscribe q w)
  unsubscribes : {w : Watcher} → Run req w → (q : ℕ) → Run req (unsubscribe q w).0
  polls : {w : Watcher} → Run req w → (server : σ) → w.task ≡ running → Run req (round req server w)

abbrev pub is_idle : Task → Bool
is_idle no_task = true
is_idle running = false
is_idle ended = false

-- A subscriber is listed once and has its queue, and there is a task exactly while there are
-- subscribers.
pub record IsServed (w : Watcher) : Type 0 where
  pub distinct : Distinct w.subscribers
  pub has_queue : (q : ℕ) → contains w.subscribers q ≡ true → Dict.has q w.queues ≡ true
  pub watched : is_idle w.task ≡ is_none_left w.subscribers

pub contains-discard :
    (queue x : ℕ) (qs : List ℕ)
    → contains (discard_subscriber queue qs) x ≡ (if x == queue then false else contains qs x)
unfolding discard_subscriber
contains-discard queue x [] = ground arith
contains-discard queue x (q ∷ qs) = ground (arith, contains-discard queue x qs)

discard_subscriber-Distinct :
    (queue : ℕ) (qs : List ℕ) → Distinct qs → Distinct (discard_subscriber queue qs)
unfolding discard_subscriber
discard_subscriber-Distinct queue [] d = tt
discard_subscriber-Distinct queue (q ∷ qs) (fresh, d) =
    ground (arith, contains-discard queue q qs, discard_subscriber-Distinct queue qs d)

has-put_all :
    (q : ℕ) (payload : StateChange) (qs : List ℕ) (queues : Dict ℕ (List StateChange))
    → Dict.has q queues ≡ true
    → Dict.has q (put_all payload qs queues) ≡ true
unfolding put_all Dict.has
has-put_all q payload [] queues h = h
has-put_all q payload (p ∷ qs) queues h =
    has-put_all q payload qs (Dict.put p (contents (Dict.get p queues) ++ (payload ∷ [])) queues)
      (ground (arith, Dict.get-put q p (contents (Dict.get p queues) ++ (payload ∷ [])) queues))

subscribe-IsServed :
    (q : ℕ) (w : Watcher) → Dict.get q w.queues ≡ none → IsServed w → IsServed (subscribe q w)
unfolding subscribe Dict.has
subscribe-IsServed q w new s =
    let absent : contains w.subscribers q ≡ false = ground (arith, s.has_queue q) in
    record {
      distinct = rw absent (absent, s.distinct);
      has_queue = λ x h. ground (arith, Dict.get-put x q [] w.queues, s.has_queue x);
      watched = rw absent (is_idle-started w.task);
    }
  where
    is_idle-started : (t : Task) → is_idle (started t) ≡ false
    is_idle-started no_task = refl
    is_idle-started running = refl
    is_idle-started ended = refl

pub not_empty : (q : ℕ) (qs : List ℕ) → contains qs q ≡ true → is_none_left qs ≡ false
not_empty q [] h = absurd (ground arith)
not_empty q (p ∷ qs) h = refl

is_idle-task_left :
    (rest : List ℕ) (t : Task)
    → ((q : ℕ) → contains rest q ≡ true → is_idle t ≡ false)
    → is_idle (task_left rest t) ≡ is_none_left rest
is_idle-task_left [] t h = refl
is_idle-task_left (q ∷ qs) t h = h q (ground arith)

unsubscribe-IsServed : (q : ℕ) (w : Watcher) → IsServed w → IsServed (unsubscribe q w).0
unfolding unsubscribe
unsubscribe-IsServed q w s = record {
  distinct = discard_subscriber-Distinct q w.subscribers s.distinct;
  has_queue = λ x h. s.has_queue x (ground (arith, contains-discard q x w.subscribers));
  watched = is_idle-task_left (discard_subscriber q w.subscribers) w.task λ x h.
      s.watched ∙ not_empty x w.subscribers (ground (arith, contains-discard q x w.subscribers));
}

module _ {σ : Type 0} (req : Request σ) where
  notify_if_changed-IsServed :
      (last : Option Cursors) (cursors : Cursors) (w : Watcher)
      → IsServed w
      → IsServed (notify_if_changed req last cursors w)
  unfolding notify
  notify_if_changed-IsServed none cursors w s = s
  notify_if_changed-IsServed (some old) cursors w s = elim (Bool-cases (same_cursors cursors old)) [
    | inl e ↦ rw e s
    | inr e ↦ rw e (record {
      distinct = s.distinct;
      has_queue = λ q h.
          has-put_all q (state_change_of req cursors) w.subscribers w.queues (s.has_queue q h);
      watched = s.watched;
    })
  ]

  observe-IsServed :
      (cursors : Cursors) (w : Watcher) → IsServed w → IsServed (observe req cursors w)
  unfolding observe
  observe-IsServed cursors w s =
      let t = notify_if_changed-IsServed w.last_cursors cursors w s in
      record { distinct = t.distinct; has_queue = t.has_queue; watched = t.watched }

  -- A poll that ends the task is one of a running task.
  ended-IsServed :
      (w : Watcher)
      → w.task ≡ running
      → IsServed w
      → IsServed (record w { task = ended; is_connected = false })
  ended-IsServed w run s = record {
    distinct = s.distinct;
    has_queue = s.has_queue;
    watched = ap is_idle (sym run) ∙ s.watched;
  }

  after_reading-IsServed :
      (r : Result Cursors) (w : Watcher)
      → w.task ≡ running
      → IsServed w
      → IsServed (after_reading req r w)
  after_reading-IsServed (ok cursors) w run s =
      observe-IsServed cursors (record w { is_connected = true })
        (record { distinct = s.distinct; has_queue = s.has_queue; watched = s.watched })
  after_reading-IsServed (err (imap_error m)) w run s = record {
    distinct = s.distinct;
    has_queue = s.has_queue;
    watched = s.watched;
  }
  after_reading-IsServed (err (raised e)) w run s = ended-IsServed w run s
  after_reading-IsServed (err (dav_error m)) w run s = ended-IsServed w run s
  after_reading-IsServed (err (failed m)) w run s = ended-IsServed w run s

  -- In any run of a watcher, each subscriber is listed once and has its queue, and the watcher has a
  -- task if and only if it has a subscriber.
  pub Run-IsServed : {w : Watcher} → Run req w → IsServed w
  unfolding round
  Run-IsServed begins = record {
    distinct = tt;
    has_queue = λ q h. absurd (ground arith);
    watched = refl;
  }
  Run-IsServed (subscribes run q new) = subscribe-IsServed q _ new (Run-IsServed run)
  Run-IsServed (unsubscribes run q) = unsubscribe-IsServed q _ (Run-IsServed run)
  Run-IsServed (polls {w} run server on) =
      after_reading-IsServed (reading req w.is_connected server) w on (Run-IsServed run)
