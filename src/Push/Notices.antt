-- ===== src/Push/Notices.antt =====
-- A change between two polls reaches every open stream, even if polls in between fail.
use jmap_bridge.Base.{
  ℕ, ◌≡◌, refl, ap, ◌∙◌, ◌≤◌, Bool, true, false, Option, some, String, List, [], ◌∷◌, ◌++◌,
  contains, nat_eq, arith,
}
use jmap_bridge.Base.Dict
use jmap_bridge.Base.Dict.{Dict}
use jmap_bridge.Base.Int.{ℤ}
use jmap_bridge.Errors.{Result, ok, err, imap_error}
use jmap_bridge.Effects.{◌>>=◌}
use jmap_bridge.Encoding.{Libraries}
use jmap_bridge.Requests.{Request}
use jmap_bridge.Push.{
  Cursors, StateChange, Watcher, same_cursors, contents, put_all, state_change_of, notify, observe,
  read_cursors, connect_if, round, parse_ping_seconds, ping_within, requested_seconds,
  max_ping_seconds,
}

abbrev pub Distinct : List ℕ → Type 0
Distinct [] = Unit
Distinct (q ∷ qs) = (contains qs q ≡ false) × Distinct qs

get-put_all_ne :
    (q : ℕ) (payload : StateChange) (qs : List ℕ) (queues : Dict ℕ (List StateChange))
    → contains qs q ≡ false
    → Dict.get q (put_all payload qs queues) ≡ Dict.get q queues
unfolding put_all
get-put_all_ne q payload [] queues h = refl
get-put_all_ne q payload (p ∷ qs) queues h =
    get-put_all_ne q payload qs _ (ground arith)
    ∙ ground (arith, Dict.get-put q p (contents (Dict.get p queues) ++ (payload ∷ [])) queues)

get-put_all :
    (q : ℕ) (payload : StateChange) (qs : List ℕ) (queues : Dict ℕ (List StateChange))
    → Distinct qs
    → contains qs q ≡ true
    → Dict.get q (put_all payload qs queues) ≡ some (contents (Dict.get q queues) ++ (payload ∷ []))
unfolding put_all
get-put_all q payload [] queues d h = absurd (ground arith)
get-put_all q payload (p ∷ qs) queues (fresh, d) h = elim (nat_eq.dec q p) [
  | yes e ↦ rw e (
      get-put_all_ne p payload qs _ fresh
      ∙ Dict.get-put_self p (contents (Dict.get p queues) ++ (payload ∷ [])) queues)
  | no ne ↦
      get-put_all q payload qs _ d (ground arith)
      ∙ ap (λ o. some (contents o ++ (payload ∷ [])))
          (Dict.get-put_ne q p (contents (Dict.get p queues) ++ (payload ∷ [])) queues ne)
]

module _ {σ : Type 0} (req : Request σ) where
  -- What a round reads of a server, with a connection or with one that it opens first.
  abbrev pub reading : Bool → σ → Result Cursors
  reading connected server = ((connect_if req connected >>= λ _. read_cursors req) server).0

  abbrev pub IsDown : σ → Type 0
  IsDown server = (c : Bool) → (message : String) × (reading c server ≡ err (imap_error message))

  abbrev pub IsUp : σ → Cursors → Type 0
  IsUp server cursors = (c : Bool) → reading c server ≡ ok cursors

  -- The rounds on the server as it is at each of them.
  abbrev pub rounds : List σ → Watcher → Watcher
  rounds [] w = w
  rounds (s ∷ ss) w = rounds ss (round req s w)

  abbrev pub AllDown : List σ → Type 0
  AllDown [] = Unit
  AllDown (s ∷ ss) = IsDown s × AllDown ss

  round_down : (s : σ) (w : Watcher) → IsDown s → round req s w ≡ record w { is_connected = false }
  unfolding round
  round_down s w down = let (message, e) = down w.is_connected in rw e refl

  round_up :
      (s : σ) (w : Watcher) (cursors : Cursors)
      → IsUp s cursors
      → round req s w ≡ observe req cursors (record w { is_connected = true })
  unfolding round
  round_up s w cursors up = rw (up w.is_connected) refl

  observe_change :
      (w : Watcher) (old new : Cursors) (q : ℕ)
      → w.last_cursors ≡ some old
      → same_cursors new old ≡ false
      → Distinct w.subscribers
      → contains w.subscribers q ≡ true
      → Dict.get q (observe req new w).queues
        ≡ some (contents (Dict.get q w.queues) ++ (state_change_of req new ∷ []))
  unfolding observe notify
  observe_change w old new q last change distinct member =
      rw (observe, last, change)
        (get-put_all q (state_change_of req new) w.subscribers w.queues distinct member)

  -- Once a watcher has read the cursors of its account, then, whatever number of polls fail after
  -- that with an `ImapError`, the first poll that reads other cursors puts one state change with
  -- them, behind what is there, into the queue of each subscriber.
  pub rounds-notify :
      (ss : List σ) (s : σ) (w : Watcher) (old new : Cursors) (q : ℕ)
      → AllDown ss
      → IsUp s new
      → w.last_cursors ≡ some old
      → same_cursors new old ≡ false
      → Distinct w.subscribers
      → contains w.subscribers q ≡ true
      → Dict.get q (round req s (rounds ss w)).queues
        ≡ some (contents (Dict.get q w.queues) ++ (state_change_of req new ∷ []))
  rounds-notify [] s w old new q down up last change distinct member =
      rw (round_up s w new up)
        (observe_change (record w { is_connected = true }) old new q last change distinct member)
  rounds-notify (t ∷ ss) s w old new q (d, down) up last change distinct member =
      rw (round_down t w d) (
        rounds-notify ss s (record w { is_connected = false }) old new q down up last change
          distinct member)

within_bounds : (n : ℤ) → (1 ≤ ping_within n) × (ping_within n ≤ max_ping_seconds)
within_bounds (ℤ.negsuc n) = (omega arith, omega arith)
within_bounds (ℤ.pos ℕ.zero) = (omega arith, omega arith)
within_bounds (ℤ.pos (ℕ.suc n)) = (omega arith, omega arith)

-- Whatever is asked for, a ping is sent every 1 to 3600 seconds.
pub parse_ping_seconds_bounds :
    (lib : Libraries) (raw : Option String)
    → (1 ≤ parse_ping_seconds lib raw) × (parse_ping_seconds lib raw ≤ max_ping_seconds)
unfolding parse_ping_seconds
parse_ping_seconds_bounds lib raw = within_bounds (requested_seconds lib raw)
