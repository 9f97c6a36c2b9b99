-- ===== src/Pool/Counting.antt =====
-- The pool's count of open connections: what it counts, its bound, and what a cancelled login does.
use jmap_bridge.Base.{
  ℕ, suc, ◌+◌, ◌≤◌, ◌≡◌, refl, ap, ◌∙◌, List, [], ◌∷◌, ◌++◌, arith, length, length-append,
}
use jmap_bridge.Base.{Eq}
use jmap_bridge.Base.Int.{pos}
use jmap_bridge.Pool.{
  Account, get_count, Acquired, reused, claimed, waiting, evict_stale, claim, release, discard,
  find_match, acquire,
}
use mathlib.Core.Path.{subst}
use jmap_bridge.Pool.Steps.{
  System, start, Step, reuse, claim_slot, wait, log_in, fail_login, cancel_login, give_back,
  break_off, sweep, Reach, here, next,
}
use jmap_bridge.Pool.Claims.{
  one_less_count, length-remove, sweep_once-Counts, length-sweep_once, acquire-Claims, Counts,
  Claims,
}

eq_nil : {A : Type 0} (l : List A) → length l ≡ 0 → l ≡ []
eq_nil [] h = refl
eq_nil (x ∷ l) h = absurd (omega (arith, h))

-- The slots in use beside the idle entries: checkouts, logins under way, and cancelled logins.
abbrev pub in_use : {Conn Hash : Type 0} → System Conn Hash → ℕ
in_use s = length s.lent + length s.connecting + s.cancelled

pub record IsCounted {Conn Hash : Type 0} (max : ℕ) (s : System Conn Hash) : Type 0 where
  pub exact : get_count (pos 0) s.account.open_count ≡ pos (length s.account.idle + in_use s)
  pub within : in_use s + length s.account.idle ≤ max

module _ {Conn Hash : Type 0} ⦃e : Eq Hash⦄ (Authenticates : Conn → Hash → Type 0) (max : ℕ) where
  -- The invariant, from the number of slots in use.
  recount :
      (t : System Conn Hash) (k : ℕ)
      → Counts k t.account
      → k + length t.account.idle ≤ max
      → in_use t ≡ k
      → IsCounted max t
  recount t k count fits same = record {
    exact = count ∙ ap pos (omega arith);
    within = omega arith;
  }

  discard-Counts : (a : Account Conn Hash) (k : ℕ) → Counts (suc k) a → Counts k (discard a)
  unfolding discard
  discard-Counts a k count =
      one_less_count a.open_count (length a.idle + k) (count ∙ ap pos (omega arith))

  length-discard : (a : Account Conn Hash) → length (discard a).idle ≡ length a.idle
  unfolding discard
  length-discard a = refl

  release-Counts :
      (a : Account Conn Hash) (c : Conn) (h : Hash) (now k : ℕ)
      → Counts (suc k) a
      → Counts k (release c h now a) × (length (release c h now a).idle ≡ suc (length a.idle))
  unfolding release
  release-Counts a c h now k count =
      let longer =
        length-append a.idle (record { connection = c; password_hash = h; last_used = now } ∷ []) in
      (count ∙ ap pos (omega arith), omega arith)

  acquired :
      (h : Hash) (s : System Conn Hash) (r : Acquired Conn Hash × Account Conn Hash)
      → acquire max h s.account ≡ r
      → IsCounted max s
      → Claims max (in_use s) r
  acquired h s r p v =
      subst (Claims max (in_use s)) p (acquire-Claims max (in_use s) h s.account v.exact v.within)

  -- One slot less in use, and the account as `discard` leaves it.
  discarded :
      (s t : System Conn Hash)
      → t.account ≡ discard s.account
      → suc (in_use t) ≡ in_use s
      → IsCounted max s
      → IsCounted max t
  discarded s t p q v =
      let w = v.within in
      let same = length-discard s.account in
      recount t (in_use t)
        (rw p (discard-Counts s.account (in_use t) (v.exact ∙ ap pos (omega arith))))
        (rw p (omega arith)) refl

  Step-IsCounted :
      {s t : System Conn Hash} → Step Authenticates max s t → IsCounted max s → IsCounted max t
  Step-IsCounted {s} {t} (reuse h c a p q) v =
      let (count, fits) = acquired h s (reused c, a) p v in
      rw q (recount _ (suc (in_use s)) count fits (omega arith))
  Step-IsCounted {s} {t} (claim_slot h stale a p q) v =
      let (count, fits) = acquired h s (claimed stale, a) p v in
      rw q (recount _ (suc (in_use s)) count fits (omega arith))
  Step-IsCounted {s} {t} (wait h stale a p q) v =
      let (count, fits, _) = acquired h s (waiting stale, a) p v in
      rw q (recount _ (in_use s) count fits refl)
  Step-IsCounted {s} {t} (log_in l₁ l₂ h c p au q) v =
      let fewer = length-remove s.connecting l₁ l₂ h p in
      rw q (recount _ (in_use s) v.exact v.within (omega arith))
  Step-IsCounted {s} {t} (fail_login l₁ l₂ h p q) v =
      let fewer = length-remove s.connecting l₁ l₂ h p in rw q (discarded s _ refl (omega arith) v)
  Step-IsCounted {s} {t} (cancel_login l₁ l₂ h p q) v =
      let fewer = length-remove s.connecting l₁ l₂ h p in
      rw q (recount _ (in_use s) v.exact v.within (omega arith))
  Step-IsCounted {s} {t} (give_back l₁ l₂ c h now p q) v =
      let fewer = length-remove s.lent l₁ l₂ (c, h) p in
      let k : ℕ = length (l₁ ++ l₂) + length s.connecting + s.cancelled in
      let (count, longer) = release-Counts s.account c h now k (v.exact ∙ ap pos (omega arith)) in
      let w = v.within in rw q (recount _ k count (omega arith) refl)
  Step-IsCounted {s} {t} (break_off l₁ l₂ c h p q) v =
      let fewer = length-remove s.lent l₁ l₂ (c, h) p in rw q (discarded s _ refl (omega arith) v)
  Step-IsCounted {s} {t} (sweep now threshold q) v =
      let w = v.within in
      let fewer = length-sweep_once now threshold s.account in
      rw q (
        recount _ (in_use s) (sweep_once-Counts now threshold (in_use s) s.account v.exact)
          (omega arith) refl)

  Reach-IsCounted :
      {s t : System Conn Hash} → IsCounted max s → Reach Authenticates max s t → IsCounted max t
  Reach-IsCounted v here = v
  Reach-IsCounted v (next r st) = Step-IsCounted st (Reach-IsCounted v r)

  start-IsCounted : IsCounted max (start {Conn = Conn} {Hash = Hash})
  start-IsCounted = record { exact = refl; within = omega arith }

  -- Whatever the interleaving of checkouts, logins that succeed, fail or are cancelled, returns and
  -- sweeps, the count is exactly the idle entries, the checkouts, the logins under way and the
  -- logins that were ever cancelled, and these together never pass the cap.
  pub reachable-IsCounted :
      {s : System Conn Hash} → Reach Authenticates max start s → IsCounted max s
  reachable-IsCounted r = Reach-IsCounted start-IsCounted r

  acquire_full :
      (h : Hash) (a : Account Conn Hash)
      → a.idle ≡ []
      → get_count (pos 0) a.open_count ≡ pos max
      → acquire max h a ≡ (waiting [], a)
  unfolding acquire find_match evict_stale claim
  acquire_full h a idle count =
      rw (idle, acquire, find_match, evict_stale, idle, claim, count) (ground arith)

  -- A slot whose login was cancelled is never given back: once as many logins were cancelled as the
  -- cap allows connections, no connection is open, and every later round waits.
  pub cancelled_logins_exhaust :
      {s : System Conn Hash} (h : Hash)
      → Reach Authenticates max start s
      → s.cancelled ≡ max
      → (s.account.idle ≡ [])
        × (s.lent ≡ [])
        × (s.connecting ≡ [])
        × (acquire max h s.account ≡ (waiting [], s.account))
  cancelled_logins_exhaust {s} h r full =
      let v = reachable-IsCounted r in
      let w = v.within in
      let idle = eq_nil s.account.idle (omega arith) in
      let lent = eq_nil s.lent (omega arith) in
      let connecting = eq_nil s.connecting (omega arith) in
      (idle, lent, connecting, acquire_full h s.account idle (v.exact ∙ ap pos (omega arith)))
