-- ===== src/Pool/Claims.antt =====
-- What an account's count stands for, and how one round of acquiring keeps it.
use jmap_bridge.Base.{
  ℕ, suc, ◌+◌, ◌≤◌, ◌≡◌, ap, ◌∙◌, Option, none, some, List, [], ◌∷◌, ◌++◌, arith, length,
  length-append, Option-cases, Bool-cases, inl, inr,
}
use jmap_bridge.Base.{Eq}
use jmap_bridge.Base.Int.{ℤ, pos, pos_part, ◌+ℤ◌, ◌-ℤ◌, ltb_ℤ}
use jmap_bridge.Pool.{
  Entry, Account, get_count, one_less, Acquired, reused, claimed, waiting, evict_stale, claim,
  is_idle_too_long, sweep_entries, sweep_once, find_match, acquire,
}
use jmap_bridge.Pool.Matching.{Popped, Pops, find_match-Pops}
use mathlib.Core.Path.{subst}

pub one_less_count :
    (o : Option ℤ) (k : ℕ)
    → get_count (pos 0) o ≡ pos (suc k)
    → get_count (pos 0) (one_less o) ≡ pos k
unfolding ◌-ℤ◌
one_less_count none k h = absurd (omega (arith, ap pos_part h))
one_less_count (some n) k h = rw h (ground arith)

pub length-remove :
    {A : Type 0} (l l₁ l₂ : List A) (x : A)
    → l ≡ l₁ ++ (x ∷ l₂)
    → length l ≡ suc (length (l₁ ++ l₂))
length-remove l l₁ l₂ x e = rw e (omega (arith, length-append l₁ (x ∷ l₂), length-append l₁ l₂))

module _ {Conn Hash : Type 0} where
  sweep_entries_count :
      (now threshold : ℕ) (es : List (Entry Conn Hash)) (o : Option ℤ) (m : ℕ)
      → get_count (pos 0) o ≡ pos (length es + m)
      → get_count (pos 0) (sweep_entries now threshold es o).2
        ≡ pos (length (sweep_entries now threshold es o).0 + m)
  unfolding sweep_entries
  sweep_entries_count now threshold [] o m h = h
  sweep_entries_count now threshold (x ∷ es) o m h =
      elim (Bool-cases (is_idle_too_long now threshold x)) [
        | inl b ↦ rw b (
            sweep_entries_count now threshold es (one_less o) m
              (one_less_count o (length es + m) (h ∙ ap pos (omega arith))))
        | inr b ↦ rw b (
            sweep_entries_count now threshold es o (suc m) (h ∙ ap pos (omega arith))
            ∙ ap pos (omega arith))
      ]

  length-sweep_entries :
      (now threshold : ℕ) (es : List (Entry Conn Hash)) (o : Option ℤ)
      → length (sweep_entries now threshold es o).0 ≤ length es
  unfolding sweep_entries
  length-sweep_entries now threshold [] o = omega arith
  length-sweep_entries now threshold (x ∷ es) o =
      elim (Bool-cases (is_idle_too_long now threshold x)) [
        | inl b ↦ rw b (omega (arith, length-sweep_entries now threshold es (one_less o)))
        | inr b ↦ rw b (omega (arith, length-sweep_entries now threshold es o))
      ]

  -- The count stands for the idle entries and `m` others.
  abbrev pub Counts : ℕ → Account Conn Hash → Type 0
  Counts m a = get_count (pos 0) a.open_count ≡ pos (length a.idle + m)

  pub evict_stale-Counts :
      (m : ℕ) (a : Account Conn Hash)
      → Counts m a
      → ((evict_stale a).1.idle ≡ []) × (get_count (pos 0) (evict_stale a).1.open_count ≡ pos m)
  unfolding evict_stale ◌-ℤ◌
  evict_stale-Counts m a h = ground arith

  pub sweep_once-Counts :
      (now threshold m : ℕ) (a : Account Conn Hash)
      → Counts m a
      → Counts m (sweep_once now threshold a)
  unfolding sweep_once
  sweep_once-Counts now threshold m a h = sweep_entries_count now threshold a.idle a.open_count m h

  -- What one round leaves: `m` is the number of slots beside the idle entries.
  abbrev pub Claims : ℕ → ℕ → Acquired Conn Hash × Account Conn Hash → Type 0
  Claims max m (reused c, a) = Counts (suc m) a × (suc m + length a.idle ≤ max)
  Claims max m (claimed stale, a) = Counts (suc m) a × (suc m + length a.idle ≤ max)
  Claims max m (waiting stale, a) = Counts m a × (m + length a.idle ≤ max) × (max ≤ m)

  claim-Claims :
      (max m : ℕ) (p : List (Entry Conn Hash) × Account Conn Hash)
      → p.1.idle ≡ []
      → get_count (pos 0) p.1.open_count ≡ pos m
      → m ≤ max
      → Claims max m (claim max p)
  unfolding claim ◌+ℤ◌
  claim-Claims max m (stale, a) none_idle counted within =
      elim (Bool-cases (ltb_ℤ (pos m) (pos max))) [
        | inl b ↦ rw (counted, claim) (rw b (ground arith))
        | inr b ↦ rw (counted, claim) (rw b (ground arith))
      ]

  pub length-sweep_once :
      (now threshold : ℕ) (a : Account Conn Hash)
      → length (sweep_once now threshold a).idle ≤ length a.idle
  unfolding sweep_once
  length-sweep_once now threshold a = length-sweep_entries now threshold a.idle a.open_count

module _ {Conn Hash : Type 0} ⦃e : Eq Hash⦄ where
  length-find_match :
      (h : Hash) (es : List (Entry Conn Hash)) (c : Conn) (rest : List (Entry Conn Hash))
      → find_match h es ≡ some (c, rest)
      → length es ≡ suc (length rest)
  length-find_match h es c rest p =
      let popped : Popped h es c rest = subst (Pops h es) p (find_match-Pops h es) in
      rw popped.left (length-remove es popped.before popped.after popped.entry popped.listed)

  pub acquire-Claims :
      (max m : ℕ) (h : Hash) (a : Account Conn Hash)
      → Counts m a
      → m + length a.idle ≤ max
      → Claims max m (acquire max h a)
  unfolding acquire
  acquire-Claims max m h a counted within = elim (Option-cases (find_match h a.idle)) [
    | inl n ↦
        let (idle, count) = evict_stale-Counts m a counted in
        rw (n, acquire) (claim-Claims max m (evict_stale a) idle count (omega arith))
    | inr ((c, rest), p) ↦
        let shorter = length-find_match h a.idle c rest p in
        rw (p, acquire) (counted ∙ ap pos (omega arith), omega arith)
  ]
