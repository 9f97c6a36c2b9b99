-- ===== src/Pool/Isolation.antt =====
-- Who may be handed a connection: only a caller who presents the hash it was logged in with.
use jmap_bridge.Base.{
  arith, ℕ, ◌≡◌, sym, Option, List, [], ◌∷◌, ◌++◌, All, All-append, Option-cases, Bool-cases, inl,
  inr,
}
use jmap_bridge.Base.{Eq}
use jmap_bridge.Pool.{
  Entry, Account, Acquired, reused, claimed, waiting, acquire, find_match, evict_stale, claim,
  release, discard, is_idle_too_long, sweep_entries, sweep_once, get_count, one_less,
}
use jmap_bridge.Base.Int.{pos, ltb_ℤ}
use jmap_bridge.Pool.Matching.{Popped, Pops, find_match-Pops}
use jmap_bridge.Pool.Steps.{
  System, start, Step, reuse, claim_slot, wait, log_in, fail_login, cancel_login, give_back,
  break_off, sweep, Reach, here, next,
}
use mathlib.Core.Path.{subst}

module _ {A : Type 0} (P : A → Type 0) where
  All-before : (xs ys : List A) → All P (xs ++ ys) → All P xs
  All-before [] ys p = tt
  All-before (x ∷ xs) ys (px, p) = (px, All-before xs ys p)

  All-after : (xs ys : List A) → All P (xs ++ ys) → All P ys
  All-after [] ys p = p
  All-after (x ∷ xs) ys (px, p) = All-after xs ys p

  All-remove : (xs ys : List A) (x : A) → All P (xs ++ (x ∷ ys)) → P x × All P (xs ++ ys)
  All-remove xs ys x p =
      let (px, rest) = All-after xs (x ∷ ys) p in
      (px, All-append P xs ys (All-before xs (x ∷ ys) p) rest)

module _ {Conn Hash : Type 0} ⦃e : Eq Hash⦄ (Authenticates : Conn → Hash → Type 0) where
  abbrev IsOwned : Entry Conn Hash → Type 0
  IsOwned x = Authenticates x.connection x.password_hash

  abbrev IsLentOwned : Conn × Hash → Type 0
  IsLentOwned p = Authenticates p.0 p.1

  -- What one round leaves: the idle entries stay owned, and a reused connection was made with the
  -- hash that is presented now.
  abbrev Hands : Hash → Acquired Conn Hash × Account Conn Hash → Type 0
  Hands h (reused c, a) = Authenticates c h × All IsOwned a.idle
  Hands h (claimed stale, a) = All IsOwned a.idle
  Hands h (waiting stale, a) = All IsOwned a.idle

  claim-Hands :
      (h : Hash) (max : ℕ) (p : List (Entry Conn Hash) × Account Conn Hash)
      → All IsOwned p.1.idle
      → Hands h (claim max p)
  unfolding claim
  claim-Hands h max (stale, a) v =
      elim (Bool-cases (ltb_ℤ (get_count (pos 0) a.open_count) (pos max))) [
        | inl b ↦ rw (claim, b) v
        | inr b ↦ rw (claim, b) v
      ]

  evict_stale-IsOwned :
      (a : Account Conn Hash) → All IsOwned a.idle → All IsOwned (evict_stale a).1.idle
  unfolding evict_stale
  evict_stale-IsOwned a v = ground arith

  Popped-IsOwned :
      (h : Hash) (es : List (Entry Conn Hash)) (c : Conn) (rest : List (Entry Conn Hash))
      → Popped h es c rest
      → All IsOwned es
      → Authenticates c h × All IsOwned rest
  Popped-IsOwned h es c rest p v =
      let (owned, others) =
        All-remove IsOwned p.before p.after p.entry (subst (All IsOwned) p.listed v) in
      (
        subst (λ x. Authenticates c x) p.matches
            (subst (λ x. Authenticates x p.entry.password_hash) p.handed owned),
        subst (All IsOwned) (sym p.left) others,
      )

  acquire-Hands :
      (max : ℕ) (h : Hash) (a : Account Conn Hash) → All IsOwned a.idle → Hands h (acquire max h a)
  unfolding acquire
  acquire-Hands max h a v = elim (Option-cases (find_match h a.idle)) [
    | inl n ↦ rw (n, acquire) (claim-Hands h max (evict_stale a) (evict_stale-IsOwned a v))
    | inr ((c, rest), p) ↦
        rw (p, acquire)
          (Popped-IsOwned h a.idle c rest (subst (Pops h a.idle) p (find_match-Pops h a.idle)) v)
  ]

  sweep_entries-IsOwned :
      (now threshold : ℕ) (es : List (Entry Conn Hash)) (o : Option _)
      → All IsOwned es
      → All IsOwned (sweep_entries now threshold es o).0
  unfolding sweep_entries
  sweep_entries-IsOwned now threshold [] o v = tt
  sweep_entries-IsOwned now threshold (x ∷ es) o (vx, v) =
      elim (Bool-cases (is_idle_too_long now threshold x)) [
        | inl b ↦ rw b (sweep_entries-IsOwned now threshold es (one_less o) v)
        | inr b ↦ rw b (vx, sweep_entries-IsOwned now threshold es o v)
      ]

  sweep_once-IsOwned :
      (now threshold : ℕ) (a : Account Conn Hash)
      → All IsOwned a.idle
      → All IsOwned (sweep_once now threshold a).idle
  unfolding sweep_once
  sweep_once-IsOwned now threshold a v = sweep_entries-IsOwned now threshold a.idle a.open_count v

  release-IsOwned :
      (c : Conn) (h : Hash) (now : ℕ) (a : Account Conn Hash)
      → Authenticates c h
      → All IsOwned a.idle
      → All IsOwned (release c h now a).idle
  unfolding release
  release-IsOwned c h now a p v = All-append IsOwned a.idle _ v (p, tt)

  discard-IsOwned : (a : Account Conn Hash) → All IsOwned a.idle → All IsOwned (discard a).idle
  unfolding discard
  discard-IsOwned a v = v

  pub record IsIsolated (s : System Conn Hash) : Type 0 where
    pub idle_owned : All IsOwned s.account.idle
    pub lent_owned : All IsLentOwned s.lent

  module _ (max : ℕ) where
    handed :
        (h : Hash) (s : System Conn Hash) (r : Acquired Conn Hash × Account Conn Hash)
        → acquire max h s.account ≡ r
        → IsIsolated s
        → Hands h r
    handed h s r p v = subst (Hands h) p (acquire-Hands max h s.account v.idle_owned)

    Step-IsIsolated :
        {s t : System Conn Hash} → Step Authenticates max s t → IsIsolated s → IsIsolated t
    Step-IsIsolated {s} {t} (reuse h c a p q) v =
        let (fits, owned) = handed h s (reused c, a) p v in
        rw q (record { idle_owned = owned; lent_owned = (fits, v.lent_owned) })
    Step-IsIsolated {s} {t} (claim_slot h stale a p q) v =
        rw q (record { idle_owned = handed h s (claimed stale, a) p v; lent_owned = v.lent_owned })
    Step-IsIsolated {s} {t} (wait h stale a p q) v =
        rw q (record { idle_owned = handed h s (waiting stale, a) p v; lent_owned = v.lent_owned })
    Step-IsIsolated {s} {t} (log_in l₁ l₂ h c p au q) v =
        rw q (record { idle_owned = v.idle_owned; lent_owned = (au, v.lent_owned) })
    Step-IsIsolated {s} {t} (fail_login l₁ l₂ h p q) v =
        rw q (record {
          idle_owned = discard-IsOwned s.account v.idle_owned;
          lent_owned = v.lent_owned;
        })
    Step-IsIsolated {s} {t} (cancel_login l₁ l₂ h p q) v =
        rw q (record { idle_owned = v.idle_owned; lent_owned = v.lent_owned })
    Step-IsIsolated {s} {t} (give_back l₁ l₂ c h now p q) v =
        let (owned, others) =
          All-remove IsLentOwned l₁ l₂ (c, h) (subst (All IsLentOwned) p v.lent_owned) in
        rw q (record {
          idle_owned = release-IsOwned c h now s.account owned v.idle_owned;
          lent_owned = others;
        })
    Step-IsIsolated {s} {t} (break_off l₁ l₂ c h p q) v =
        let (_, others) =
          All-remove IsLentOwned l₁ l₂ (c, h) (subst (All IsLentOwned) p v.lent_owned) in
        rw q (record { idle_owned = discard-IsOwned s.account v.idle_owned; lent_owned = others })
    Step-IsIsolated {s} {t} (sweep now threshold q) v = rw q (record {
      idle_owned = sweep_once-IsOwned now threshold s.account v.idle_owned;
      lent_owned = v.lent_owned;
    })

    -- Whatever the interleaving, every connection that is checked out or idle was logged in with
    -- a password whose hash is the one that was presented for it: a caller never gets a connection
    -- that another password opened.
    pub reachable-IsIsolated :
        {s : System Conn Hash} → Reach Authenticates max start s → IsIsolated s
    reachable-IsIsolated here = record { idle_owned = tt; lent_owned = tt }
    reachable-IsIsolated (next r st) = Step-IsIsolated st (reachable-IsIsolated r)
