-- ===== src/Pool/Examples.antt =====
-- The pool at concrete accounts.
use jmap_bridge.Base.{ℕ, ◌≡◌, refl, List, [], ◌∷◌, some}
use jmap_bridge.Base.{nat_eq}
use jmap_bridge.Base.Int.{pos, ◌+ℤ◌, ◌-ℤ◌}
use jmap_bridge.Pool.{
  Entry, Account, waiting, claimed, reused, acquire, find_match, evict_stale, claim, release,
}
use jmap_bridge.Pool.Steps.{
  System, start, reuse, claim_slot, log_in, cancel_login, give_back, Reach, here, next,
}
use jmap_bridge.Pool.Counting.{IsCounted, reachable-IsCounted, cancelled_logins_exhaust}
use jmap_bridge.Pool.Isolation.{IsIsolated, reachable-IsIsolated}

-- A connection is the number of the password it was opened with.
abbrev OpenedWith : ℕ → ℕ → Type 0
OpenedWith c h = c ≡ h

abbrev account_with : List (Entry ℕ ℕ) → ℕ → Account ℕ ℕ
account_with entries n = record { idle = entries; open_count = some (pos n) }

abbrev idle_seven : Entry ℕ ℕ
idle_seven = record { connection = 7; password_hash = 7; last_used = 100 }

abbrev claiming : System ℕ ℕ
claiming = record { account = account_with [] 1; lent = []; connecting = 7 ∷ []; cancelled = 0 }

abbrev logged_in : System ℕ ℕ
logged_in = record {
  account = account_with [] 1;
  lent = (7, 7) ∷ [];
  connecting = [];
  cancelled = 0;
}

abbrev given_back : System ℕ ℕ
given_back = record {
  account = account_with (idle_seven ∷ []) 1;
  lent = [];
  connecting = [];
  cancelled = 0;
}

abbrev lost : System ℕ ℕ
lost = record { account = account_with [] 1; lent = []; connecting = []; cancelled = 1 }

claim_runs : acquire 1 7 start.account ≡ (claimed [], account_with [] 1)
unfolding acquire find_match evict_stale claim ◌+ℤ◌
claim_runs = refl

release_runs : release 7 7 100 (account_with [] 1) ≡ account_with (idle_seven ∷ []) 1
unfolding release
release_runs = refl

reuse_runs : acquire 1 7 (account_with (idle_seven ∷ []) 1) ≡ (reused 7, account_with [] 1)
unfolding acquire find_match nat_eq
reuse_runs = refl

-- Another password: the idle connection is logged out, and a slot is claimed.
evict_runs :
    acquire 1 8 (account_with (idle_seven ∷ []) 1) ≡ (claimed (idle_seven ∷ []), account_with [] 1)
unfolding acquire find_match evict_stale claim nat_eq ◌-ℤ◌ ◌+ℤ◌
evict_runs = refl

Reach-claiming : Reach OpenedWith 1 start claiming
Reach-claiming = next here (claim_slot 7 [] (account_with [] 1) claim_runs refl)

Reach-given_back : Reach OpenedWith 1 start given_back
unfolding release
Reach-given_back =
    next (next Reach-claiming (log_in [] [] 7 7 refl refl refl)) (give_back [] [] 7 7 100 refl refl)

Reach-reused : Reach OpenedWith 1 start logged_in
Reach-reused = next Reach-given_back (reuse 7 7 (account_with [] 1) reuse_runs refl)

Reach-lost : Reach OpenedWith 1 start lost
Reach-lost = next Reach-claiming (cancel_login [] [] 7 refl refl)

reachable-IsCounted_example : IsCounted 1 logged_in
reachable-IsCounted_example = reachable-IsCounted OpenedWith 1 Reach-reused

reachable-IsIsolated_example : IsIsolated OpenedWith logged_in
reachable-IsIsolated_example = reachable-IsIsolated OpenedWith 1 Reach-reused

cancelled_logins_exhaust_example :
    (lost.account.idle ≡ [])
    × (lost.lent ≡ [])
    × (lost.connecting ≡ [])
    × (acquire 1 7 lost.account ≡ (waiting [], lost.account))
cancelled_logins_exhaust_example = cancelled_logins_exhaust OpenedWith 1 7 Reach-lost refl
