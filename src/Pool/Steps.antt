-- ===== src/Pool/Steps.antt =====
-- One account's checkouts as they interleave: each step is what one task does under the lock.
use jmap_bridge.Base.{ℕ, suc, ◌≡◌, Option, List, [], ◌∷◌, ◌++◌}
use jmap_bridge.Base.{Eq}
use jmap_bridge.Pool.{Account, reused, claimed, waiting, acquire, release, discard, sweep_once}

-- The account's entries and the tasks: the connections that are checked out with the hash that was
-- presented for each, the hashes of the logins under way, and the logins that were cancelled.
pub record System (Conn Hash : Type 0) : Type 0 where
  pub account : Account Conn Hash
  pub lent : List (Conn × Hash)
  pub connecting : List Hash
  pub cancelled : ℕ

abbrev pub start : {Conn Hash : Type 0} → System Conn Hash
start = record {
  account = record { idle = []; open_count = Option.none };
  lent = [];
  connecting = [];
  cancelled = 0;
}

-- `Authenticates c h`: the login that made `c` presented a password with the hash `h`.
module _ {Conn Hash : Type 0} ⦃e : Eq Hash⦄ (Authenticates : Conn → Hash → Type 0)
    (max_per_user : ℕ) where
  pub data Step (s t : System Conn Hash) : Type 0 where
    -- `_acquire` hands out an idle connection
    reuse :
        (h : Hash) (c : Conn) (a : Account Conn Hash)
        → acquire max_per_user h s.account ≡ (reused c, a)
        → t ≡ record s { account = a; lent = (c, h) ∷ s.lent }
        → Step s t
    -- `_acquire` claims a slot, and leaves the lock to log in
    claim_slot :
        (h : Hash) (stale : List _) (a : Account Conn Hash)
        → acquire max_per_user h s.account ≡ (claimed stale, a)
        → t ≡ record s { account = a; connecting = h ∷ s.connecting }
        → Step s t
    -- `_acquire` finds no slot, and waits
    wait :
        (h : Hash) (stale : List _) (a : Account Conn Hash)
        → acquire max_per_user h s.account ≡ (waiting stale, a)
        → t ≡ record s { account = a }
        → Step s t
    -- the login succeeds
    log_in :
        (l₁ l₂ : List Hash) (h : Hash) (c : Conn)
        → s.connecting ≡ l₁ ++ (h ∷ l₂)
        → Authenticates c h
        → t ≡ record s { connecting = l₁ ++ l₂; lent = (c, h) ∷ s.lent }
        → Step s t
    -- the login raises an `Exception`, and the slot is given back
    fail_login :
        (l₁ l₂ : List Hash) (h : Hash)
        → s.connecting ≡ l₁ ++ (h ∷ l₂)
        → t ≡ record s { connecting = l₁ ++ l₂; account = discard s.account }
        → Step s t
    -- the task is cancelled during the login: `CancelledError` is no `Exception`, so nothing is run
    cancel_login :
        (l₁ l₂ : List Hash) (h : Hash)
        → s.connecting ≡ l₁ ++ (h ∷ l₂)
        → t ≡ record s { connecting = l₁ ++ l₂; cancelled = suc s.cancelled }
        → Step s t
    -- the body of a checkout ends, and its connection becomes idle
    give_back :
        (l₁ l₂ : List (Conn × Hash)) (c : Conn) (h : Hash) (now : ℕ)
        → s.lent ≡ l₁ ++ ((c, h) ∷ l₂)
        → t ≡ record s { lent = l₁ ++ l₂; account = release c h now s.account }
        → Step s t
    -- the body of a checkout raises, and its connection is closed
    break_off :
        (l₁ l₂ : List (Conn × Hash)) (c : Conn) (h : Hash)
        → s.lent ≡ l₁ ++ ((c, h) ∷ l₂)
        → t ≡ record s { lent = l₁ ++ l₂; account = discard s.account }
        → Step s t
    sweep :
        (now threshold : ℕ)
        → t ≡ record s { account = sweep_once now threshold s.account }
        → Step s t

  pub data Reach (s : System Conn Hash) : System Conn Hash → Type 0 where
    here : Reach s s
    next : {t u : System Conn Hash} → Reach s t → Step t u → Reach s u
