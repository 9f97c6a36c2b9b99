-- ===== src/Pool.antt =====
-- pool.py: the IMAP connections that the pool keeps for one account between requests.
pub mod Steps
pub mod Matching
pub mod Claims
pub mod Counting
pub mod Isolation
mod Examples
use jmap_bridge.Base.{
  ℕ, ◌+◌, Bool, Option, none, some, List, [], ◌∷◌, ◌++◌, ltb, length, if◌then◌else◌,
}
use jmap_bridge.Base.{Eq, ◌==◌}
use jmap_bridge.Base.Int.{ℤ, pos, ◌+ℤ◌, ◌-ℤ◌, ltb_ℤ}

-- `_Entry`, over the type of connections and the type of password hashes.
pub record Entry (Conn Hash : Type 0) : Type 0 where
  pub connection : Conn
  pub password_hash : Hash
  pub last_used : ℕ

-- What the pool's dicts hold under one key; `none` where `_open_count` lacks it. No operation but
-- `stop`, and the sweep key by key, touches two keys.
pub record Account (Conn Hash : Type 0) : Type 0 where
  pub idle : List (Entry Conn Hash)
  pub open_count : Option ℤ

-- `_open_count.get(key, default)`
abbrev pub get_count : ℤ → Option ℤ → ℤ
get_count default none = default
get_count default (some n) = n

-- `self._open_count[key] = self._open_count.get(key, 1) - 1`
abbrev pub one_less : Option ℤ → Option ℤ
one_less open_count = some (get_count (pos 1) open_count -ℤ pos 1)

-- How one round of the loop in `_acquire` ends: an idle connection is handed out, a slot is claimed
-- for a new one, or the caller waits. `stale` are the entries to log out.
pub data Acquired (Conn Hash : Type 0) : Type 0 where
  reused : Conn → Acquired Conn Hash
  claimed : List (Entry Conn Hash) → Acquired Conn Hash
  waiting : List (Entry Conn Hash) → Acquired Conn Hash

module _ {Conn Hash : Type 0} where
  -- `stale.extend(entries)` and the new count, where there are entries.
  unfoldable pub evict_stale : Account Conn Hash → List (Entry Conn Hash) × Account Conn Hash
  evict_stale a = elim a.idle [
    | [] ↦ ([], a)
    | e ∷ es ↦ (
      e ∷ es,
      record a {
        idle = [];
        open_count = some (get_count (pos 0) a.open_count -ℤ pos (length (e ∷ es)));
      },
    )
  ]

  unfoldable pub claim :
      ℕ → List (Entry Conn Hash) × Account Conn Hash → Acquired Conn Hash × Account Conn Hash
  claim max_per_user (stale, a) =
      if ltb_ℤ (get_count (pos 0) a.open_count) (pos max_per_user)
      then (claimed stale, record a { open_count = some (get_count (pos 0) a.open_count +ℤ pos 1) })
      else (waiting stale, a)

  -- `self._idle.setdefault(key, []).append(_Entry(…))`, at the end of a checkout that succeeded.
  unfoldable pub release : Conn → Hash → ℕ → Account Conn Hash → Account Conn Hash
  release connection password_hash now a = record a {
    idle =
        a.idle
        ++ (record { connection = connection; password_hash = password_hash; last_used = now }
            ∷ []);
  }

  -- The end of a checkout whose body raised, and of a login that raised.
  unfoldable pub discard : Account Conn Hash → Account Conn Hash
  discard a = record a { open_count = one_less a.open_count }

  -- `now - entry.last_used > threshold`
  abbrev pub is_idle_too_long : ℕ → ℕ → Entry Conn Hash → Bool
  is_idle_too_long now threshold e = ltb (e.last_used + threshold) now

  -- The sweep's loop over one key's entries: what is kept, what is evicted, and the count.
  unfoldable pub sweep_entries :
      ℕ
      → ℕ
      → List (Entry Conn Hash)
      → Option ℤ
      → List (Entry Conn Hash) × List (Entry Conn Hash) × Option ℤ
  sweep_entries now threshold [] open_count = ([], [], open_count)
  sweep_entries now threshold (e ∷ es) open_count =
      let (keep, expired, n) =
        sweep_entries now threshold es
          (if is_idle_too_long now threshold e then one_less open_count else open_count) in
      if is_idle_too_long now threshold e then (keep, e ∷ expired, n) else (e ∷ keep, expired, n)

  unfoldable pub sweep_once : ℕ → ℕ → Account Conn Hash → Account Conn Hash
  unfolding sweep_entries
  sweep_once now threshold a =
      let (keep, expired, n) = sweep_entries now threshold a.idle a.open_count in
      record { idle = keep; open_count = n }

  -- `stop`: every idle connection is logged out, and the counts are cleared.
  abbrev pub stop : Account Conn Hash → Account Conn Hash
  stop a = record { idle = []; open_count = none }

  -- An entry that does not match stays in the list.
  abbrev put_back :
      Entry Conn Hash
      → Option (Conn × List (Entry Conn Hash))
      → Option (Conn × List (Entry Conn Hash))
  put_back entry none = none
  put_back entry (some (c, rest)) = some (c, entry ∷ rest)

module _ {Conn Hash : Type 0} ⦃e : Eq Hash⦄ where
  -- The first entry whose hash matches, popped.
  unfoldable pub find_match : Hash → List (Entry Conn Hash) → Option (Conn × List (Entry Conn Hash))
  find_match password_hash [] = none
  find_match password_hash (entry ∷ entries) =
      if entry.password_hash == password_hash
      then some (entry.connection, entries)
      else put_back entry (find_match password_hash entries)

  -- One round of the loop in `_acquire`, under the lock.
  unfoldable pub acquire : ℕ → Hash → Account Conn Hash → Acquired Conn Hash × Account Conn Hash
  unfolding find_match evict_stale claim
  acquire max_per_user password_hash a = elim (find_match password_hash a.idle) [
    | some (c, rest) ↦ (reused c, record a { idle = rest })
    | none ↦ claim max_per_user (evict_stale a)
  ]
