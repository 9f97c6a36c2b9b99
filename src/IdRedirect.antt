-- ===== src/IdRedirect.antt =====
-- id_redirect.py: the in-memory redirects from an id that a move or a rename has retired.
pub mod Resolve
pub mod Record
mod Examples
use jmap_bridge.Base.{
  ℕ, zero, suc, String, Bool, Option, none, some, List, [], ◌∷◌, ltb, length, if◌then◌else◌,
}
use jmap_bridge.Base.{◌==◌, contains, string_eq, pair_eq}
use jmap_bridge.Base.Dict
use jmap_bridge.Base.Dict.{Dict}

-- (domain, username)
abbrev pub AccountKey : Type 0
AccountKey = String × String

abbrev pub default_max_entries_per_account : ℕ
default_max_entries_per_account = 5000

pub record IdRedirectCache : Type 0 where
  pub max_entries : ℕ
  pub by_account : Dict AccountKey (Dict String String)

abbrev pub new_cache : ℕ → IdRedirectCache
new_cache max_entries = record { max_entries = max_entries; by_account = [] }

-- The table that `self._by_account` holds for an account; none is read as an empty one.
abbrev pub table_of : AccountKey → IdRedirectCache → Dict String String
table_of key c = elim (Dict.get key c.by_account) [ none ↦ [] | some t ↦ t ]

-- `while len(table) > max: table.pop(next(iter(table)))`: the first entry is the oldest.
unfoldable pub evict : ℕ → Dict String String → Dict String String
evict max_entries [] = []
evict max_entries (e ∷ table) =
    let rest = evict max_entries table in
    if ltb max_entries (length (e ∷ table)) then rest else e ∷ table

unfoldable pub put_redirect : ℕ → String → String → Dict String String → Dict String String
unfolding evict
put_redirect max_entries old_id new_id table =
    evict max_entries (Dict.put old_id new_id (Dict.pop old_id table))

-- Spelled with a prime: `record` is a keyword.
unfoldable pub record' : AccountKey → String → String → IdRedirectCache → IdRedirectCache
unfolding put_redirect
record' key old_id new_id c = if old_id == new_id then c else record c {
  by_account =
      Dict.put key (put_redirect c.max_entries old_id new_id (table_of key c)) c.by_account;
}

-- The loop of `resolve`. `none` means that the fuel ran out.
unfoldable pub follow : ℕ → Dict String String → List String → String → String → Option String
follow zero table seen requested_id current = none
follow (suc fuel) table seen requested_id current = elim (Dict.get current table) [
  | none ↦ some current
  | some next ↦
      if contains seen next
      then some requested_id
      else follow fuel table (next ∷ seen) requested_id next
]

abbrev pub or_id : Option String → String → String
or_id none id = id
or_id (some r) id = r

-- An empty table gives the id back in its first round, so that early return needs no case.
unfoldable pub resolve : AccountKey → String → IdRedirectCache → String
unfolding follow
resolve key requested_id c =
    let table = table_of key c in
    or_id (follow (suc (length table)) table (requested_id ∷ []) requested_id requested_id)
      requested_id
