-- ===== src/IdRedirect/Record.antt =====
-- `IdRedirectCache.record`: its bound, what it leaves alone, and what an id resolves to after it.
use jmap_bridge.Base.{
  ℕ, ◌≤◌, ◌<◌, String, ◌≡◌, refl, ◌≢◌, sym, none, some, [], ◌∷◌, ◌++◌, arith, length,
}
use jmap_bridge.Base.{string_eq, pair_eq}
use jmap_bridge.Base.Dict
use jmap_bridge.Base.Dict.{
  Dict, NodupKeys, get-pop, get-put, get-put_self, put-NodupKeys, pop-NodupKeys, put_absent,
}
use jmap_bridge.IdRedirect.{
  AccountKey, IdRedirectCache, table_of, evict, put_redirect, record', resolve,
}
use jmap_bridge.IdRedirect.Resolve.{resolve-end}

-- Each table holds a key once, and no more entries than the bound.
pub record IsValid (c : IdRedirectCache) : Type 0 where
  pub nodup : (key : AccountKey) → NodupKeys (table_of key c)
  pub bounded : (key : AccountKey) → length (table_of key c) ≤ c.max_entries

length-evict : (max : ℕ) (t : Dict String String) → length (evict max t) ≤ max
unfolding evict
length-evict max [] = omega arith
length-evict max (e ∷ t) = ground (arith, length-evict max t)

get-evict-none :
    (x : String) (max : ℕ) (t : Dict String String)
    → Dict.get x t ≡ none
    → Dict.get x (evict max t) ≡ none
unfolding evict Dict.get
get-evict-none x max [] h = refl
get-evict-none x max ((k, v) ∷ t) h = ground (arith, get-evict-none x max t)

evict-NodupKeys : (max : ℕ) (t : Dict String String) → NodupKeys t → NodupKeys (evict max t)
unfolding evict
evict-NodupKeys max [] u = tt
evict-NodupKeys max (e ∷ t) (fresh, u) = ground (arith, evict-NodupKeys max t u)

-- The entry at the end is the last to be evicted.
get-evict_last :
    (x y : String) (max : ℕ) (t : Dict String String)
    → 0 < max
    → Dict.get x t ≡ none
    → Dict.get x (evict max (t ++ ((x, y) ∷ []))) ≡ some y
unfolding evict Dict.get
get-evict_last x y max [] room h = ground arith
get-evict_last x y max ((k, v) ∷ t) room h =
    ground (arith, get-evict_last x y max t room, Dict.get-append_none x t ((x, y) ∷ []))

module _ (max : ℕ) (x y : String) (t : Dict String String) (u : NodupKeys t) where
  put_redirect-NodupKeys : NodupKeys (put_redirect max x y t)
  unfolding put_redirect
  put_redirect-NodupKeys = evict-NodupKeys max _ (put-NodupKeys x y _ (pop-NodupKeys x t u))

  length-put_redirect : length (put_redirect max x y t) ≤ max
  unfolding put_redirect
  length-put_redirect = length-evict max (Dict.put x y (Dict.pop x t))

  get-put_redirect_self : 0 < max → Dict.get x (put_redirect max x y t) ≡ some y
  unfolding put_redirect
  get-put_redirect_self room =
      let gone : Dict.get x (Dict.pop x t) ≡ none = ground (arith, get-pop x x t u) in
      rw (put_absent x y (Dict.pop x t) gone) (get-evict_last x y max (Dict.pop x t) room gone)

  get-put_redirect-none :
      (z : String) → z ≢ x → Dict.get z t ≡ none → Dict.get z (put_redirect max x y t) ≡ none
  unfolding put_redirect
  get-put_redirect-none z ne h =
      get-evict-none z max _ (ground (arith, get-put z x y (Dict.pop x t), get-pop z x t u))

module _ (key : AccountKey) (old_id new_id : String) (c : IdRedirectCache) where
  table_of-record' :
      old_id ≢ new_id
      → table_of key (record' key old_id new_id c)
        ≡ put_redirect c.max_entries old_id new_id (table_of key c)
  unfolding record'
  table_of-record' ne = ground (
    arith,
    get-put_self key (put_redirect c.max_entries old_id new_id (table_of key c)) c.by_account,
  )

  table_of-record'_ne :
      (other : AccountKey)
      → other ≢ key
      → table_of other (record' key old_id new_id c) ≡ table_of other c
  unfolding record'
  table_of-record'_ne other ne = ground (
    arith,
    get-put other key (put_redirect c.max_entries old_id new_id (table_of key c)) c.by_account,
  )

  -- Redirects of one account never change what another account's ids resolve to.
  pub resolve-record'_ne :
      (other : AccountKey) (id : String)
      → other ≢ key
      → resolve other id (record' key old_id new_id c) ≡ resolve other id c
  unfolding resolve
  resolve-record'_ne other id ne = rw (table_of-record'_ne other ne)

  unmoved : old_id ≡ new_id → record' key old_id new_id c ≡ c
  unfolding record'
  unmoved p = ground arith

  max_entries-record' : (record' key old_id new_id c).max_entries ≡ c.max_entries
  unfolding record'
  max_entries-record' = ground arith

  -- After a move from one id to another that has no redirect, the old id resolves to the new one.
  pub resolve-record' :
      IsValid c
      → 0 < c.max_entries
      → old_id ≢ new_id
      → Dict.get new_id (table_of key c) ≡ none
      → resolve key old_id (record' key old_id new_id c) ≡ new_id
  resolve-record' v room ne last =
      resolve-end key (record' key old_id new_id c) 1 old_id new_id
        (
          new_id,
          rw (table_of-record' ne) (
              get-put_redirect_self c.max_entries old_id new_id (table_of key c) (v.nodup key)
                room),
          refl,
        )
        (rw (table_of-record' ne) (
          get-put_redirect-none c.max_entries old_id new_id (table_of key c) (v.nodup key) new_id
            (λ p. ne (sym p)) last))

  -- The bound on an account's table, and each key once, are kept by every `record`.
  pub record'-IsValid : IsValid c → IsValid (record' key old_id new_id c)
  record'-IsValid v = record {
    nodup = λ k. elim (string_eq.dec old_id new_id) [
      | yes p ↦ rw (unmoved p) (v.nodup k)
      | no ne ↦ elim (pair_eq.dec k key) [
        | yes p ↦ rw p (
            rw (table_of-record' ne)
              (put_redirect-NodupKeys c.max_entries old_id new_id (table_of key c) (v.nodup key)))
        | no other ↦ rw (table_of-record'_ne k other) (v.nodup k)
      ]
    ];
    bounded = λ k. elim (string_eq.dec old_id new_id) [
      | yes p ↦ rw (unmoved p) (v.bounded k)
      | no ne ↦ elim (pair_eq.dec k key) [
        | yes p ↦
            rw (p, max_entries-record')
              (rw (table_of-record' ne)
                (length-put_redirect c.max_entries old_id new_id (table_of key c) (v.nodup key)))
        | no other ↦ rw (table_of-record'_ne k other, max_entries-record') (v.bounded k)
      ]
    ];
  }

-- A move there and back under the id that the client knows leaves the first redirect in place:
-- the second call returns early, and the id still resolves to the name that is gone.
pub resolve-record'_back :
    (key : AccountKey) (a b : String) (c : IdRedirectCache)
    → IsValid c
    → 0 < c.max_entries
    → a ≢ b
    → Dict.get b (table_of key c) ≡ none
    → resolve key a (record' key a a (record' key a b c)) ≡ b
resolve-record'_back key a b c v room ne last =
    rw (unmoved key a a (record' key a b c) refl) (resolve-record' key a b c v room ne last)
