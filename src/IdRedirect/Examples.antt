-- ===== src/IdRedirect/Examples.antt =====
-- Runs of the redirect cache, and the theorems at concrete caches.
use jmap_bridge.Base.{
  suc, ap, ne_of_compare, [], ◌∷◌, String, ◌≡◌, refl, ◌≢◌, arith, string_eq, pair_eq, some, length,
}
use jmap_bridge.Base.Dict
use jmap_bridge.Base.Dict.{NodupKeys}
use jmap_bridge.IdRedirect.{
  AccountKey, IdRedirectCache, new_cache, table_of, record', follow, resolve,
}
use jmap_bridge.IdRedirect.Resolve.{resolve_total}
use jmap_bridge.IdRedirect.Record.{IsValid, resolve-record'_back, record'-IsValid}

abbrev alice : AccountKey
alice = ("example.com", "alice@example.com")

abbrev bob : AccountKey
bob = ("example.com", "bob@example.com")

abbrev empty_cache : IdRedirectCache
empty_cache = new_cache 2

empty_cache-IsValid : IsValid empty_cache
unfolding Dict.get
empty_cache-IsValid = record { nodup = λ k. tt; bounded = λ k. omega arith }

abbrev two_moves : IdRedirectCache
two_moves = record' alice "Mb" "Mc" (record' alice "Ma" "Mb" empty_cache)

chain_runs : resolve alice "Ma" two_moves ≡ "Mc"
unfolding record' resolve Dict.get Dict.put Dict.pop string_eq pair_eq
chain_runs = refl

oldest_is_evicted : resolve alice "Ma" (record' alice "Mx" "My" two_moves) ≡ "Ma"
unfolding record' resolve Dict.get Dict.put Dict.pop string_eq pair_eq
oldest_is_evicted = refl

a≢b : ◌≢◌ {A = String} "Ma" "Mb"
a≢b = ne_of_compare "Ma" "Mb" refl

bob≢alice : ◌≢◌ {A = AccountKey} bob alice
bob≢alice p = ne_of_compare "bob@example.com" "alice@example.com" refl (ap (λ k. k.1) p)

record'-IsValid_example : IsValid (record' alice "Ma" "Mb" empty_cache)
record'-IsValid_example = record'-IsValid alice "Ma" "Mb" empty_cache empty_cache-IsValid

resolve-record'_back_example :
    resolve alice "Ma" (record' alice "Ma" "Ma" (record' alice "Ma" "Mb" empty_cache)) ≡ "Mb"
unfolding Dict.get
resolve-record'_back_example =
    resolve-record'_back alice "Ma" "Mb" empty_cache empty_cache-IsValid (omega arith) a≢b refl

resolve_total_example :
    follow
      (suc (length (table_of alice two_moves)))
      (table_of alice two_moves)
      ("Ma" ∷ [])
      "Ma"
      "Ma"
    ≡ some (resolve alice "Ma" two_moves)
resolve_total_example = resolve_total alice two_moves "Ma"
