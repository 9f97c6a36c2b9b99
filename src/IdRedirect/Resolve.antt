-- ===== src/IdRedirect/Resolve.antt =====
-- The loop of `IdRedirectCache.resolve`: it ends, and it finds the end of the chain.
use jmap_bridge.Base.{
  ℕ, zero, suc, ◌+◌, ◌≤◌, ◌<◌, String, ◌≡◌, refl, ◌≢◌, ◌∙◌, sym, ap, ◌⊎◌, inl, inr, true, false,
  none, some, some-injective, List, [], ◌∷◌, arith, length, All, if◌then◌else◌, Option-cases,
  Bool-cases,
}
use jmap_bridge.Base.{contains, string_eq, pair_eq}
use jmap_bridge.Base.Dict
use jmap_bridge.Base.Dict.{Dict}
use jmap_bridge.IdRedirect.{AccountKey, IdRedirectCache, table_of, follow, resolve}

-- The entries whose key has not been visited.
abbrev unvisited : Dict String String → List String → ℕ
unvisited [] visited = 0
unvisited ((k, _) ∷ table) visited = (if contains visited k then 0 else 1) + unvisited table visited

unvisited-cons-le :
    (table : Dict String String) (x : String) (visited : List String)
    → unvisited table (x ∷ visited) ≤ unvisited table visited
unvisited-cons-le [] x visited = omega arith
unvisited-cons-le ((k, _) ∷ table) x visited = ground (arith, unvisited-cons-le table x visited)

unvisited-cons-lt :
    (table : Dict String String) (x : String) (visited : List String)
    → contains visited x ≡ false
    → Dict.get x table ≢ none
    → unvisited table (x ∷ visited) < unvisited table visited
unfolding Dict.get
unvisited-cons-lt [] x visited fresh found = absurd (found refl)
unvisited-cons-lt ((k, _) ∷ table) x visited fresh found =
    ground (arith, unvisited-cons-le table x visited, unvisited-cons-lt table x visited)

unvisited-le-length :
    (table : Dict String String) (visited : List String) → unvisited table visited ≤ length table
unvisited-le-length [] visited = omega arith
unvisited-le-length ((k, _) ∷ table) visited = ground (arith, unvisited-le-length table visited)

module _ (table : Dict String String) where
  -- The three ways that a round ends.
  follow_end :
      (fuel : ℕ) (seen : List String) (requested current : String)
      → Dict.get current table ≡ none
      → follow (suc fuel) table seen requested current ≡ some current
  unfolding follow
  follow_end fuel seen requested current e = rw (e, follow)

  follow_cycle :
      (fuel : ℕ) (seen : List String) (requested current next : String)
      → Dict.get current table ≡ some next
      → contains seen next ≡ true
      → follow (suc fuel) table seen requested current ≡ some requested
  unfolding follow
  follow_cycle fuel seen requested current next e b = rw (e, follow) (ground arith)

  pub follow_next :
      (fuel : ℕ) (seen : List String) (requested current next : String)
      → Dict.get current table ≡ some next
      → contains seen next ≡ false
      → follow (suc fuel) table seen requested current
        ≡ follow fuel table (next ∷ seen) requested next
  unfolding follow
  follow_next fuel seen requested current next e b = rw (e, follow) (ground arith)

  found-ne-none : (x y : String) → Dict.get x table ≡ some y → Dict.get x table ≢ none
  found-ne-none x y e n = cc

  -- Each round visits one more key, so fuel above the unvisited entries is enough.
  follow_total :
      (fuel : ℕ) (visited : List String) (requested current : String)
      → contains visited current ≡ false
      → unvisited table visited < fuel
      → (r : String) × (follow fuel table (current ∷ visited) requested current ≡ some r)
  follow_total zero visited requested current fresh enough = absurd (omega arith)
  follow_total (suc fuel) visited requested current fresh enough =
      elim (Option-cases (Dict.get current table)) [
        | inl e ↦ (current, follow_end fuel (current ∷ visited) requested current e)
        | inr (next, e) ↦ elim (Bool-cases (contains (current ∷ visited) next)) [
          | inl b ↦ (requested, follow_cycle fuel (current ∷ visited) requested current next e b)
          | inr b ↦
              let shrinks =
                unvisited-cons-lt table current visited fresh (found-ne-none current next e) in
              let (r, p) = follow_total fuel (current ∷ visited) requested next b (omega arith) in
              (r, follow_next fuel (current ∷ visited) requested current next e b ∙ p)
        ]
      ]

  -- `Steps n x r`: `n` redirects lead from `x` to `r`.
  abbrev pub Steps : ℕ → String → String → Type 0
  Steps zero x r = x ≡ r
  Steps (suc n) x r = (y : String) × (Dict.get x table ≡ some y) × Steps n y r

  -- A chain that ends, ends after one number of steps.
  Steps-unique :
      (m n : ℕ) (x r : String) → Dict.get r table ≡ none → Steps m x r → Steps n x r → m ≡ n
  Steps-unique zero zero x r last s t = refl
  Steps-unique zero (suc n) x r last s (y, e, t) = absurd (found-ne-none x y e (rw s last))
  Steps-unique (suc m) zero x r last (y, e, s) t = absurd (found-ne-none x y e (rw t last))
  Steps-unique (suc m) (suc n) x r last (y, e, s) (z, g, t) =
      let y≡z = some-injective y z (sym e ∙ g) in ap suc (Steps-unique m n y r last s (rw y≡z t))

  follow_zero :
      (seen : List String) (requested current out : String)
      → follow 0 table seen requested current ≡ some out
      → ⊥
  unfolding follow
  follow_zero seen requested current out run = cc

  -- Every id that has been seen is at least `n` steps from the end.
  abbrev Behind : ℕ → String → List String → Type 0
  Behind n r = All (λ s. (m : ℕ) × (n ≤ m) × Steps m s r)

  Behind-weaken :
      (n : ℕ) (r : String) (seen : List String) → Behind (suc n) r seen → Behind n r seen
  Behind-weaken n r [] h = tt
  Behind-weaken n r (s ∷ seen) ((m, le, st), h) = ((m, omega arith, st), Behind-weaken n r seen h)

  -- So the next id, one step nearer, has not been seen.
  not_seen :
      (n : ℕ) (r next : String) (seen : List String)
      → Dict.get r table ≡ none
      → Steps n next r
      → Behind (suc n) r seen
      → contains seen next ≡ false
  not_seen n r next [] last st h = refl
  not_seen n r next (s ∷ seen) last st ((m, le, t), h) = elim (string_eq.dec next s) [
    | yes p ↦ absurd (let same = Steps-unique n m next r last st (rw p t) in omega arith)
    | no p ↦ ground (arith, not_seen n r next seen last st h)
  ]

  follow-Steps :
      (fuel n : ℕ) (seen : List String) (requested current r : String)
      → Dict.get r table ≡ none
      → Steps n current r
      → Behind n r seen
      → (out : String) → follow fuel table seen requested current ≡ some out
      → out ≡ r
  follow-Steps zero n seen requested current r last st h out run =
      absurd (follow_zero seen requested current out run)
  follow-Steps (suc fuel) zero seen requested current r last st h out run =
      some-injective out r
        (sym run ∙ follow_end fuel seen requested current (rw st last) ∙ ap some st)
  follow-Steps (suc fuel) (suc n) seen requested current r last (y, e, st) h out run =
      let fresh = not_seen n r y seen last st h in
      follow-Steps fuel n (y ∷ seen) requested y r last st
        ((n, omega arith, st), Behind-weaken n r seen h) out
        (sym (follow_next fuel seen requested current y e fresh) ∙ run)

  -- The loop returns the end of a chain from where it stands, or the id that was asked for.
  follow_cases :
      (fuel : ℕ) (seen : List String) (requested current out : String)
      → follow fuel table seen requested current ≡ some out
      → ((m : ℕ) × Steps m current out × (Dict.get out table ≡ none)) ⊎ (out ≡ requested)
  follow_cases zero seen requested current out run =
      absurd (follow_zero seen requested current out run)
  follow_cases (suc fuel) seen requested current out run =
      elim (Option-cases (Dict.get current table)) [
        | inl e ↦
            let same =
              some-injective current out (sym (follow_end fuel seen requested current e) ∙ run) in
            inl (0, same, rw (← same) e)
        | inr (next, e) ↦ elim (Bool-cases (contains seen next)) [
          | inl b ↦ inr (
              some-injective out requested
                (sym run ∙ follow_cycle fuel seen requested current next e b))
          | inr b ↦
              let rest =
                follow_cases fuel (next ∷ seen) requested next out
                  (sym (follow_next fuel seen requested current next e b) ∙ run) in
              elim rest [
                | inl (m, st, last) ↦ inl (suc m, (next, e, st), last)
                | inr same ↦ inr same
              ]
        ]
      ]

module _ (key : AccountKey) (c : IdRedirectCache) where
  -- `resolve` leaves its loop by the loop's own returns, whatever the table: the fuel that it is
  -- given, one more than the table's entries, is never used up.
  pub resolve_total :
      (id : String)
      → follow (suc (length (table_of key c))) (table_of key c) (id ∷ []) id id
        ≡ some (resolve key id c)
  unfolding resolve
  resolve_total id =
      let table = table_of key c in
      let enough = unvisited-le-length table [] in
      let (r, p) = follow_total table (suc (length table)) [] id id refl (omega arith) in rw p

  -- An id from which a chain of redirects leads to an id without one resolves to that id.
  pub resolve-end :
      (n : ℕ) (id r : String)
      → Steps (table_of key c) n id r
      → Dict.get r (table_of key c) ≡ none
      → resolve key id c ≡ r
  resolve-end n id r st last =
      follow-Steps (table_of key c) _ n (id ∷ []) id id r last st ((n, omega arith, st), tt)
        (resolve key id c) (resolve_total id)

  -- What `resolve` returns is the end of the chain of redirects from the id, or the id itself.
  pub resolve_cases :
      (id : String)
      → ((n : ℕ) × Steps (table_of key c) n id (resolve key id c)
          × (Dict.get (resolve key id c) (table_of key c) ≡ none))
        ⊎ (resolve key id c ≡ id)
  resolve_cases id =
      follow_cases (table_of key c) _ (id ∷ []) id id (resolve key id c) (resolve_total id)
