-- ===== src/Base/Dict.antt =====
-- Python dicts in insertion order, as association lists with their laws.
use Prim.Native.Nat.{suc, ◌≤◌}
use mathlib.Core.Path.{◌≡◌, refl, subst}
use mathlib.Core.Logic.{◌≢◌, inl, inr}
use mathlib.Core.Bool.{Bool, true, false}
use mathlib.Core.Option.{Option, none, some, some-injective}
use mathlib.Core.List.{List, [], ◌∷◌, ◌++◌, map}
use native.Mathlib.Omega.{arith}
use jmap_bridge.Base.Tests.{if◌then◌else◌, Bool-cases}
use jmap_bridge.Base.Lists.{length, All}
use jmap_bridge.Base.Equality.{Eq, ◌==◌}

abbrev pub Dict {ℓ κ} : Type ℓ → Type κ → Type (ℓ ⊔ κ)
Dict K V = List (K × V)

abbrev pub keys {ℓ κ} : {K : Type ℓ} {V : Type κ} → Dict K V → List K
keys = map (λ (k, _). k)

module _ {ℓ κ} {K : Type ℓ} {V : Type κ} ⦃e : Eq K⦄ where
  -- `d.get(k)`
  unfoldable pub get : K → Dict K V → Option V
  get k [] = none
  get k ((j, v) ∷ d) = if k == j then some v else get k d

  -- `k in d`
  unfoldable pub has : K → Dict K V → Bool
  unfolding get
  has k d = elim (get k d) [ none ↦ false | some _ ↦ true ]

  -- `d[k] = v`: in place where the key is there, at the end otherwise.
  unfoldable pub put : K → V → Dict K V → Dict K V
  put k v [] = (k, v) ∷ []
  put k v ((j, w) ∷ d) = if k == j then (k, v) ∷ d else (j, w) ∷ put k v d

  -- `d.pop(k, None)`
  unfoldable pub pop : K → Dict K V → Dict K V
  pop k [] = []
  pop k ((j, w) ∷ d) = if k == j then d else (j, w) ∷ pop k d

  -- A dict holds each key once.
  abbrev pub NodupKeys : Dict K V → Type κ
  NodupKeys [] = Unit
  NodupKeys ((k, _) ∷ d) = (get k d ≡ none) × NodupKeys d

  pub get-put :
      (j k : K) (v : V) (d : Dict K V) → get j (put k v d) ≡ (if j == k then some v else get j d)
  unfolding get put
  get-put j k v [] = ground arith
  get-put j k v (_ ∷ d) = ground (arith, get-put j k v d)

  pub get-put_self : (k : K) (v : V) (d : Dict K V) → get k (put k v d) ≡ some v
  get-put_self k v d = ground (arith, get-put k k v d)

  pub get-put_ne : (j k : K) (v : V) (d : Dict K V) → j ≢ k → get j (put k v d) ≡ get j d
  get-put_ne j k v d h = ground (arith, get-put j k v d)

  pub get-pop :
      (j k : K) (d : Dict K V) → NodupKeys d → get j (pop k d) ≡ (if j == k then none else get j d)
  unfolding get pop
  get-pop j k [] u = ground arith
  get-pop j k (_ ∷ d) (fresh, u) = ground (arith, get-pop j k d u)

  pub put-NodupKeys : (k : K) (v : V) (d : Dict K V) → NodupKeys d → NodupKeys (put k v d)
  unfolding get put
  put-NodupKeys k v [] _ = (refl, tt)
  put-NodupKeys k v ((j, _) ∷ d) (fresh, u) = ground (arith, put-NodupKeys k v d u, get-put j k v d)

  pub pop-NodupKeys : (k : K) (d : Dict K V) → NodupKeys d → NodupKeys (pop k d)
  unfolding get pop
  pop-NodupKeys k [] _ = tt
  pop-NodupKeys k ((j, _) ∷ d) (fresh, u) = ground (arith, pop-NodupKeys k d u, get-pop j k d u)

  pub length-put : (k : K) (v : V) (d : Dict K V) → length (put k v d) ≤ suc (length d)
  unfolding put
  length-put k v [] = omega arith
  length-put k v (_ ∷ d) = ground (arith, length-put k v d)

  pub length-pop : (k : K) (d : Dict K V) → length (pop k d) ≤ length d
  unfolding pop
  length-pop k [] = omega arith
  length-pop k (_ ∷ d) = ground (arith, length-pop k d)

  pub get-nil : (k : K) → get k [] ≡ none
  unfolding get
  get-nil k = refl

  pub get-ne : (k j : K) (v : V) (d : Dict K V) → k ≢ j → get k ((j, v) ∷ d) ≡ get k d
  unfolding get
  get-ne k j v d ne = ground arith

  pub get-here : (k : K) (v : V) (d : Dict K V) → get k ((k, v) ∷ d) ≡ some v
  unfolding get
  get-here k v d = ground arith

  -- A write of a key that is absent goes to the end.
  pub length-put_absent :
      (k : K) (v : V) (d : Dict K V) → get k d ≡ none → length (put k v d) ≡ suc (length d)
  unfolding get put
  length-put_absent k v [] h = refl
  length-put_absent k v (_ ∷ d) h = ground (arith, length-put_absent k v d)

  pub put_absent : (k : K) (v : V) (d : Dict K V) → get k d ≡ none → put k v d ≡ d ++ ((k, v) ∷ [])
  unfolding get put
  put_absent k v [] h = refl
  put_absent k v (_ ∷ d) h = ground (arith, put_absent k v d)

  pub get-append_none : (k : K) (d₁ d₂ : Dict K V) → get k d₁ ≡ none → get k (d₁ ++ d₂) ≡ get k d₂
  unfolding get
  get-append_none k [] d₂ h = refl
  get-append_none k (_ ∷ d) d₂ h = ground (arith, get-append_none k d d₂)

module _ {ℓ κ ν} {K : Type ℓ} {V : Type κ} ⦃e : Eq K⦄ (P : K × V → Type ν) where
  -- A predicate of all entries is kept by a write, and holds of what is read.
  pub put-All : (k : K) (v : V) (d : Dict K V) → P (k, v) → All P d → All P (put k v d)
  unfolding put
  put-All k v [] p all = (p, tt)
  put-All k v ((j, w) ∷ d) p (q, all) = elim (Bool-cases (k == j)) [
    | inl b ↦ rw b (p, all)
    | inr b ↦ rw b (q, put-All k v d p all)
  ]

  pub get-All : (k : K) (v : V) (d : Dict K V) → get k d ≡ some v → All P d → P (k, v)
  unfolding get
  get-All k v [] h all = cc
  get-All k v ((j, w) ∷ d) h (q, all) = elim (Bool-cases (k == j)) [
    | inl b ↦
        let same : j ≡ k = ground arith in
        let value : w ≡ v = some-injective w v (rw b at h) in subst P (λ i. (same i, value i)) q
    | inr b ↦ get-All k v d (rw b at h) all
  ]
