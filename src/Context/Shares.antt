-- ===== src/Context/Shares.antt =====
-- Each entry of a sweep is worked on exactly once, and the connections that a sweep takes.
use jmap_bridge.Base.{
  ℕ, zero, suc, ◌+◌, ◌-◌, ◌≤◌, ◌<◌, min, ◌≡◌, refl, sym, ap, ◌∙◌, Option, none, List, [], ◌∷◌, ◌++◌,
  map, length, if◌then◌else◌, Eq, ◌==◌, arith,
}
use jmap_bridge.Context.{
  every, chunks_from, nonempty, flatten, default_concurrency, concurrency_of, connection_chunks,
  imap_parallel_map,
}

module _ {A : Type 0} ⦃e : Eq A⦄ where
  -- How often a value is in a list.
  abbrev pub count : A → List A → ℕ
  count value [] = 0
  count value (member ∷ rest) = count value rest + (if value == member then 1 else 0)

  count-append :
      (value : A) (front back : List A)
      → count value (front ++ back) ≡ count value back + count value front
  count-append value [] back = omega arith
  count-append value (_ ∷ front) back = omega (arith, count-append value front back)

  -- The occurrences in `n` chunks, from the chunk `i` on.
  abbrev total : ℕ → A → List A → ℕ → ℕ → ℕ
  total step a entries i zero = 0
  total step a entries i (suc n) = count a (every step i entries) + total step a entries (suc i) n

  -- The chunks before the one numbered `j`, and that one.
  total_last :
      (step : ℕ) (a : A) (entries : List A) (i n j : ℕ)
      → j ≡ i + n
      → total step a entries i (suc n) ≡ total step a entries i n + count a (every step j entries)
  total_last step a entries i zero j h =
      let same : i ≡ j = omega arith in omega (arith, ap (λ k. count a (every step k entries)) same)
  total_last step a entries i (suc n) j h =
      omega (arith, total_last step a entries (suc i) n j (omega arith))

  total_cons :
      (step : ℕ) (a x : A) (xs : List A) (i n : ℕ)
      → total step a (x ∷ xs) (suc i) n ≡ total step a xs i n
  unfolding every
  total_cons step a x xs i zero = refl
  total_cons step a x xs i (suc n) =
      ap (λ k. count a (every step i xs) + k) (total_cons step a x xs (suc i) n)

  total-nil : (step : ℕ) (a : A) (i n : ℕ) → total step a [] i n ≡ 0
  unfolding every
  total-nil step a i zero = refl
  total-nil step a i (suc n) = omega (arith, total-nil step a (suc i) n)

  -- Every occurrence is in exactly one chunk.
  total-count : (m : ℕ) (a : A) (xs : List A) → total (suc m) a xs 0 (suc m) ≡ count a xs
  unfolding every
  total-count m a [] = total-nil (suc m) a 0 (suc m)
  total-count m a (x ∷ xs) =
      let back : suc m - 1 ≡ m = omega arith in
      omega (
        arith,
        ap (λ k. count a (every (suc m) k xs)) back,
        total_last (suc m) a xs 0 m m (omega arith),
        total_cons (suc m) a x xs 0 m,
        total-count m a xs,
      )

  count-flatten :
      (step : ℕ) (a : A) (entries : List A) (i n : ℕ)
      → count a (flatten (chunks_from step entries i n)) ≡ total step a entries i n
  unfolding flatten chunks_from
  count-flatten step a entries i zero = refl
  count-flatten step a entries i (suc n) = omega (
    arith,
    count-append a (every step i entries) (flatten (chunks_from step entries (suc i) n)),
    count-flatten step a entries (suc i) n,
  )

module _ {A : Type 0} where
  flatten-nonempty : (chunks : List (List A)) → flatten (nonempty chunks) ≡ flatten chunks
  unfolding flatten nonempty
  flatten-nonempty [] = refl
  flatten-nonempty ([] ∷ chunks) = flatten-nonempty chunks
  flatten-nonempty ((x ∷ chunk) ∷ chunks) = ap (λ l. x ∷ (chunk ++ l)) (flatten-nonempty chunks)

  length-nonempty : (chunks : List (List A)) → length (nonempty chunks) ≤ length chunks
  unfolding nonempty
  length-nonempty [] = omega arith
  length-nonempty ([] ∷ chunks) = omega (arith, length-nonempty chunks)
  length-nonempty ((x ∷ chunk) ∷ chunks) = omega (arith, length-nonempty chunks)

  length-chunks_from :
      (step : ℕ) (entries : List A) (i n : ℕ) → length (chunks_from step entries i n) ≡ n
  unfolding chunks_from
  length-chunks_from step entries i zero = refl
  length-chunks_from step entries i (suc n) = ap suc (length-chunks_from step entries (suc i) n)

module _ {A B : Type 0} (work : A → B) where
  map-append : (xs ys : List A) → map work (xs ++ ys) ≡ map work xs ++ map work ys
  map-append [] ys = refl
  map-append (x ∷ xs) ys = ap (λ l. work x ∷ l) (map-append xs ys)

  flatten-map :
      (chunks : List (List A)) → flatten (map (map work) chunks) ≡ map work (flatten chunks)
  unfolding flatten
  flatten-map [] = refl
  flatten-map (chunk ∷ chunks) =
      ap (λ l. map work chunk ++ l) (flatten-map chunks) ∙ sym (map-append chunk (flatten chunks))

  every-map : (step i : ℕ) (xs : List A) → every step i (map work xs) ≡ map work (every step i xs)
  unfolding every
  every-map step i [] = refl
  every-map step zero (x ∷ xs) = ap (λ l. work x ∷ l) (every-map step (step - 1) xs)
  every-map step (suc i) (x ∷ xs) = every-map step i xs

  flatten-chunks_from :
      (step : ℕ) (entries : List A) (i n : ℕ)
      → flatten (chunks_from step (map work entries) i n)
        ≡ map work (flatten (chunks_from step entries i n))
  unfolding flatten chunks_from
  flatten-chunks_from step entries i zero = refl
  flatten-chunks_from step entries i (suc n) =
      rw (every-map step i entries, flatten-chunks_from step entries (suc i) n)
        (sym (map-append (every step i entries) (flatten (chunks_from step entries (suc i) n))))

  swept :
      ⦃e : Eq B⦄ (c : ℕ) (entries : List A) (b : B)
      → 1 ≤ c
      → count b (flatten (map (map work) (nonempty (chunks_from c entries 0 c))))
        ≡ count b (map work entries)
  swept zero entries b h = absurd (omega (arith, h))
  swept (suc m) entries b h =
      let chunks = chunks_from (suc m) entries 0 (suc m) in
      ap (count b) (
        flatten-map (nonempty chunks)
        ∙ ap (map work) (flatten-nonempty chunks)
        ∙ sym (flatten-chunks_from (suc m) entries 0 (suc m)))
      ∙ count-flatten (suc m) b (map work entries) 0 (suc m)
      ∙ total-count m b (map work entries)

-- With a concurrency of at least one, and the default is, a sweep gives the results of all entries
-- and no other, each as often as working on the entries one by one gives it; only their order may
-- differ.
pub count-imap_parallel_map :
    {A B : Type 0} ⦃e : Eq B⦄ (pool_max : ℕ) (work : A → B) (max_concurrency : Option ℕ)
    (entries : List A) (b : B)
    → 1 ≤ concurrency_of max_concurrency pool_max
    → count b (imap_parallel_map pool_max work max_concurrency entries) ≡ count b (map work entries)
unfolding imap_parallel_map connection_chunks
count-imap_parallel_map pool_max work max_concurrency [] b h = refl
count-imap_parallel_map pool_max work max_concurrency (x ∷ xs) b h =
    swept work (min (concurrency_of max_concurrency pool_max) (length (x ∷ xs))) (x ∷ xs) b
      (omega (arith, h))

-- With the default concurrency and a cap of at least three, the connections of a sweep and the one
-- that its caller holds leave at least one free.
pub connection_chunks_leave_one :
    {A : Type 0} (pool_max : ℕ) (entries : List A)
    → 3 ≤ pool_max
    → length (connection_chunks pool_max none entries) + 1 < pool_max
unfolding connection_chunks
connection_chunks_leave_one pool_max entries h =
    let c : ℕ = min (default_concurrency pool_max) (length entries) in
    omega (arith, length-nonempty (chunks_from c entries 0 c), length-chunks_from c entries 0 c)

one_chunk :
    {A : Type 0} (c : ℕ) (x : A) (xs : List A)
    → c ≡ 1
    → length (nonempty (chunks_from c (x ∷ xs) 0 c)) ≡ 1
unfolding nonempty chunks_from every
one_chunk c x xs h = rw h refl

-- With a cap of at most two, a sweep of a mailbox or more takes two connections together with the
-- one that its caller holds: a cap of two leaves none free, and a cap of one is exceeded.
pub connection_chunks_take_two :
    {A : Type 0} (pool_max : ℕ) (x : A) (xs : List A)
    → pool_max ≤ 2
    → length (connection_chunks pool_max none (x ∷ xs)) + 1 ≡ 2
unfolding connection_chunks
connection_chunks_take_two pool_max x xs h =
    omega
      (arith, one_chunk (min (default_concurrency pool_max) (length (x ∷ xs))) x xs (omega arith))
