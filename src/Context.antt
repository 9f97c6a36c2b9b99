-- ===== src/Context.antt =====
-- context.py: how `imap_parallel_map` shares a sweep among connections.
pub mod Shares
mod Examples
use jmap_bridge.Base.{
  ℕ, zero, suc, ◌-◌, min, max, Option, none, some, List, [], ◌∷◌, ◌++◌, map, length,
}

module _ {A : Type 0} where
  -- `entries[i::step]`, for a step of at least one: what is left out in front is counted down.
  unfoldable pub every : ℕ → ℕ → List A → List A
  every step i [] = []
  every step zero (x ∷ xs) = x ∷ every step (step - 1) xs
  every step (suc i) (x ∷ xs) = every step i xs

  -- `[entries[j::step] for j in range(i, i + n)]`
  unfoldable pub chunks_from : ℕ → List A → ℕ → ℕ → List (List A)
  unfolding every
  chunks_from step entries i zero = []
  chunks_from step entries i (suc n) = every step i entries ∷ chunks_from step entries (suc i) n

  -- `(c for c in chunks if c)`
  unfoldable pub nonempty : List (List A) → List (List A)
  nonempty [] = []
  nonempty ([] ∷ chunks) = nonempty chunks
  nonempty ((x ∷ chunk) ∷ chunks) = (x ∷ chunk) ∷ nonempty chunks

  -- `[item for chunk in chunk_results for item in chunk]`
  unfoldable pub flatten : List (List A) → List A
  flatten [] = []
  flatten (chunk ∷ chunks) = chunk ++ flatten chunks

-- `max(1, min(2, pool_max - 2))`, where the difference stops at 0: `max` with 1 hides it.
abbrev pub default_concurrency : ℕ → ℕ
default_concurrency pool_max = max 1 (min 2 (pool_max - 2))

abbrev pub concurrency_of : Option ℕ → ℕ → ℕ
concurrency_of none pool_max = default_concurrency pool_max
concurrency_of (some max_concurrency) pool_max = max_concurrency

module _ {A : Type 0} (pool_max : ℕ) where
  -- The chunks that a connection each is checked out for.
  unfoldable pub connection_chunks : Option ℕ → List A → List (List A)
  unfolding chunks_from nonempty
  connection_chunks max_concurrency entries =
      let concurrency = min (concurrency_of max_concurrency pool_max) (length entries) in
      nonempty (chunks_from concurrency entries 0 concurrency)

module _ {A B : Type 0} (pool_max : ℕ) (work : A → B) where
  unfoldable pub imap_parallel_map : Option ℕ → List A → List B
  unfolding connection_chunks flatten
  imap_parallel_map max_concurrency [] = []
  imap_parallel_map max_concurrency (x ∷ xs) =
      flatten (map (map work) (connection_chunks pool_max max_concurrency (x ∷ xs)))
