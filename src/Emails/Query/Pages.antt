-- ===== src/Emails/Query/Pages.antt =====
-- types/email.py: the pages of `Email/query`.
use jmap_bridge.Base.{
  ℕ, zero, suc, ◌+◌, ◌-◌, ◌≤◌, ◌≡◌, refl, sym, ap, ◌∙◌, String, some, List, [], ◌∷◌, ◌++◌, length,
  arith,
}
use jmap_bridge.Base.Int.{pos}
use jmap_bridge.Errors.{Result, ok, err, ok-injective}
use jmap_bridge.Effects.{pure, continue, ◌>>=◌}
use jmap_bridge.Requests.{Request, Ctx}
use jmap_bridge.Emails.Filter.{Texts}
use jmap_bridge.Emails.Query.{
  take, drop, page, paged_answer, find_query, filter_or_empty, sort_or_default, email_query,
  QueryArgs, QueryResponse, SortValues, Searches,
}

module _ {A : Type 0} where
  take-nil : (n : ℕ) → take {A = A} n [] ≡ []
  unfolding take
  take-nil zero = refl
  take-nil (suc n) = refl

  drop-nil : (n : ℕ) → drop {A = A} n [] ≡ []
  unfolding drop
  drop-nil zero = refl
  drop-nil (suc n) = refl

  take-sum : (n m : ℕ) (xs : List A) → take n xs ++ take m (drop n xs) ≡ take (n + m) xs
  unfolding take drop
  take-sum zero m xs = let zero_plus : m ≡ 0 + m = omega arith in ap (λ k. take k xs) zero_plus
  take-sum (suc n) m [] = take-nil m ∙ sym (take-nil (suc n + m))
  take-sum (suc n) m (x ∷ xs) =
      let plus : suc (n + m) ≡ suc n + m = omega arith in
      ap (λ ys. x ∷ ys) (take-sum n m xs) ∙ ap (λ k. take k (x ∷ xs)) plus

  drop-sum : (p n : ℕ) (xs : List A) → drop (p + n) xs ≡ drop n (drop p xs)
  unfolding drop
  drop-sum zero n xs = let zero_plus : 0 + n ≡ n = omega arith in ap (λ k. drop k xs) zero_plus
  drop-sum (suc p) n [] = drop-nil (suc p + n) ∙ sym (drop-nil n)
  drop-sum (suc p) n (x ∷ xs) =
      let plus : suc p + n ≡ suc (p + n) = omega arith in
      ap (λ k. drop k (x ∷ xs)) plus ∙ drop-sum p n xs

  length-take : (n : ℕ) (xs : List A) → length (take n xs) ≤ n
  unfolding take
  length-take zero xs = omega arith
  length-take (suc n) [] = omega arith
  length-take (suc n) (x ∷ xs) = omega (arith, length-take n xs)

-- A page that ends where the next one starts.
page-sum :
    (ids : List String) (p n m : ℕ)
    → page ids p (some (pos n)) ++ page ids (p + n) (some (pos m)) ≡ page ids p (some (pos (n + m)))
unfolding page
page-sum ids p n m =
    let a : p + n - p ≡ n = omega arith in
    let b : p + n + m - (p + n) ≡ m = omega arith in
    let c : p + (n + m) - p ≡ n + m = omega arith in
    let d = drop-sum p n ids in rw (a, b, c, d) (take-sum n m (drop p ids))

length-page : (ids : List String) (p n : ℕ) → length (page ids p (some (pos n))) ≤ n
unfolding page
length-page ids p n = let a : p + n - p ≡ n = omega arith in rw a (length-take n (drop p ids))

-- The pages at `p` of `n` ids and at `p + n` of `m` ids, and the page of both.
abbrev pub paged : QueryArgs → ℕ → ℕ → QueryArgs
paged args p n = record args { position = some (pos p); limit = some (pos n) }

abbrev Outcome : Type 0 → Type 0
Outcome S = Result (String × List String × String) × S

module _ {S : Type 0} where
  -- What the handler makes of what was found.
  abbrev respond : ℕ → ℕ → Outcome S → Result QueryResponse × S
  respond p n found = continue found λ (account_id, ids, query_state).
      pure (paged_answer account_id (some (pos p)) (some (pos n)) ids query_state)

  respond-pages :
      (p n m : ℕ) (found : Outcome S) (t : S) (both : QueryResponse)
      → respond p (n + m) found ≡ (ok both, t)
      → (first : QueryResponse) × (second : QueryResponse) × (respond p n found ≡ (ok first, t))
        × (respond (p + n) m found ≡ (ok second, t))
        × (first.ids ++ second.ids ≡ both.ids)
        × (length first.ids ≤ n)
        × (length second.ids ≤ m)
        × (first.total ≡ both.total)
        × (second.total ≡ both.total)
  respond-pages p n m (err e, s) t both done = cc
  respond-pages p n m (ok (account_id, ids, query_state), s) t both done =
      let first = paged_answer account_id (some (pos p)) (some (pos n)) ids query_state in
      let second = paged_answer account_id (some (pos (p + n))) (some (pos m)) ids query_state in
      let whole = ok-injective _ both (ap (λ x. x.0) done) in
      (
        first,
        second,
        ap (λ x. (ok first, x.1)) done,
        ap (λ x. (ok second, x.1)) done,
        page-sum ids p n m ∙ ap (λ r. r.ids) whole,
        length-page ids p n,
        length-page ids (p + n) m,
        ap (λ r. r.total) whole,
        ap (λ r. r.total) whole,
      )

module _ {σ V : Type 0} (req : Request σ) (py : Texts) (values : SortValues V)
    (searches : Searches σ V) where
  -- If a page of `n + m` ids of a query is answered, then so are, on the same server, the
  -- page of `n` ids from there and the page of `m` ids behind that. The two pages put
  -- together are the long page, neither is longer than it was asked for, and all three give
  -- the same total and leave the same state.
  pub email_query-pages :
      (args : QueryArgs) (p n m : ℕ) (c t : Ctx σ) (both : QueryResponse)
      → email_query req py values searches (paged args p (n + m)) c ≡ (ok both, t)
      → (first : QueryResponse) × (second : QueryResponse) × (email_query req py values searches
            (paged args p n)
            c
          ≡ (ok first, t))
        × (email_query req py values searches (paged args (p + n) m) c ≡ (ok second, t))
        × (first.ids ++ second.ids ≡ both.ids)
        × (length first.ids ≤ n)
        × (length second.ids ≤ m)
        × (first.total ≡ both.total)
        × (second.total ≡ both.total)
  unfolding email_query ◌>>=◌
  email_query-pages args p n m c t both done =
      respond-pages p n m
        (find_query req py values searches args.account_id (filter_or_empty args.filter)
          (sort_or_default args.sort) c)
        t both done
