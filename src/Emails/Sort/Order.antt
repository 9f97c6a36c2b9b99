-- ===== src/Emails/Sort/Order.antt =====
-- The sort orders by its first key, by its second where that leaves items equal, and so on, and
-- keeps the order of items that are equal under all.
use jmap_bridge.Base.{
  ℕ, ◌+◌, ◌≡◌, refl, ◌∙◌, Bool, true, ◌||◌, Option, none, some, List, [], ◌∷◌, if◌then◌else◌, arith,
  inl, inr, Bool-cases,
}
use jmap_bridge.Emails.Sort.{insert_by, stable_sort, Ordered, leb_or_none, comes_first, apply_sort}

module _ {A : Type 0} where
  abbrev pub All : (A → Type 0) → List A → Type 0
  All P [] = Unit
  All P (x ∷ xs) = P x × All P xs

  -- Every item is related to those behind it.
  abbrev pub Pairwise : (A → A → Type 0) → List A → Type 0
  Pairwise R [] = Unit
  Pairwise R (x ∷ xs) = All (R x) xs × Pairwise R xs

  -- How many items pass a test.
  abbrev pub count_if : (A → Bool) → List A → ℕ
  count_if test [] = 0
  count_if test (x ∷ xs) = (if test x then 1 else 0) + count_if test xs

  All-map : {P Q : A → Type 0} (xs : List A) → ((x : A) → P x → Q x) → All P xs → All Q xs
  All-map [] f h = tt
  All-map (x ∷ xs) f (p, h) = (f x p, All-map xs f h)

  -- Sorted by a key, and by the relation where the key leaves items equal.
  abbrev pub Refines : (A → A → Bool) → (A → A → Type 0) → A → A → Type 0
  Refines before R x y = (before x y ≡ true) × (before y x ≡ true → R x y)

  module _ (before : A → A → Bool) where
    All-insert_by :
        (P : A → Type 0) (x : A) (ys : List A) → P x → All P ys → All P (insert_by before x ys)
    unfolding insert_by
    All-insert_by P x [] p h = (p, tt)
    All-insert_by P x (y ∷ ys) p (q, h) = elim (Bool-cases (before x y)) [
      | inl b ↦ rw (insert_by, b) (p, (q, h))
      | inr b ↦ rw (insert_by, b) (q, All-insert_by P x ys p h)
    ]

    All-stable_sort : (P : A → Type 0) (xs : List A) → All P xs → All P (stable_sort before xs)
    unfolding stable_sort
    All-stable_sort P [] h = tt
    All-stable_sort P (x ∷ xs) (p, h) =
        All-insert_by P x (stable_sort before xs) p (All-stable_sort P xs h)

    count_if-insert_by :
        (test : A → Bool) (x : A) (ys : List A)
        → count_if test (insert_by before x ys) ≡ (if test x then 1 else 0) + count_if test ys
    unfolding insert_by
    count_if-insert_by test x [] = refl
    count_if-insert_by test x (y ∷ ys) = elim (Bool-cases (before x y)) [
      | inl b ↦ rw (insert_by, b) refl
      | inr b ↦ rw (insert_by, b) (omega (arith, count_if-insert_by test x ys))
    ]

    pub count_if-stable_sort :
        (test : A → Bool) (xs : List A) → count_if test (stable_sort before xs) ≡ count_if test xs
    unfolding stable_sort
    count_if-stable_sort test [] = refl
    count_if-stable_sort test (x ∷ xs) =
        omega
          (arith, count_if-insert_by test x (stable_sort before xs), count_if-stable_sort test xs)

    module _ (total : (x y : A) → (before x y || before y x) ≡ true)
        (transitive : (x y z : A) → before x y ≡ true → before y z ≡ true → before x z ≡ true)
        (R : A → A → Type 0) where
      insert_by-Pairwise :
          (x : A) (ys : List A)
          → All (R x) ys
          → Pairwise (Refines before R) ys
          → Pairwise (Refines before R) (insert_by before x ys)
      unfolding insert_by
      insert_by-Pairwise x [] a p = (tt, tt)
      insert_by-Pairwise x (y ∷ ys) (r, a) (h, p) = elim (Bool-cases (before x y)) [
        | inl b ↦ rw (insert_by, b) ((((b, λ _. r), behind ys b a h)), (h, p))
        | inr b ↦
            rw (insert_by, b)
              (
                All-insert_by (Refines before R y) x ys
                    (ground (arith, total x y), λ c. absurd (ground arith)) h,
                insert_by-Pairwise x ys a p,
              )
      ]
        where
          behind :
              (zs : List A)
              → before x y ≡ true
              → All (R x) zs
              → All (Refines before R y) zs
              → All (Refines before R x) zs
          behind [] b a h = tt
          behind (z ∷ zs) b (r, a) ((c, _), h) = ((transitive x y z b c, λ _. r), behind zs b a h)

      pub stable_sort-Pairwise :
          (xs : List A) → Pairwise R xs → Pairwise (Refines before R) (stable_sort before xs)
      unfolding stable_sort
      stable_sort-Pairwise [] p = tt
      stable_sort-Pairwise (x ∷ xs) (h, p) =
          insert_by-Pairwise x (stable_sort before xs) (All-stable_sort (R x) xs h)
            (stable_sort-Pairwise xs p)

module _ {V : Type 0} (o : Ordered V) where
  leb_or_none-total : (a b : Option V) → (leb_or_none o a b || leb_or_none o b a) ≡ true
  leb_or_none-total none none = refl
  leb_or_none-total none (some b) = refl
  leb_or_none-total (some a) none = refl
  leb_or_none-total (some a) (some b) = o.total a b

  leb_or_none-transitive :
      (a b c : Option V)
      → leb_or_none o a b ≡ true
      → leb_or_none o b c ≡ true
      → leb_or_none o a c ≡ true
  leb_or_none-transitive (some a) (some b) (some c) p q = o.transitive a b c p q
  leb_or_none-transitive (some a) b none p q = refl
  leb_or_none-transitive none b none p q = refl
  leb_or_none-transitive (some a) none (some c) p q = absurd (ground arith)
  leb_or_none-transitive none none (some c) p q = absurd (ground arith)
  leb_or_none-transitive none (some b) (some c) p q = absurd (ground arith)

module _ {A K V : Type 0} (o : Ordered V) (value_for : A → K → Option V)
    (ascending : K → Bool) where
  abbrev before : K → A → A → Bool
  before = comes_first o value_for ascending

  before-total : (k : K) (x y : A) → (before k x y || before k y x) ≡ true
  before-total k x y = elim (Bool-cases (ascending k)) [
    | inl b ↦ rw b (leb_or_none-total o (value_for x k) (value_for y k))
    | inr b ↦ rw b (leb_or_none-total o (value_for y k) (value_for x k))
  ]

  before-transitive :
      (k : K) (x y z : A) → before k x y ≡ true → before k y z ≡ true → before k x z ≡ true
  before-transitive k x y z p q = elim (Bool-cases (ascending k)) [
    | inl b ↦ rw b (
        leb_or_none-transitive o (value_for x k) (value_for y k) (value_for z k) (rw b at p)
          (rw b at q))
    | inr b ↦ rw b (
        leb_or_none-transitive o (value_for z k) (value_for y k) (value_for x k) (rw b at q)
          (rw b at p))
  ]

  -- One item is before another by the first key that tells them apart, in its direction, and by the
  -- relation where none does.
  abbrev pub Lex : List K → (A → A → Type 0) → A → A → Type 0
  Lex [] R x y = R x y
  Lex (k ∷ sort) R x y = Refines (before k) (Lex sort R) x y

  -- The items in their order: the same items, each as often, and any two of them in the order of the
  -- keys; what held of two items that no key tells apart, from the first to the second, still does.
  pub record IsSorted (sort : List K) (items sorted : List A) : Type 1 where
    pub ordered : (R : A → A → Type 0) → Pairwise R items → Pairwise (Lex sort R) sorted
    pub same : (test : A → Bool) → count_if test sorted ≡ count_if test items

  -- The sort puts the items into the order of its keys, the first key first, each in its direction,
  -- those without a value behind the others (before them where a key is descending), and keeps the
  -- order of two items that are equal under all keys. No item is lost, added or repeated.
  pub apply_sort-IsSorted :
      (sort : List K) (items : List A)
      → IsSorted sort items (apply_sort o value_for ascending sort items)
  unfolding apply_sort
  apply_sort-IsSorted [] items = record { ordered = λ R p. p; same = λ test. refl }
  apply_sort-IsSorted (k ∷ sort) items =
      let rest = apply_sort-IsSorted sort items in
      record {
        ordered = λ R p.
            stable_sort-Pairwise (before k) (before-total k) (before-transitive k) (Lex sort R)
              (apply_sort o value_for ascending sort items) (rest.ordered R p);
        same = λ test.
            count_if-stable_sort (before k) test (apply_sort o value_for ascending sort items)
            ∙ rest.same test;
      }
