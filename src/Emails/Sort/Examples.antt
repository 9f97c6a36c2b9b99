-- ===== src/Emails/Sort/Examples.antt =====
-- A sort by a descending and an ascending key.
use jmap_bridge.Base.{
  ℕ, ◌≡◌, refl, Bool, true, false, not, Option, none, some, List, [], ◌∷◌, leb, arith,
}
use jmap_bridge.Errors.{ok}
use jmap_bridge.Base.Dict
use jmap_bridge.Base.{string_eq}
use jmap_bridge.Emails.Sort.{SortKey, Ordered, apply_sort, build_sort_criteria}
use jmap_bridge.Emails.Sort.Order.{IsSorted, apply_sort-IsSorted}

abbrev numbers : Ordered ℕ
numbers = record { leb = leb; total = λ a b. ground arith; transitive = λ a b c p q. ground arith }

-- The key `true` is the first number of a pair, and descends; `false` is the second.
abbrev number_of : ℕ × Option ℕ → Bool → Option ℕ
number_of (a, b) true = some a
number_of (a, b) false = b

abbrev items : List (ℕ × Option ℕ)
items = (1, none) ∷ (2, some 3) ∷ (1, some 5) ∷ (2, some 1) ∷ []

sort_runs :
    apply_sort numbers number_of not (true ∷ false ∷ []) items
    ≡ (2, some 1) ∷ (2, some 3) ∷ (1, some 5) ∷ (1, none) ∷ []
unfolding apply_sort
sort_runs = refl

abbrev newest_first : List SortKey
newest_first = record { property = none; is_ascending = some false; keyword = none } ∷ []

criteria_runs : build_sort_criteria (λ s. s) newest_first ≡ ok ("REVERSE" ∷ "ARRIVAL" ∷ [])
unfolding build_sort_criteria Dict.get string_eq
criteria_runs = refl

apply_sort-IsSorted_example :
    IsSorted numbers number_of not
      (true ∷ false ∷ [])
      items
      (apply_sort numbers number_of not (true ∷ false ∷ []) items)
apply_sort-IsSorted_example = apply_sort-IsSorted numbers number_of not (true ∷ false ∷ []) items
