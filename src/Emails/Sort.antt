-- ===== src/Emails/Sort.antt =====
-- types/email.py: the sort of `Email/query`.
pub mod Order
mod Examples
use jmap_bridge.Base.{
  ◌≡◌, String, ◌<>◌, Bool, true, false, ◌&&◌, ◌||◌, Option, none, some, List, [], ◌∷◌, ◌++◌,
  if◌then◌else◌, ◌==◌, contains, string_eq,
}
use jmap_bridge.Base.Dict
use jmap_bridge.Base.Dict.{Dict, keys}
use jmap_bridge.Base.Text.{is_empty}
use jmap_bridge.Errors.{Result, ok, err, raised, invalid_arguments, unsupported_sort}

pub record SortKey : Type 0 where
  pub property : Option String
  pub is_ascending : Option Bool
  pub keyword : Option String

-- `sort_key.get("property", "receivedAt")`
abbrev pub property_of : SortKey → String
property_of k = elim k.property [ none ↦ "receivedAt" | some p ↦ p ]

-- `sort_key.get("isAscending", True)`
abbrev pub ascending_of : SortKey → Bool
ascending_of k = elim k.is_ascending [ none ↦ true | some b ↦ b ]

abbrev pub has_keyword_of : SortKey → Bool
has_keyword_of k = elim k.keyword [ none ↦ false | some s ↦ if is_empty s then false else true ]

abbrev pub sort_property_to_imap : Dict String String
sort_property_to_imap =
    ("receivedAt", "ARRIVAL")
    ∷ ("subject", "SUBJECT")
    ∷ ("size", "SIZE")
    ∷ ("from", "FROM")
    ∷ ("to", "TO")
    ∷ ("cc", "CC")
    ∷ []

abbrev pub known_sort_properties : List String
known_sort_properties = "hasKeyword" ∷ keys sort_property_to_imap

-- `repr` is that of a text.
module _ (repr : String → String) where
  abbrev pub unsupported_property : String → Result {0} Unit
  unsupported_property p = err (raised (unsupported_sort ("unsupported sort property: " <> repr p)))

  unfoldable pub validate_sort : List SortKey → Result {0} Unit
  validate_sort [] = ok tt
  validate_sort (k ∷ sort) =
      let rest = validate_sort sort in
      if contains known_sort_properties (property_of k)
      then (if property_of k == "hasKeyword"
          then (if has_keyword_of k
              then rest
              else err
                  (raised (invalid_arguments "hasKeyword sort comparator requires a keyword" [])))
          else rest)
      else unsupported_property (property_of k)

  abbrev pub cons_criterion : Bool → String → Result (List String) → Result (List String)
  cons_criterion ascending key (err e) = err e
  cons_criterion ascending key (ok criteria) =
      ok (if ascending then key ∷ criteria else "REVERSE" ∷ key ∷ criteria)

  unfoldable pub build_sort_criteria : List SortKey → Result (List String)
  build_sort_criteria [] = ok []
  build_sort_criteria (k ∷ sort) =
      let rest = build_sort_criteria sort in
      elim (Dict.get (property_of k) sort_property_to_imap) [
        | none ↦
            err (raised (unsupported_sort ("unsupported sort property: " <> repr (property_of k))))
        | some imap_key ↦ cons_criterion (ascending_of k) imap_key rest
      ]

unfoldable pub sort_is_natively_supported : List SortKey → Bool
sort_is_natively_supported [] = true
sort_is_natively_supported (k ∷ sort) =
    Dict.has (property_of k) sort_property_to_imap && sort_is_natively_supported sort

module _ {A : Type 0} where
  -- `list.sort` is stable: an item is put before the first one that does not come before it.
  unfoldable pub insert_by : (A → A → Bool) → A → List A → List A
  insert_by before x [] = x ∷ []
  insert_by before x (y ∷ ys) =
      let rest = insert_by before x ys in if before x y then x ∷ y ∷ ys else y ∷ rest

  unfoldable pub stable_sort : (A → A → Bool) → List A → List A
  unfolding insert_by
  stable_sort before [] = []
  stable_sort before (x ∷ xs) = insert_by before x (stable_sort before xs)

-- The order of values that are compared with each other: `leb a b` is `a <= b`.
pub record Ordered (V : Type 0) : Type 0 where
  pub leb : V → V → Bool
  pub total : (a b : V) → (leb a b || leb b a) ≡ true
  pub transitive : (a b c : V) → leb a b ≡ true → leb b c ≡ true → leb a c ≡ true

module _ {V : Type 0} (o : Ordered V) where
  -- `(value is None, value)`: an item without a value comes last.
  abbrev pub leb_or_none : Option V → Option V → Bool
  leb_or_none (some a) (some b) = o.leb a b
  leb_or_none (some a) none = true
  leb_or_none none (some b) = false
  leb_or_none none none = true

module _ {A K V : Type 0} (o : Ordered V) (value_for : A → K → Option V)
    (ascending : K → Bool) where
  -- `sort(key=…, reverse=not ascending)`, which keeps the order of equal items in both directions.
  abbrev pub comes_first : K → A → A → Bool
  comes_first k x y =
      if ascending k
      then leb_or_none o (value_for x k) (value_for y k)
      else leb_or_none o (value_for y k) (value_for x k)

  -- The last key is sorted by first.
  unfoldable pub apply_sort : List K → List A → List A
  unfolding stable_sort
  apply_sort [] items = items
  apply_sort (k ∷ sort) items = stable_sort (comes_first k) (apply_sort sort items)
