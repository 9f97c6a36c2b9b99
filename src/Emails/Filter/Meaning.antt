-- ===== src/Emails/Filter/Meaning.antt =====
-- What a filter asks of a message in a mailbox, and what a server makes of the groups of an operator.
use jmap_bridge.Base.{
  ◌≡◌, ◌≢◌, refl, ◌∙◌, String, Bool, true, false, ◌&&◌, ◌||◌, not, ◌==◌, Option, none, some, List,
  [], ◌∷◌, arith, string_eq,
}
use jmap_bridge.Errors.{Result, ok}
use jmap_bridge.Emails.Filter.{
  Criteria, nil, cons, Filter, condition, operation, Filters, none_left, next, Texts, cons_group,
  and_groups, or_groups, not_groups, Operator, all_of, any_of, none_of, operator_of,
  translate_filter,
}
use jmap_bridge.Emails.Filter.Server.{Message, read}
use jmap_bridge.Emails.Filter.Pieces.{Adds, nil-Adds, append-Adds, negated-Adds, either-Adds}
use jmap_bridge.Emails.Filter.Conditions.{matches_condition}

-- The value of an operator, from whether all, any and none of its conditions match. No message
-- matches an unknown operator.
abbrev pub matches_with : Option Operator → Bool → Bool → Bool → Bool
matches_with none all any no_one = false
matches_with (some all_of) all any no_one = all
matches_with (some any_of) all any no_one = any
matches_with (some none_of) all any no_one = no_one

-- The groups that have criteria.
unfoldable pub nonblank : List Criteria → List Criteria
nonblank [] = []
nonblank (g ∷ gs) = cons_group g (nonblank gs)

module _ (py : Texts) where
  -- Under OR and NOT, a condition has criteria: one that has none would be left out.
  abbrev pub Asks : Option Operator → Result Criteria → Type 0
  Asks (some any_of) r = r ≢ ok nil
  Asks (some none_of) r = r ≢ ok nil
  Asks _ r = Unit

  unfoldable mutual
    pub IsSearchable : Filter → Type 0
    IsSearchable (condition c) = Unit
    IsSearchable (operation given fs) = AreSearchable (operator_of given) fs

    pub AreSearchable : Option Operator → Filters → Type 0
    AreSearchable op none_left = Unit
    AreSearchable op (next f fs) =
        IsSearchable f × Asks op (translate_filter py f) × AreSearchable op fs

-- The message is in the mailbox that a condition names.
abbrev pub is_in : Option String → String → Bool
is_in none here = true
is_in (some id) here = id == here

module _ (py : Texts) (m : Message) (here : String) where
  -- RFC 8621, 4.4.1: what a filter asks of a message in the mailbox with the id `here`.
  unfoldable mutual
    pub matches : Filter → Bool
    matches (condition c) = is_in c.in_mailbox here && matches_condition py m c
    matches (operation given fs) =
        matches_with (operator_of given) (matches_all fs) (matches_any fs) (matches_none fs)

    pub matches_all : Filters → Bool
    matches_all none_left = true
    matches_all (next f fs) = matches f && matches_all fs

    pub matches_any : Filters → Bool
    matches_any none_left = false
    matches_any (next f fs) = matches f || matches_any fs

    pub matches_none : Filters → Bool
    matches_none none_left = true
    matches_none (next f fs) = not (matches f) && matches_none fs

  -- A group for each filter.
  abbrev pub Each : Option Operator → Filters → List Criteria → Type 0
  Each op none_left [] = Unit
  Each op none_left (g ∷ gs) = ⊥
  Each op (next f fs) [] = ⊥
  Each op (next f fs) (g ∷ gs) = Adds m g (matches f) × Asks py op (ok g) × Each op fs gs

  abbrev pub Groups : Option Operator → Filters → List Criteria → Type 0
  Groups op fs groups = (gs : List Criteria) × (groups ≡ nonblank gs) × Each op fs gs

  pub nil_value : (b : Bool) → Adds m nil b → b ≡ true
  unfolding read
  nil_value b h = ground (arith, h true)

  pub all-Adds :
      (fs : Filters) (gs : List Criteria)
      → Each (some all_of) fs gs
      → Adds m (and_groups (nonblank gs)) (matches_all fs)
  unfolding matches nonblank and_groups
  all-Adds none_left [] e = nil-Adds m
  all-Adds none_left (g ∷ gs) e = absurd e
  all-Adds (next f fs) [] e = absurd e
  all-Adds (next f fs) (nil ∷ gs) (here, _, rest) =
      rw (nil_value (matches f) here) (all-Adds fs gs rest)
  all-Adds (next f fs) (cons c cs ∷ gs) (here, _, rest) =
      append-Adds m (cons c cs) (and_groups (nonblank gs)) (matches f) (matches_all fs) here
        (all-Adds fs gs rest)

  pub none-Adds :
      (fs : Filters) (gs : List Criteria)
      → Each (some none_of) fs gs
      → Adds m (not_groups (nonblank gs)) (matches_none fs)
  unfolding matches nonblank not_groups
  none-Adds none_left [] e = nil-Adds m
  none-Adds none_left (g ∷ gs) e = absurd e
  none-Adds (next f fs) [] e = absurd e
  none-Adds (next f fs) (nil ∷ gs) (here, asks, rest) = absurd (asks refl)
  none-Adds (next f fs) (cons c cs ∷ gs) (here, asks, rest) =
      negated-Adds m (cons c cs) (not_groups (nonblank gs)) (matches f) (matches_none fs) here
        (none-Adds fs gs rest)

  pub any-Adds :
      (f : Filter) (fs : Filters) (gs : List Criteria)
      → Each (some any_of) (next f fs) gs
      → Adds m (or_groups (nonblank gs)) (matches_any (next f fs))
  unfolding matches nonblank or_groups
  any-Adds f fs [] e r = absurd e
  any-Adds f fs (nil ∷ gs) (here, asks, rest) r = absurd (asks refl)
  any-Adds f none_left (cons c cs ∷ []) (here, asks, rest) r = here r ∙ ground arith
  any-Adds f none_left (cons c cs ∷ g ∷ gs) (here, asks, rest) r = absurd rest
  any-Adds f (next f' fs) (cons c cs ∷ []) (here, asks, rest) r = absurd rest
  any-Adds f (next f' fs) (cons c cs ∷ nil ∷ gs) (here, asks, (_, asks', _)) r = absurd (asks' refl)
  any-Adds f (next f' fs) (cons c cs ∷ cons d ds ∷ gs) (here, asks, rest) r =
      either-Adds m (cons c cs) (or_groups (cons d ds ∷ nonblank gs)) (matches f)
        (matches_any (next f' fs)) here (any-Adds f' fs (cons d ds ∷ gs) rest) r
