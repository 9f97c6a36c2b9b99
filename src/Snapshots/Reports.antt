-- ===== src/Snapshots/Reports.antt =====
-- What a comparison of two snapshots reports about each collection.
use jmap_bridge.Base.{String, ◌≡◌, refl, ◌∙◌, Bool, List, [], ◌∷◌, not, ◌&&◌, arith, contains}
use jmap_bridge.Base.{string_eq}
use jmap_bridge.Base.Dict
use jmap_bridge.Base.Dict.{Dict, keys}
use jmap_bridge.Base.Int.{int_eq}
use jmap_bridge.Snapshots.{Changes, absent, present, shared}
use jmap_bridge.Snapshots.WebDav.{
  CalendarCursor, same_calendar, AddressBookCursor, same_addressbook, is_changed, differing,
  diff_calendar_state, diff_addressbook_state,
}

-- The report is complete and right about every name: what it lists as created is in the new
-- snapshot only, what it lists as destroyed in the old one only, and what it lists as updated is in
-- both and compares as changed.
pub record IsReport {V : Type 0} (same : V → V → Bool) (old new : Dict String V) (c : Changes)
    : Type 0 where
  pub created : (x : String) → contains c.created x ≡ (Dict.has x new && not (Dict.has x old))
  pub destroyed : (x : String) → contains c.destroyed x ≡ (Dict.has x old && not (Dict.has x new))
  pub updated :
      (x : String) → contains c.updated x ≡ is_changed same (Dict.get x new) (Dict.get x old)

module _ {V : Type 0} where
  pub contains-keys : (d : Dict String V) (x : String) → contains (keys d) x ≡ Dict.has x d
  unfolding Dict.get Dict.has
  contains-keys [] x = refl
  contains-keys ((k, v) ∷ d) x = ground (arith, contains-keys d x)

  pub contains-absent :
      (other : Dict String V) (names : List String) (x : String)
      → contains (absent other names) x ≡ (contains names x && not (Dict.has x other))
  unfolding absent
  contains-absent other [] x = refl
  contains-absent other (name ∷ names) x = ground (arith, contains-absent other names x)

  pub contains-present :
      (other : Dict String V) (names : List String) (x : String)
      → contains (present other names) x ≡ (contains names x && Dict.has x other)
  unfolding present
  contains-present other [] x = refl
  contains-present other (name ∷ names) x = ground (arith, contains-present other names x)

  contains-differing :
      (same : V → V → Bool) (old new : Dict String V) (names : List String) (x : String)
      → contains (differing same old new names) x
        ≡ (contains names x && is_changed same (Dict.get x new) (Dict.get x old))
  unfolding differing
  contains-differing same old new [] x = refl
  contains-differing same old new (name ∷ names) x =
      ground (arith, contains-differing same old new names x)

-- A set is enumerated in any order, each member at least once and nothing else.
abbrev pub Enumerates : (List String → List String) → Type 0
Enumerates f = (names : List String) (x : String) → contains (f names) x ≡ contains names x

module _ (f : List String → List String) (enumerates : Enumerates f) where
  pub contains-shared :
      {V : Type 0} (old new : Dict String V) (x : String)
      → contains (shared f old new) x ≡ (Dict.has x new && Dict.has x old)
  unfolding shared
  contains-shared old new x = ground (
    arith,
    enumerates (present old (keys new)) x,
    contains-present old (keys new) x,
    contains-keys new x,
  )

  pub shared_changed :
      {V : Type 0} (same : V → V → Bool) (old new : Dict String V) (x : String)
      → (contains (shared f old new) x && is_changed same (Dict.get x new) (Dict.get x old))
        ≡ is_changed same (Dict.get x new) (Dict.get x old)
  unfolding Dict.has
  shared_changed same old new x = ground (arith, contains-shared old new x)

  difference-IsReport :
      {V : Type 0} (same : V → V → Bool) (old new : Dict String V)
      → IsReport same old new (record {
        created = absent old (keys new);
        updated = differing same old new (shared f old new);
        destroyed = absent new (keys old);
      })
  difference-IsReport same old new = record {
    created = λ x. ground (arith, contains-absent old (keys new) x, contains-keys new x);
    destroyed = λ x. ground (arith, contains-absent new (keys old) x, contains-keys old x);
    updated =
        λ x. contains-differing same old new (shared f old new) x ∙ shared_changed same old new x;
  }

  -- The calendars' report is right about every href, whatever the order in which Python enumerates
  -- a set: created, destroyed, or updated where the sync token or the display name differs.
  pub diff_calendar_state-IsReport :
      (old new : Dict String CalendarCursor)
      → IsReport same_calendar old new (diff_calendar_state f old new)
  unfolding diff_calendar_state
  diff_calendar_state-IsReport old new = difference-IsReport same_calendar old new

  -- The address books' report is right about every href in the same way.
  pub diff_addressbook_state-IsReport :
      (old new : Dict String AddressBookCursor)
      → IsReport same_addressbook old new (diff_addressbook_state f old new)
  unfolding diff_addressbook_state
  diff_addressbook_state-IsReport old new = difference-IsReport same_addressbook old new
