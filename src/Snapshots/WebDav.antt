-- ===== src/Snapshots/WebDav.antt =====
-- backends/caldav/sync_state.py and backends/carddav/sync_state.py: the cursors of calendars and
-- address books.
use jmap_bridge.Base.{String, Bool, false, Option, some, List, [], ◌∷◌, if◌then◌else◌, not, ◌&&◌}
use jmap_bridge.Base.{◌==◌, string_eq, option_eq}
use jmap_bridge.Base.Dict
use jmap_bridge.Base.Dict.{Dict, keys}
use jmap_bridge.Snapshots.{Changes, absent, shared}

pub record CalendarCursor : Type 0 where
  pub sync_token : Option String
  pub display_name : Option String

-- `==` of two frozen dataclasses: field by field.
abbrev pub same_calendar : CalendarCursor → CalendarCursor → Bool
same_calendar a b = a.sync_token == b.sync_token && a.display_name == b.display_name

pub record AddressBookCursor : Type 0 where
  pub sync_token : Option String
  pub display_name : Option String

abbrev pub same_addressbook : AddressBookCursor → AddressBookCursor → Bool
same_addressbook a b = a.sync_token == b.sync_token && a.display_name == b.display_name

-- `new[href] != old[href]` for an href that is in both; an href that one lacks is not asked for.
abbrev pub is_changed {ℓ} : {A : Type ℓ} → (A → A → Bool) → Option A → Option A → Bool
is_changed same (some n) (some o) = not (same n o)
is_changed same _ _ = false

module _ {V : Type 0} (same : V → V → Bool) (old new : Dict String V) where
  -- `[href for href in hrefs if new[href] != old[href]]`
  unfoldable pub differing : List String → List String
  differing [] = []
  differing (href ∷ hrefs) =
      let rest = differing hrefs in
      if is_changed same (Dict.get href new) (Dict.get href old) then href ∷ rest else rest

module _ (enumerate_set : List String → List String) where
  unfoldable pub diff_calendar_state :
      Dict String CalendarCursor → Dict String CalendarCursor → Changes
  unfolding absent shared differing
  diff_calendar_state old new = record {
    created = absent old (keys new);
    updated = differing same_calendar old new (shared enumerate_set old new);
    destroyed = absent new (keys old);
  }

  unfoldable pub diff_addressbook_state :
      Dict String AddressBookCursor → Dict String AddressBookCursor → Changes
  unfolding absent shared differing
  diff_addressbook_state old new = record {
    created = absent old (keys new);
    updated = differing same_addressbook old new (shared enumerate_set old new);
    destroyed = absent new (keys old);
  }
