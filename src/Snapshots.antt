-- ===== src/Snapshots.antt =====
-- What the `/changes` methods compare: the cursors of an account's collections, by name, as they
-- were when the client last asked and as they are now.
pub mod Mail
pub mod WebDav
pub mod Reports
pub mod Rotation
pub mod Destroys
mod Examples
use jmap_bridge.Base.{String, List, [], ◌∷◌, if◌then◌else◌}
use jmap_bridge.Base.{string_eq}
use jmap_bridge.Base.Dict
use jmap_bridge.Base.Dict.{Dict, keys}

-- `MailboxChanges`, `CalendarChanges` and `AddressBookChanges`.
pub record Changes : Type 0 where
  pub created : List String
  pub updated : List String
  pub destroyed : List String

module _ {V : Type 0} where
  -- `[name for name in names if name not in other]`
  unfoldable pub absent : Dict String V → List String → List String
  absent other [] = []
  absent other (name ∷ names) =
      let rest = absent other names in if Dict.has name other then rest else name ∷ rest

  unfoldable pub present : Dict String V → List String → List String
  present other [] = []
  present other (name ∷ names) =
      let rest = present other names in if Dict.has name other then name ∷ rest else rest

  -- `new.keys() & old.keys()`: a set, which the parameter enumerates.
  unfoldable pub shared : (List String → List String) → Dict String V → Dict String V → List String
  unfolding present
  shared enumerate_set old new = enumerate_set (present old (keys new))
