-- ===== src/Dispatch/CreationIds/References.antt =====
-- Where ids are expected in a value, that no creation-id reference is there, and what an id-keyed
-- map holds.
use jmap_bridge.Base.{String, ◌≡◌, none, arith, if◌then◌else◌, contains, string_eq}
use jmap_bridge.Json.{Value, null, bool, num, str, arr, obj, Items, nil, cons, Fields, end, field}
use jmap_bridge.Json.Object.{put}
use jmap_bridge.Dispatch.CreationIds.{id_value_properties, id_keyed_map_properties, creation_ref}

abbrev pub NoRef : String → Type 0
NoRef s = creation_ref s ≡ none

-- No key of an id-keyed map is a reference.
abbrev pub NoRefKeys : Fields → Type 0
NoRefKeys end = Unit
NoRefKeys (field key value fields) = NoRef key × NoRefKeys fields

-- What is asked of one property; `deeper` is what is asked within its value.
abbrev pub ResolvedProperty : String → Value → Type 0 → Type 0
ResolvedProperty key (str s) deeper = if contains id_value_properties key then NoRef s else deeper
ResolvedProperty key (obj fields) deeper =
    if contains id_keyed_map_properties key then NoRefKeys fields × deeper else deeper
ResolvedProperty key value deeper = deeper

unfoldable mutual
  pub Resolved : Value → Type 0
  Resolved (obj fields) = ResolvedFields fields
  Resolved (arr items) = ResolvedItems items
  Resolved null = Unit
  Resolved (bool b) = Unit
  Resolved (num n) = Unit
  Resolved (str s) = Unit

  pub ResolvedItems : Items → Type 0
  ResolvedItems nil = Unit
  ResolvedItems (cons item items) = Resolved item × ResolvedItems items

  pub ResolvedFields : Fields → Type 0
  ResolvedFields end = Unit
  ResolvedFields (field key value fields) =
      ResolvedProperty key value (Resolved value) × ResolvedFields fields

-- `null`, a Boolean or a number.
abbrev pub IsScalar : Value → Type 0
IsScalar (obj fields) = ⊥
IsScalar (arr items) = ⊥
IsScalar (str s) = ⊥
IsScalar _ = Unit

abbrev pub AreScalars : Fields → Type 0
AreScalars end = Unit
AreScalars (field key value fields) = IsScalar value × AreScalars fields

abbrev pub PlainProperty : String → Value → Type 0 → Type 0
PlainProperty key (obj fields) deeper =
    if contains id_keyed_map_properties key then AreScalars fields else deeper
PlainProperty key value deeper = deeper

-- The values of an id-keyed map are scalars, as those of JMAP are: `true`, or `null` in a patch.
unfoldable mutual
  pub HasPlainMaps : Value → Type 0
  HasPlainMaps (obj fields) = PlainFields fields
  HasPlainMaps (arr items) = PlainItems items
  HasPlainMaps null = Unit
  HasPlainMaps (bool b) = Unit
  HasPlainMaps (num n) = Unit
  HasPlainMaps (str s) = Unit

  pub PlainItems : Items → Type 0
  PlainItems nil = Unit
  PlainItems (cons item items) = HasPlainMaps item × PlainItems items

  pub PlainFields : Fields → Type 0
  PlainFields end = Unit
  PlainFields (field key value fields) =
      PlainProperty key value (HasPlainMaps value) × PlainFields fields

scalar-ResolvedProperty :
    (key : String) (value : Value) → IsScalar value → ResolvedProperty key value (Resolved value)
unfolding Resolved
scalar-ResolvedProperty key (obj fields) h = absurd h
scalar-ResolvedProperty key (arr items) h = absurd h
scalar-ResolvedProperty key (str s) h = absurd h
scalar-ResolvedProperty key null h = tt
scalar-ResolvedProperty key (bool b) h = tt
scalar-ResolvedProperty key (num n) h = tt

pub scalars-ResolvedFields : (fields : Fields) → AreScalars fields → ResolvedFields fields
unfolding Resolved
scalars-ResolvedFields end h = tt
scalars-ResolvedFields (field key value fields) (h, hs) =
    (scalar-ResolvedProperty key value h, scalars-ResolvedFields fields hs)

pub put-AreScalars :
    (key : String) (value : Value) (fields : Fields)
    → IsScalar value
    → AreScalars fields
    → AreScalars (put key value fields)
unfolding put
put-AreScalars key value end h hs = (h, tt)
put-AreScalars key value (field j w fields) h (hj, hs) =
    ground (arith, put-AreScalars key value fields h hs)

pub put-NoRefKeys :
    (key : String) (value : Value) (fields : Fields)
    → NoRef key
    → NoRefKeys fields
    → NoRefKeys (put key value fields)
unfolding put
put-NoRefKeys key value end h hs = (h, tt)
put-NoRefKeys key value (field j w fields) h (hj, hs) =
    ground (arith, put-NoRefKeys key value fields h hs)
