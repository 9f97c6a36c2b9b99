-- ===== src/Dispatch/CreationIds.antt =====
-- `substitute_created_ids` and `_record_created_ids`: references to objects created earlier in the
-- same request.
pub mod Laws
pub mod References
pub mod Resolved
pub mod Recorded
use Prim.Native.String
use Prim.Native.Char.{Char}
use jmap_bridge.Base.{
  ℕ, String, ◌<>◌, Bool, true, false, Option, none, some, List, [], ◌∷◌, if◌then◌else◌,
}
use jmap_bridge.Base.{◌==◌, contains, string_eq}
use jmap_bridge.Base.Text.{is_empty, is_char, after_char}
use jmap_bridge.Base.Dict
use jmap_bridge.Base.Dict.{Dict}
use jmap_bridge.Json.{Value, null, bool, num, str, arr, obj, Items, nil, cons, Fields, end, field}
use jmap_bridge.Json.Object.{get, put}
use jmap_bridge.Errors.{Result, ok, err, raised, invalid_arguments, map_ok, ◌>>=◌}
use jmap_bridge.Dispatch.Python.{Python}

abbrev pub id_value_properties : List String
id_value_properties = "emailId" ∷ "identityId" ∷ "parentId" ∷ []

abbrev pub id_keyed_map_properties : List String
id_keyed_map_properties = "mailboxIds" ∷ "calendarIds" ∷ "addressBookIds" ∷ []

abbrev pub id_list_properties : List String
id_list_properties = []

-- Creation ids and the ids that the server assigned.
abbrev pub CreatedIds : Type 0
CreatedIds = Dict String String

-- What `(.+)$` takes of a text: `.` is any character but a newline, and `$` holds at the end and
-- before a newline that ends the text.
abbrev line_cons : Char → String → Option String → Option String
line_cons c rest line =
    if is_char 10 c
    then (if is_empty rest then some "" else none)
    else elim line [ none ↦ none | some s ↦ some (String.◌∷◌ c s) ]

unfoldable pub line : String → Option String
line String.[] = some ""
line (String.◌∷◌ c rest) = line_cons c rest (line rest)

abbrev nonempty_line : Option String → Option String
nonempty_line none = none
nonempty_line (some s) = if is_empty s then none else some s

-- `_CREATION_REF_RE.match(value)`, the regular expression `^#(.+)$`, and its group.
unfoldable pub creation_ref : String → Option String
unfolding line after_char
creation_ref value = elim (after_char b'#' value) [
  | none ↦ none
  | some rest ↦ nonempty_line (line rest)
]

module _ (py : Python) (created_ids : CreatedIds) where
  abbrev lookup_id : String → Option String → Result String
  lookup_id creation_id none = err (
      raised
        (invalid_arguments ("reference to unknown creation id " <> py.repr (str creation_id)) []))
  lookup_id creation_id (some id) = ok id

  unfoldable pub substitute_id_string : String → Result String
  substitute_id_string value = elim (creation_ref value) [
    | none ↦ ok value
    | some creation_id ↦ lookup_id creation_id (Dict.get creation_id created_ids)
  ]

  -- The dict comprehension over an id-keyed map: a key that comes twice keeps its last value.
  unfoldable pub substitute_keys : Fields → Fields → Result Fields
  substitute_keys end out = ok out
  substitute_keys (field key value fields) out = do
    id ← substitute_id_string key
    substitute_keys fields (put id value out)

  unfoldable pub substitute_list : Items → Result Items
  substitute_list nil = ok nil
  substitute_list (cons (str s) items) = do
    id ← substitute_id_string s
    rest ← substitute_list items
    ok (cons (str id) rest)
  substitute_list (cons item items) = do rest ← substitute_list items; ok (cons item rest)

  -- One property of a dict; `deeper` is the recursive call on its value.
  unfoldable pub substitute_property : String → Value → Result Value → Result Value
  unfolding substitute_keys substitute_list
  substitute_property key (str s) deeper =
      if contains id_value_properties key then map_ok str (substitute_id_string s) else deeper
  substitute_property key (obj fields) deeper =
      if contains id_keyed_map_properties key
      then map_ok obj (substitute_keys fields end)
      else deeper
  substitute_property key (arr items) deeper =
      if contains id_list_properties key then map_ok arr (substitute_list items) else deeper
  substitute_property key value deeper = deeper

  -- A dict is rebuilt under its own keys, in order.
  unfoldable mutual
    unfolding substitute_property

    pub substitute_created_ids : Value → Result Value
    substitute_created_ids (obj fields) = map_ok obj (substitute_fields fields)
    substitute_created_ids (arr items) = map_ok arr (substitute_items items)
    substitute_created_ids null = ok null
    substitute_created_ids (bool b) = ok (bool b)
    substitute_created_ids (num n) = ok (num n)
    substitute_created_ids (str s) = ok (str s)

    pub substitute_items : Items → Result Items
    substitute_items nil = ok nil
    substitute_items (cons item items) = do
      item' ← substitute_created_ids item
      items' ← substitute_items items
      ok (cons item' items')

    pub substitute_fields : Fields → Result Fields
    substitute_fields end = ok end
    substitute_fields (field key value fields) = do
      value' ← substitute_property key value (substitute_created_ids value)
      fields' ← substitute_fields fields
      ok (field key value' fields')

-- `obj["id"]`, where `obj` is a dict and that is a text.
abbrev pub created_id : Value → Option String
created_id (obj fields) = elim (get "id" fields) [
  | none ↦ none
  | some v ↦ elim v [ str id ↦ some id | _ ↦ none ]
]
created_id value = none

-- `created_ids[creation_id] = obj["id"]`, where that test holds.
abbrev pub remember : String → Option String → CreatedIds → CreatedIds
remember creation_id none created_ids = created_ids
remember creation_id (some id) created_ids = Dict.put creation_id id created_ids

unfoldable pub record_ids : Fields → CreatedIds → CreatedIds
record_ids end created_ids = created_ids
record_ids (field creation_id value fields) created_ids =
    record_ids fields (remember creation_id (created_id value) created_ids)

abbrev pub record_value : Option Value → CreatedIds → CreatedIds
record_value (some (obj fields)) created_ids = record_ids fields created_ids
record_value _ created_ids = created_ids

unfoldable pub record_created_ids : Fields → CreatedIds → CreatedIds
unfolding record_ids
record_created_ids result created_ids = record_value (get "created" result) created_ids
