-- ===== src/Mailboxes/Mapping.antt =====
-- mailbox_map.py: a LIST response as JMAP mailboxes.
use jmap_bridge.Base.{
  ℕ, zero, suc, ◌-◌, String, Bool, true, false, Option, none, some, List, [], ◌∷◌, map,
  if◌then◌else◌, ◌==◌, contains, string_eq,
}
use jmap_bridge.Base.Text.{is_empty, size, after_prefix, to_first, join}
use jmap_bridge.Base.Dict
use jmap_bridge.Base.Dict.{Dict}
use jmap_bridge.Base.Int.{pos}
use jmap_bridge.Json.{Value, null, bool, num, str, obj, Fields, end, field}
use jmap_bridge.Encoding.{Libraries, encode_mailbox_id}
use jmap_bridge.Imap.{ImapMailboxEntry}

abbrev pub special_use_to_role : Dict String String
special_use_to_role =
    ("\\ARCHIVE", "archive")
    ∷ ("\\DRAFTS", "drafts")
    ∷ ("\\JUNK", "junk")
    ∷ ("\\SENT", "sent")
    ∷ ("\\TRASH", "trash")
    ∷ ("\\IMPORTANT", "important")
    ∷ ("\\FLAGGED", "flagged")
    ∷ ("\\ALL", "all")
    ∷ []

abbrev pub role_sort_order : Dict String ℕ
role_sort_order =
    ("inbox", 1)
    ∷ ("drafts", 10)
    ∷ ("sent", 20)
    ∷ ("important", 30)
    ∷ ("archive", 40)
    ∷ ("junk", 50)
    ∷ ("trash", 60)
    ∷ []

abbrev pub default_sort_order : ℕ
default_sort_order = 1000

-- `s.split(sep)`, for a separator that is not empty. After a separator its other characters are
-- skipped: the first argument counts them down.
unfoldable pub split_from : ℕ → String → String → List String
split_from skip sep String.[] = "" ∷ []
split_from (suc skip) sep (String.◌∷◌ c s) = split_from skip sep s
split_from zero sep (String.◌∷◌ c s) =
    let after = split_from (size sep - 1) sep s in
    let rest = split_from zero sep s in
    elim (after_prefix sep (String.◌∷◌ c s)) [ some _ ↦ "" ∷ after | none ↦ to_first c rest ]

abbrev pub split_text : String → String → List String
split_text sep s = split_from zero sep s

-- `segments[-1]`, and `segments[:-1]`; a split has one piece at least.
unfoldable pub last_piece : List String → String
last_piece [] = ""
last_piece (p ∷ []) = p
last_piece (p ∷ q ∷ ps) = last_piece (q ∷ ps)

unfoldable pub but_last : List String → List String
but_last [] = []
but_last (p ∷ []) = []
but_last (p ∷ q ∷ ps) = p ∷ but_last (q ∷ ps)

-- `d.get(k)`, for a `k` that may be `None`.
abbrev pub get_of : {V : Type 0} → Option String → Dict String V → Option V
get_of none d = none
get_of (some k) d = Dict.get k d

abbrev pub or_default : {A : Type 0} → Option A → A → A
or_default none d = d
or_default (some a) d = a

-- `upper` is `str.upper`.
module _ (upper : String → String) where
  unfoldable pub is_no_select : List String → Bool
  is_no_select [] = false
  is_no_select (f ∷ flags) =
      let rest = is_no_select flags in if upper f == "\\NOSELECT" then true else rest

  -- The loop of `_role_for`: no role is the empty text, so a role that is found is returned.
  unfoldable pub role_of_flags : List String → Option String
  role_of_flags [] = none
  role_of_flags (flag ∷ flags) =
      let rest = role_of_flags flags in
      elim (Dict.get (upper flag) special_use_to_role) [ some role ↦ some role | none ↦ rest ]

  unfoldable pub role_for : String → List String → Option String
  unfolding role_of_flags
  role_for name flags = if upper name == "INBOX" then some "inbox" else role_of_flags flags

-- What the mapping computes of an entry; the other properties are constants.
pub record Mailbox : Type 0 where
  pub id : String
  pub name : String
  pub parent_id : Option String
  pub role : Option String
  pub sort_order : ℕ

abbrev pub segments_of : ImapMailboxEntry → List String
segments_of e = if is_empty e.delimiter then e.name ∷ [] else split_text e.delimiter e.name

-- `delimiter.join(segments[:-1]) if len(segments) > 1 else None`
abbrev pub parent_of : String → List String → Option String
parent_of delimiter (p ∷ q ∷ ps) = some (join delimiter (but_last (p ∷ q ∷ ps)))
parent_of delimiter _ = none

module _ (lib : Libraries) where
  -- `encode_mailbox_id(parent_name) if parent_name and parent_name in by_name else None`
  abbrev pub parent_id_of : List String → Option String → Option String
  parent_id_of by_name none = none
  parent_id_of by_name (some parent_name) =
      if is_empty parent_name
      then none
      else if contains by_name parent_name
      then some (encode_mailbox_id lib parent_name)
      else none

module _ (lib : Libraries) (upper : String → String) where
  unfoldable pub to_mailbox : List String → ImapMailboxEntry → Mailbox
  unfolding split_from last_piece but_last role_for
  to_mailbox by_name e =
      let role = role_for upper e.name e.flags in
      record {
        id = encode_mailbox_id lib e.name;
        name = last_piece (segments_of e);
        parent_id = parent_id_of lib by_name (parent_of e.delimiter (segments_of e));
        role = role;
        sort_order = or_default (get_of role role_sort_order) default_sort_order;
      }

  unfoldable pub to_mailboxes : List String → List ImapMailboxEntry → List Mailbox
  unfolding to_mailbox is_no_select
  to_mailboxes by_name [] = []
  to_mailboxes by_name (e ∷ entries) =
      let rest = to_mailboxes by_name entries in
      if is_no_select upper e.flags then rest else to_mailbox by_name e ∷ rest

  unfoldable pub imap_list_to_jmap_mailboxes : List ImapMailboxEntry → List Mailbox
  unfolding to_mailboxes
  imap_list_to_jmap_mailboxes entries = to_mailboxes (map (λ e. e.name) entries) entries

abbrev pub text_or_null : Option String → Value
text_or_null none = null
text_or_null (some s) = str s

abbrev pub is_none : {A : Type 0} → Option A → Bool
is_none none = true
is_none (some _) = false

-- The rights of a mailbox: one with a role is neither renamed nor deleted.
abbrev pub my_rights : Option String → Fields
my_rights role = field "mayReadItems" (bool true) (
    field "mayAddItems" (bool true) (
      field "mayRemoveItems" (bool true) (
        field "maySetSeen" (bool true) (
          field "maySetKeywords" (bool true) (
            field "mayCreateChild" (bool true) (
              field "mayRename" (bool (is_none role))
                (field "mayDelete" (bool (is_none role)) (field "maySubmit" (bool true) end))))))))

-- The object of the response.
abbrev pub mailbox_object : Mailbox → Fields
mailbox_object m = field "id" (str m.id) (
    field "name" (str m.name) (
      field "parentId" (text_or_null m.parent_id) (
        field "role" (text_or_null m.role) (
          field "sortOrder" (num (pos m.sort_order))
            (field "isSubscribed" (bool true) (field "myRights" (obj (my_rights m.role)) end))))))
