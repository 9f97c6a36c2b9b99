-- ===== src/Collections.antt =====
-- types/calendar.py and types/address_book.py, with the mappings of backends/caldav/calendar_map.py
-- and backends/carddav/addressbook_map.py: the calendars of a CalDAV server and the address books of
-- a CardDAV server, which are handled alike.
pub mod Objects
pub mod Answered
mod Examples
use Prim.Native.String
use jmap_bridge.Base.{
  ℕ, String, ◌<>◌, Bool, true, false, Option, none, some, List, [], ◌∷◌, ◌++◌, map, if◌then◌else◌,
  ◌||◌, string_eq,
}
use jmap_bridge.Base.Dict
use jmap_bridge.Base.Dict.{Dict}
use jmap_bridge.Base.Text.{is_char, is_empty}
use jmap_bridge.Json.{Value, null, str, obj, Fields, end, field}
use jmap_bridge.Errors.{
  MethodError, Result, ok, err, raised, dav_error, account_not_supported, invalid_arguments,
  server_fail, to_response,
}
use jmap_bridge.Effects.{Action, pure, raise, trying, for_each, or_server_fail, ◌>>=◌, ◌>>◌}
use jmap_bridge.Encoding.{Libraries, encode_name, decode_name}
use jmap_bridge.Snapshots.{absent}
use jmap_bridge.Snapshots.WebDav.{CalendarCursor}
use jmap_bridge.State.{encode_state}
use jmap_bridge.Requests.{Request, Ctx, on_server, require_account}
use jmap_bridge.Mailboxes.Sweeping.{dict_of}
use jmap_bridge.Mailboxes.Get.{Object, GetArgs, GetResponse, found_directly, project}
use jmap_bridge.Mailboxes.Set.{
  SetOutcome, nothing_done, accept, refuse, DestroyState, nothing_destroyed, given_text,
}

-- A collection of a server's listing.
pub record CollectionEntry : Type 0 where
  pub href : String
  pub display_name : Option String
  pub sync_token : Option String

-- A connection's operations. Each of them may raise a `CaldavError` or `CarddavError`;
-- `is_configured` is whether the domain has such a server.
pub record DavServer (σ : Type 0) : Type 0 where
  pub is_configured : Bool
  pub connect : Action σ (Unit {0})
  pub list_collections : Action σ (List CollectionEntry)
  pub create_collection : String → Action σ String
  pub rename_collection : String → String → Action σ (Unit {0})
  pub delete_collection : String → Action σ (Unit {0})

-- In what calendars and address books differ: the prefix of their ids, their state strings, what an
-- object says beside its id and its name, and the text for a domain without a server.
pub record CollectionKind : Type 0 where
  pub prefix : String
  pub state_kind : String
  pub payload_key : String
  pub object_of : String → String → Fields
  pub not_configured : String

pub record CollectionSetArgs : Type 0 where
  pub account_id : Option String
  pub create : Dict String (Option String)
  pub update : Dict String (Option String)
  pub destroy : List String

pub record CollectionSetResponse : Type 0 where
  pub account_id : String
  pub new_state : String
  pub created : SetOutcome String
  pub updated : SetOutcome Value
  pub destroyed : DestroyState

-- `path.endswith("/")`
unfoldable pub ends_with_slash : String → Bool
ends_with_slash String.[] = false
ends_with_slash (String.◌∷◌ c text) =
    let rest = ends_with_slash text in if is_empty text then is_char b'/' c else rest

abbrev pub text_or_null : Option String → Value
text_or_null none = null
text_or_null (some s) = str s

abbrev pub or_blank_name : Option String → String
or_blank_name none = ""
or_blank_name (some s) = s

abbrev pub cursor_value : CalendarCursor → Value
cursor_value c =
    obj (field "st" (text_or_null c.sync_token) (field "dn" (text_or_null c.display_name) end))

unfoldable pub collection_fields : Dict String CalendarCursor → Fields
collection_fields [] = end
collection_fields ((href, c) ∷ cursors) = field href (cursor_value c) (collection_fields cursors)

-- `_cursors`: a dict by href.
unfoldable pub collection_cursors : List CollectionEntry → Dict String CalendarCursor
unfolding dict_of
collection_cursors entries =
    dict_of
      (map (λ e. (e.href, record { sync_token = e.sync_token; display_name = e.display_name }))
        entries)
      []

-- `href_path` is `unquote(urlsplit(href).path)`.
module _ (lib : Libraries) (href_path : String → String) (kind : CollectionKind) where
  unfoldable pub canonicalize_collection_href : String → String
  unfolding ends_with_slash
  canonicalize_collection_href href =
      if ends_with_slash (href_path href) then href_path href else href_path href <> "/"

  unfoldable pub encode_collection_id : String → String
  unfolding canonicalize_collection_href encode_name
  encode_collection_id href = encode_name lib kind.prefix (canonicalize_collection_href href)

  -- `none` is a `ValueError`.
  unfoldable pub decode_collection_id : String → Option String
  unfolding decode_name
  decode_collection_id id = decode_name lib kind.prefix id

  unfoldable pub encode_collection_state : Dict String CalendarCursor → String
  unfolding encode_state collection_fields
  encode_collection_state cursors =
      encode_state lib kind.state_kind
        (field kind.payload_key (obj (collection_fields cursors)) end)

  unfoldable pub build_collection : CollectionEntry → Object
  unfolding encode_collection_id
  build_collection e = (
    encode_collection_id e.href,
    kind.object_of (encode_collection_id e.href) (or_blank_name e.display_name),
  )

  -- `selected` and `not_found`.
  unfoldable pub select_collections : List Object → Option (List String) → List Object × List String
  unfolding dict_of found_directly absent
  select_collections all none = (all, [])
  select_collections all (some ids) =
      let by_id = dict_of all [] in (found_directly by_id ids, absent by_id ids)

  module _ {σ : Type 0} (req : Request σ) (dav : DavServer σ) where
    -- `ctx.caldav()` or `ctx.carddav()`
    unfoldable pub open_dav : Action σ (Unit {0})
    open_dav =
        if dav.is_configured
        then dav.connect
        else raise (raised (account_not_supported kind.not_configured))

    unfoldable pub list_dav : Action σ (List CollectionEntry)
    unfolding ◌>>=◌ open_dav
    list_dav = open_dav >> dav.list_collections

    unfoldable pub collection_get : GetArgs → Action (Ctx σ) GetResponse
    unfolding ◌>>=◌ require_account or_server_fail on_server list_dav build_collection
        select_collections project encode_collection_state collection_cursors
    collection_get args = do
      account_id ← require_account req args.account_id
      entries ← or_server_fail (on_server list_dav)
      pure (
          let (selected, not_found) = select_collections (map build_collection entries) args.ids in
          record {
            account_id = account_id;
            state = encode_collection_state (collection_cursors entries);
            objects = project args.properties selected;
            not_found = not_found;
          })

    -- What follows `conn.create_calendar`.
    abbrev pub after_make :
        SetOutcome String → String → Result String → Action σ (SetOutcome String)
    after_make o cid (ok href) = pure (accept cid (encode_collection_id href) o)
    after_make o cid (err (dav_error message)) = pure (refuse cid (server_fail message) o)
    after_make o cid (err e) = raise e

    abbrev pub make_named :
        SetOutcome String → String → Option String → Action σ (SetOutcome String)
    make_named o cid none = pure (refuse cid (invalid_arguments "name is required" ("name" ∷ [])) o)
    make_named o cid (some name) = trying (dav.create_collection name) >>= after_make o cid

    -- One round of the loop over `create`.
    unfoldable pub make_one :
        SetOutcome String → String × Option String → Action σ (SetOutcome String)
    unfolding ◌>>=◌ trying encode_collection_id
    make_one o (cid, name) = make_named o cid (given_text name)

    -- What follows `conn.rename_calendar`.
    abbrev pub after_relabel :
        SetOutcome Value → String → Result (Unit {0}) → Action σ (SetOutcome Value)
    after_relabel o id (ok _) = pure (accept id null o)
    after_relabel o id (err (dav_error message)) = pure (refuse id (server_fail message) o)
    after_relabel o id (err e) = raise e

    abbrev pub relabel_to :
        SetOutcome Value → String → String → Option String → Action σ (SetOutcome Value)
    relabel_to o id href none = pure (accept id null o)
    relabel_to o id href (some name) =
        trying (dav.rename_collection href name) >>= after_relabel o id

    abbrev pub relabel_decoded :
        SetOutcome Value → String → Option String → Option String → Action σ (SetOutcome Value)
    relabel_decoded o id name none = pure (refuse id (invalid_arguments "invalid id" []) o)
    relabel_decoded o id name (some href) = relabel_to o id href (given_text name)

    -- One round of the loop over `update`.
    unfoldable pub relabel_one :
        SetOutcome Value → String × Option String → Action σ (SetOutcome Value)
    unfolding ◌>>=◌ trying decode_collection_id
    relabel_one o (id, name) = relabel_decoded o id name (decode_collection_id id)

    abbrev pub keep_collection : DestroyState → String → MethodError → Action σ DestroyState
    keep_collection d id e =
        pure (record d { not_destroyed = Dict.put id (to_response e) d.not_destroyed })

    -- What follows `conn.delete_calendar`.
    abbrev pub after_remove : DestroyState → String → Result (Unit {0}) → Action σ DestroyState
    after_remove d id (ok _) = pure (record d { destroyed = d.destroyed ++ (id ∷ []) })
    after_remove d id (err (dav_error message)) = keep_collection d id (server_fail message)
    after_remove d id (err e) = raise e

    abbrev pub remove_decoded : DestroyState → String → Option String → Action σ DestroyState
    remove_decoded d id none = keep_collection d id (invalid_arguments "invalid id" [])
    remove_decoded d id (some href) = trying (dav.delete_collection href) >>= after_remove d id

    -- One round of the loop over `destroy`.
    unfoldable pub remove_one : DestroyState → String → Action σ DestroyState
    unfolding ◌>>=◌ trying decode_collection_id
    remove_one d id = remove_decoded d id (decode_collection_id id)

    unfoldable pub apply_collection_set :
        CollectionSetArgs → String → Action σ CollectionSetResponse
    unfolding ◌>>=◌ for_each open_dav make_one relabel_one remove_one encode_collection_state
        collection_cursors
    apply_collection_set args account_id = do
      open_dav
      created ← for_each make_one nothing_done args.create
      updated ← for_each relabel_one nothing_done args.update
      destroyed ← for_each remove_one nothing_destroyed args.destroy
      entries ← dav.list_collections
      pure (record {
        account_id = account_id;
        new_state = encode_collection_state (collection_cursors entries);
        created = created;
        updated = updated;
        destroyed = destroyed;
      })

    unfoldable pub collection_set : CollectionSetArgs → Action (Ctx σ) CollectionSetResponse
    unfolding ◌>>=◌ require_account or_server_fail on_server apply_collection_set
    collection_set args = do
      account_id ← require_account req args.account_id
      or_server_fail (on_server (apply_collection_set args account_id))
