-- ===== src/Mailboxes/Set.antt =====
-- `Mailbox/set`.
pub mod Answers
pub mod Answered
pub mod Rename
use jmap_bridge.Base.{
  ℕ, String, ◌<>◌, Bool, true, false, Option, none, some, List, [], ◌∷◌, ◌++◌, map, if◌then◌else◌,
  contains, string_eq,
}
use jmap_bridge.Base.Dict
use jmap_bridge.Base.Dict.{Dict}
use jmap_bridge.Base.Text.{is_empty, after_prefix, join}
use jmap_bridge.Json.{Value, null, Fields}
use jmap_bridge.Errors.{
  Exn, MethodError, Result, ok, err, raised, imap_error, dav_error, failed, invalid_arguments,
  invalid_properties, server_fail, to_response,
}
use jmap_bridge.Effects.{
  Action, pure, raise, lift, gets, modify, trying, for_each, or_server_fail, ◌>>=◌, ◌>>◌,
}
use jmap_bridge.Imap.{ImapServer, ImapMailboxEntry, MailboxStatus}
use jmap_bridge.Encoding.{encode_mailbox_id, decode_mailbox_id, decode_name}
use jmap_bridge.IdRedirect.{IdRedirectCache, record'}
use jmap_bridge.State.{encode_mail_state}
use jmap_bridge.Mailboxes.Mapping.{split_text, split_from, but_last}
use jmap_bridge.Mailboxes.Sweeping.{
  dict_of, cursors_from_statuses, list_selectable_mailboxes, status_map,
}
use jmap_bridge.Requests.{Request, Ctx, on_server, require_account, resolve_id}

pub record CreateProps : Type 0 where
  pub name : Option String
  pub parent_id : Option String

-- `given` is the list of the properties' names.
pub record UpdateProps : Type 0 where
  pub given : List String
  pub name : Option String

-- An argument that is left out, or null, is an empty dict or list.
pub record SetArgs : Type 0 where
  pub account_id : Option String
  pub create : Dict String CreateProps
  pub update : Dict String UpdateProps
  pub destroy : List String

-- What was done, and the error of what was refused.
pub record SetOutcome (V : Type 0) : Type 0 where
  pub done : Dict String V
  pub refused : Dict String Fields

abbrev pub nothing_done : {V : Type 0} → SetOutcome V
nothing_done = record { done = []; refused = [] }

module _ {V : Type 0} where
  abbrev pub accept : String → V → SetOutcome V → SetOutcome V
  accept id v o = record o { done = Dict.put id v o.done }

  abbrev pub refuse : String → MethodError → SetOutcome V → SetOutcome V
  refuse id e o = record o { refused = Dict.put id (to_response e) o.refused }

-- The `created` dict holds the new ids.
pub record CreateState : Type 0 where
  pub outcome : SetOutcome String
  pub entry_by_name : Dict String ImapMailboxEntry

-- `destroyed` is a list.
pub record DestroyState : Type 0 where
  pub destroyed : List String
  pub not_destroyed : Dict String Fields

abbrev pub nothing_destroyed : DestroyState
nothing_destroyed = record { destroyed = []; not_destroyed = [] }

-- `oldState` is always null. An updated mailbox is reported with a null.
pub record SetResponse : Type 0 where
  pub account_id : String
  pub new_state : String
  pub created : SetOutcome String
  pub updated : SetOutcome Value
  pub destroyed : DestroyState

-- `if not text`
abbrev pub given_text : Option String → Option String
given_text none = none
given_text (some s) = if is_empty s then none else some s

-- `"#" + id` of a mailbox that this call created.
abbrev pub created_parent : Dict String String → String → Option String → String
created_parent created parent_id none = parent_id
created_parent created parent_id (some cid) = elim (Dict.get cid created) [
  | none ↦ parent_id
  | some new_id ↦ new_id
]

abbrev pub delimiter_of : String → String → Dict String ImapMailboxEntry → String
delimiter_of server_delimiter name entry_by_name = elim (Dict.get name entry_by_name) [
  | none ↦ server_delimiter
  | some e ↦ e.delimiter
]

-- `entries[0].delimiter if entries else "/"`
abbrev pub server_delimiter_of : List ImapMailboxEntry → String
server_delimiter_of [] = "/"
server_delimiter_of (e ∷ _) = e.delimiter

abbrev pub create_start : List ImapMailboxEntry → CreateState
create_start entries = record {
  outcome = nothing_done;
  entry_by_name = dict_of (map (λ e. (e.name, e)) entries) [];
}

-- `sorted({"role", "sortOrder", "parentId"} & set(props))`
unfoldable pub unsupported_among : List String → List String → List String
unsupported_among [] given = []
unsupported_among (p ∷ ps) given =
    let rest = unsupported_among ps given in if contains given p then p ∷ rest else rest

abbrev pub unsupported_props : List String → List String
unsupported_props given = unsupported_among ("parentId" ∷ "role" ∷ "sortOrder" ∷ []) given

-- The name with its last segment replaced; `split` of an empty separator is a `ValueError`.
unfoldable pub renamed_path : String → String → String → Result String
unfolding split_from but_last join
renamed_path delimiter old_name new_display_name =
    if is_empty delimiter
    then err (failed "empty separator")
    else ok (join delimiter (but_last (split_text delimiter old_name) ++ (new_display_name ∷ [])))

module _ {σ : Type 0} (req : Request σ) where
  -- `full_name`; `none` is a `parentId` that is not a mailbox's id.
  unfoldable pub full_name_of : String → CreateState → Option String → String → Option String
  unfolding after_prefix decode_name
  full_name_of server_delimiter st none name = some name
  full_name_of server_delimiter st (some parent_id) name =
      elim (decode_mailbox_id req.lib
        (created_parent st.outcome.done parent_id (after_prefix "#" parent_id))) [
          | none ↦ none
          | some parent_name ↦
              some
                (parent_name <> delimiter_of server_delimiter parent_name st.entry_by_name <> name)
        ]

  -- What follows `conn.create_folder`.
  abbrev pub after_create :
      String → CreateState → String → String → Result {0} Unit → Action (Ctx σ) CreateState
  after_create server_delimiter st cid full_name (ok _) = pure (record {
    outcome = accept cid (encode_mailbox_id req.lib full_name) st.outcome;
    entry_by_name =
        Dict.put full_name (record { flags = []; delimiter = server_delimiter; name = full_name })
          st.entry_by_name;
  })
  after_create server_delimiter st cid full_name (err (imap_error message)) =
      pure (record st { outcome = refuse cid (server_fail message) st.outcome })
  after_create server_delimiter st cid full_name (err e) = raise e

  abbrev pub create_named :
      String → CreateState → String → Option String → Action (Ctx σ) CreateState
  create_named server_delimiter st cid none = pure (record st {
    outcome = refuse cid (invalid_arguments "invalid parentId" ("parentId" ∷ [])) st.outcome;
  })
  create_named server_delimiter st cid (some full_name) =
      trying (on_server (req.imap.create_folder full_name))
      >>= after_create server_delimiter st cid full_name

  abbrev pub create_with :
      String → CreateState → String → CreateProps → Option String → Action (Ctx σ) CreateState
  create_with server_delimiter st cid props none = pure (record st {
    outcome = refuse cid (invalid_arguments "name is required" ("name" ∷ [])) st.outcome;
  })
  create_with server_delimiter st cid props (some name) =
      create_named server_delimiter st cid
        (full_name_of server_delimiter st (given_text props.parent_id) name)

  -- One round of the loop over `create`.
  unfoldable pub create_one :
      String → CreateState → String × CreateProps → Action (Ctx σ) CreateState
  unfolding full_name_of trying on_server ◌>>=◌
  create_one server_delimiter st (cid, props) =
      create_with server_delimiter st cid props (given_text props.name)

  -- `ctx.id_redirects.record(ctx.id_redirect_key, old_id, new_id)`
  abbrev pub redirect : String → String → Ctx σ → Ctx σ
  redirect old_id new_id c = record c {
    redirects = record' req.redirect_key old_id new_id c.redirects;
  }

  -- What follows `conn.rename_folder`.
  unfoldable pub after_rename :
      SetOutcome Value → String → String → Result {0} Unit → Action (Ctx σ) (SetOutcome Value)
  unfolding ◌>>=◌ record'
  after_rename o mailbox_id new_name (ok _) = do
    modify (redirect mailbox_id (encode_mailbox_id req.lib new_name))
    pure (accept mailbox_id null o)
  after_rename o mailbox_id new_name (err (imap_error message)) =
      pure (refuse mailbox_id (server_fail message) o)
  after_rename o mailbox_id new_name (err e) = raise e

  unfoldable pub rename_to :
      String
      → Dict String ImapMailboxEntry
      → SetOutcome Value
      → String
      → String
      → Option String
      → Action (Ctx σ) (SetOutcome Value)
  unfolding ◌>>=◌ renamed_path trying on_server after_rename
  rename_to server_delimiter entry_by_name o mailbox_id old_name none =
      pure (accept mailbox_id null o)
  rename_to server_delimiter entry_by_name o mailbox_id old_name (some new_display_name) = do
    new_name ← lift (
        renamed_path (delimiter_of server_delimiter old_name entry_by_name) old_name
          new_display_name)
    outcome ← trying (on_server (req.imap.rename_folder old_name new_name))
    after_rename o mailbox_id new_name outcome

  -- The error of an update with properties that cannot be updated.
  abbrev pub unsupported_update : List String → MethodError
  unsupported_update props =
      invalid_properties ("unsupported mailbox update properties: " <> req.repr_list props) props

  abbrev pub update_named :
      String
      → Dict String ImapMailboxEntry
      → SetOutcome Value
      → String
      → UpdateProps
      → String
      → List String
      → Action (Ctx σ) (SetOutcome Value)
  update_named server_delimiter entry_by_name o mailbox_id props old_name [] =
      rename_to server_delimiter entry_by_name o mailbox_id old_name (given_text props.name)
  update_named server_delimiter entry_by_name o mailbox_id props old_name (p ∷ ps) =
      pure (refuse mailbox_id (unsupported_update (p ∷ ps)) o)

  abbrev pub update_decoded :
      String
      → Dict String ImapMailboxEntry
      → SetOutcome Value
      → String
      → UpdateProps
      → Option String
      → Action (Ctx σ) (SetOutcome Value)
  update_decoded server_delimiter entry_by_name o mailbox_id props none =
      pure (refuse mailbox_id (invalid_arguments "invalid id" []) o)
  update_decoded server_delimiter entry_by_name o mailbox_id props (some old_name) =
      update_named server_delimiter entry_by_name o mailbox_id props old_name
        (unsupported_props props.given)

  -- One round of the loop over `update`.
  unfoldable pub update_one :
      String
      → Dict String ImapMailboxEntry
      → SetOutcome Value
      → String × UpdateProps
      → Action (Ctx σ) (SetOutcome Value)
  unfolding unsupported_among rename_to
  update_one server_delimiter entry_by_name o (mailbox_id, props) c =
      update_decoded server_delimiter entry_by_name o mailbox_id props
        (decode_mailbox_id req.lib (resolve_id req c mailbox_id)) c

  -- What follows `conn.delete_folder`.
  abbrev pub after_delete : DestroyState → String → Result {0} Unit → Action (Ctx σ) DestroyState
  after_delete d mailbox_id (ok _) =
      pure (record d { destroyed = d.destroyed ++ (mailbox_id ∷ []) })
  after_delete d mailbox_id (err (imap_error message)) = pure (record d {
    not_destroyed = Dict.put mailbox_id (to_response (server_fail message)) d.not_destroyed;
  })
  after_delete d mailbox_id (err e) = raise e

  abbrev pub destroy_decoded : DestroyState → String → Option String → Action (Ctx σ) DestroyState
  destroy_decoded d mailbox_id none = pure (record d {
    not_destroyed =
        Dict.put mailbox_id (to_response (invalid_arguments "invalid id" [])) d.not_destroyed;
  })
  destroy_decoded d mailbox_id (some name) =
      trying (on_server (req.imap.delete_folder name)) >>= after_delete d mailbox_id

  -- One round of the loop over `destroy`.
  unfoldable pub destroy_one : DestroyState → String → Action (Ctx σ) DestroyState
  unfolding trying on_server ◌>>=◌
  destroy_one d mailbox_id c =
      destroy_decoded d mailbox_id (decode_mailbox_id req.lib (resolve_id req c mailbox_id)) c

  -- The sweep after the changes; it is not taken from the request cache.
  unfoldable pub final_sweep : Action σ (Dict String MailboxStatus)
  unfolding ◌>>=◌ list_selectable_mailboxes status_map
  final_sweep = do entries ← list_selectable_mailboxes req; status_map req entries

  unfoldable pub apply_set : SetArgs → String → List ImapMailboxEntry → Action (Ctx σ) SetResponse
  unfolding ◌>>=◌ for_each create_one update_one destroy_one on_server final_sweep dict_of
      encode_mail_state cursors_from_statuses
  apply_set args account_id entries = do
    created ← for_each (create_one (server_delimiter_of entries)) (create_start entries) args.create
    updated ←
        for_each (update_one (server_delimiter_of entries) created.entry_by_name) nothing_done
          args.update
    destroyed ← for_each destroy_one nothing_destroyed args.destroy
    statuses ← on_server final_sweep
    pure (record {
      account_id = account_id;
      new_state = encode_mail_state req.lib (cursors_from_statuses statuses);
      created = created.outcome;
      updated = updated;
      destroyed = destroyed;
    })

  unfoldable pub list_and_apply : SetArgs → String → Action (Ctx σ) SetResponse
  unfolding ◌>>=◌ on_server list_selectable_mailboxes apply_set
  list_and_apply args account_id = do
    entries ← on_server (req.imap.connect >> list_selectable_mailboxes req)
    apply_set args account_id entries

  unfoldable pub mailbox_set : SetArgs → Action (Ctx σ) SetResponse
  unfolding ◌>>=◌ require_account or_server_fail list_and_apply
  mailbox_set args = do
    account_id ← require_account req args.account_id
    or_server_fail (list_and_apply args account_id)
