-- ===== src/Mailboxes/Get.antt =====
-- `Mailbox/get`.
pub mod Partition
use jmap_bridge.Base.{
  ℕ, String, Bool, true, false, Option, none, some, List, [], ◌∷◌, ◌++◌, map, if◌then◌else◌,
  string_eq,
}
use jmap_bridge.Base.Dict
use jmap_bridge.Base.Dict.{Dict}
use jmap_bridge.Base.Int.{ℤ, pos}
use jmap_bridge.Json.{Value, null, num, str, Fields, end, field}
use jmap_bridge.Json.Object.{get, put}
use jmap_bridge.Errors.{Result, ok, err, failed}
use jmap_bridge.Effects.{Action, pure, gets, lift, or_server_fail, ◌>>=◌, ◌>>◌}
use jmap_bridge.Imap.{ImapServer, ImapMailboxEntry, MailboxStatus}
use jmap_bridge.Mailboxes.Mapping.{Mailbox, imap_list_to_jmap_mailboxes, mailbox_object}
use jmap_bridge.Mailboxes.Sweeping.{
  dict_of, cursors_from_statuses, list_selectable_mailboxes, status_and_unseen_map,
}
use jmap_bridge.Encoding.{encode_mailbox_id}
use jmap_bridge.State.{encode_mail_state}
use jmap_bridge.Requests.{Request, Ctx, on_server, require_account, resolve_id}

-- An object of a response beside its `id`.
abbrev pub Object : Type 0
Object = String × Fields

pub record GetArgs : Type 0 where
  pub account_id : Option String
  pub ids : Option (List String)
  pub properties : Option (List String)

pub record GetResponse : Type 0 where
  pub account_id : String
  pub state : String
  pub objects : List Object
  pub not_found : List String

-- The counts of a mailbox; a missing key is a `KeyError`.
abbrev pub mailbox_counts : Mailbox → Option MailboxStatus → Option ℕ → Result Object
mailbox_counts m (some status) (some unseen) = ok (
  m.id,
  put "unreadThreads" null (
      put "totalThreads" null (
        put "unreadEmails" (num (pos unseen))
          (put "totalEmails" (num status.exists) (mailbox_object m)))),
)
mailbox_counts m _ _ = err (failed "KeyError")

abbrev pub with_counts :
    Dict String MailboxStatus → Dict String ℕ → Mailbox → Option String → Result Object
with_counts statuses unseen m none = err (failed "KeyError")
with_counts statuses unseen m (some name) =
    mailbox_counts m (Dict.get name statuses) (Dict.get name unseen)

abbrev cons_result : Result Object → Result (List Object) → Result (List Object)
cons_result (err e) _ = err e
cons_result (ok o) (err e) = err e
cons_result (ok o) (ok os) = ok (o ∷ os)

-- The loop over `all_mailboxes`.
unfoldable pub add_counts :
    Dict String String
    → Dict String MailboxStatus
    → Dict String ℕ
    → List Mailbox
    → Result (List Object)
add_counts name_by_id statuses unseen [] = ok []
add_counts name_by_id statuses unseen (m ∷ mailboxes) =
    cons_result (with_counts statuses unseen m (Dict.get m.id name_by_id))
      (add_counts name_by_id statuses unseen mailboxes)

abbrev pub cons_found : String → Option Fields → List Object → List Object
cons_found i none rest = rest
cons_found i (some o) rest = (i, o) ∷ rest

-- `[by_id[i] for i in ids if i in by_id]`
unfoldable pub found_directly : Dict String Fields → List String → List Object
found_directly by_id [] = []
found_directly by_id (i ∷ ids) = cons_found i (Dict.get i by_id) (found_directly by_id ids)

-- One id of the loop over the ids: what it adds to `selected` and to `not_found`.
abbrev pub look_again :
    String → Option Fields → Option Fields → List Object × List String → List Object × List String
look_again i (some _) _ rest = rest
look_again i none (some o) (found, missing) = ((i, put "id" (str i) o) ∷ found, missing)
look_again i none none (found, missing) = (found, i ∷ missing)

unfoldable pub found_by_redirect :
    (String → String) → Dict String Fields → List String → List Object × List String
found_by_redirect resolve by_id [] = ([], [])
found_by_redirect resolve by_id (i ∷ ids) =
    look_again i (Dict.get i by_id) (Dict.get (resolve i) by_id)
      (found_by_redirect resolve by_id ids)

-- `selected` and `not_found`.
unfoldable pub select_ids :
    (String → String) → List Object → Option (List String) → List Object × List String
unfolding dict_of found_directly found_by_redirect
select_ids resolve all none = (all, [])
select_ids resolve all (some ids) =
    let by_id = dict_of all [] in
    let (again, missing) = found_by_redirect resolve by_id ids in
    (found_directly by_id ids ++ again, missing)

abbrev put_if : String → Option Value → Fields → Fields
put_if p none o = o
put_if p (some v) o = put p v o

-- `{p: m[p] for p in properties if p in m}`, after the id.
unfoldable pub pick : List String → Fields → Fields → Fields
unfolding get put
pick [] m picked = picked
pick (p ∷ properties) m picked = pick properties m (put_if p (get p m) picked)

unfoldable pub project : Option (List String) → List Object → List Object
unfolding pick
project none selected = selected
project (some properties) selected =
    map (λ (i, m). (i, pick properties m (field "id" (str i) end))) selected

-- `entries`, `statuses` and `unseen_counts`.
abbrev pub Swept : Type 0
Swept = List ImapMailboxEntry × Dict String MailboxStatus × Dict String ℕ

module _ {σ : Type 0} (req : Request σ) where
  unfoldable pub sweep_with_unseen : Action σ Swept
  unfolding ◌>>=◌ list_selectable_mailboxes status_and_unseen_map
  sweep_with_unseen = do
    req.imap.connect
    entries ← list_selectable_mailboxes req
    (statuses, unseen) ← status_and_unseen_map req entries
    pure (entries, statuses, unseen)

  unfoldable pub all_mailboxes : Swept → Result (List Object)
  unfolding add_counts dict_of imap_list_to_jmap_mailboxes
  all_mailboxes (entries, statuses, unseen) =
      add_counts (dict_of (map (λ e. (encode_mailbox_id req.lib e.name, e.name)) entries) [])
        statuses unseen (imap_list_to_jmap_mailboxes req.lib req.upper entries)

  -- What follows the counts: the ids of the request are looked up.
  unfoldable pub get_response : GetArgs → String → Swept → List Object → Action (Ctx σ) GetResponse
  unfolding select_ids project encode_mail_state cursors_from_statuses
  get_response args account_id (_, statuses, _) all c =
      let (selected, not_found) = select_ids (resolve_id req c) all args.ids in
      pure
        (record {
          account_id = account_id;
          state = encode_mail_state req.lib (cursors_from_statuses statuses);
          objects = project args.properties selected;
          not_found = not_found;
        })
        c

  unfoldable pub mailbox_get : GetArgs → Action (Ctx σ) GetResponse
  unfolding ◌>>=◌ require_account or_server_fail on_server sweep_with_unseen all_mailboxes
      get_response
  mailbox_get args = do
    account_id ← require_account req args.account_id
    swept ← or_server_fail (on_server (sweep_with_unseen))
    all ← lift (all_mailboxes swept)
    get_response args account_id swept all
