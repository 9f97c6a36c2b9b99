-- ===== src/Emails/Query.antt =====
-- types/email.py: `Email/query`, with its values to sort by and its page.
pub mod Pages
mod Examples
use jmap_bridge.Base.{
  ℕ, zero, suc, ◌+◌, ◌-◌, String, Bool, true, false, Option, none, some, List, [], ◌∷◌, ◌++◌, map,
  length, leb, if◌then◌else◌, ◌==◌, contains, string_eq,
}
use jmap_bridge.Base.Dict
use jmap_bridge.Base.Dict.{Dict}
use jmap_bridge.Base.Int.{ℤ, pos, negsuc, pos_part, int_eq}
use jmap_bridge.Errors.{Result, ok, err, imap_error}
use jmap_bridge.Effects.{Action, pure, lift, trying, or_server_fail, ◌>>=◌, ◌>>◌}
use jmap_bridge.State.{encode_mail_state}
use jmap_bridge.Imap.{ImapMailboxEntry, parallel_map}
use jmap_bridge.Encoding.{decode_mailbox_id}
use jmap_bridge.Mailboxes.Sweeping.{
  cursors_from_statuses, cached_mail_sweep, list_selectable_mailboxes,
}
use jmap_bridge.Requests.{Request, Ctx, on_server, require_account}
use jmap_bridge.Emails.Ids.{encode_email_id}
use jmap_bridge.Emails.Filter.{
  Filter, condition, Criteria, Texts, flag_of, query_scope, build_search_criteria,
}
use jmap_bridge.Emails.Sort.{
  SortKey, Ordered, property_of, ascending_of, validate_sort, build_sort_criteria,
  sort_is_natively_supported, apply_sort,
}

-- The data of a FETCH that a sort reads. `V` has the values of every kind: dates, texts, sizes and
-- the two numbers of `hasKeyword`.
pub record Row (V : Type 0) : Type 0 where
  pub internal_date : Option V
  pub subject : Option V
  pub size : Option V
  pub flags : List String

abbrev pub no_data : {V : Type 0} → Row V
no_data = record { internal_date = none; subject = none; size = none; flags = [] }

-- How Python compares the values, and the numbers 1 and 0.
pub record SortValues (V : Type 0) : Type 0 where
  pub ordered : Ordered V
  pub bit : Bool → V

-- client.py: what is asked of the selected mailbox. `sort` raises an `ImapError` on a server
-- without the extension.
pub record Searches (σ V : Type 0) : Type 0 where
  pub search : Criteria → Action σ (List ℤ)
  pub sort : List String → Criteria → Action σ (List ℤ)
  pub fetch : List ℤ → List String → Action σ (Dict ℤ (Row V))

-- `_sort_fetch_items`, which keeps the order of its table.
abbrev pub fetch_item : String → String → List SortKey → List String → List String
fetch_item prop item sort items =
    if contains (map property_of sort) prop then item ∷ items else items

unfoldable pub sort_fetch_items : List SortKey → List String
sort_fetch_items sort =
    elim (fetch_item "receivedAt" "INTERNALDATE" sort (
      fetch_item "subject" "ENVELOPE" sort
        (fetch_item "size" "RFC822.SIZE" sort (fetch_item "hasKeyword" "FLAGS" sort [])))) [
          | [] ↦ "INTERNALDATE" ∷ []
          | item ∷ items ↦ item ∷ items
        ]

abbrev pub text_or_empty : Option String → String
text_or_empty none = ""
text_or_empty (some s) = s

module _ {V : Type 0} (upper : String → String) (values : SortValues V) where
  unfoldable pub sort_value : Row V → SortKey → Option V
  unfolding flag_of
  sort_value row k =
      if property_of k == "receivedAt"
      then row.internal_date
      else if property_of k == "subject"
      then row.subject
      else if property_of k == "size"
      then row.size
      else if property_of k == "hasKeyword"
      then some
          (values.bit (contains (map upper row.flags) (upper (flag_of (text_or_empty k.keyword)))))
      else none

-- `data.get(uid, {})`
abbrev pub row_of : {V : Type 0} → Dict ℤ (Row V) → ℤ → Row V
row_of fetched uid = elim (Dict.get uid fetched) [ none ↦ no_data | some row ↦ row ]

-- What the search of one mailbox found.
pub record Found (V : Type 0) : Type 0 where
  pub name : String
  pub uidvalidity : ℤ
  pub uids : List ℤ
  pub fetched : Dict ℤ (Row V)

-- A message among those of all mailboxes.
pub record Hit (V : Type 0) : Type 0 where
  pub name : String
  pub uidvalidity : ℤ
  pub uid : ℤ
  pub row : Row V

unfoldable pub hits_of : {V : Type 0} → List (Found V) → List (Hit V)
unfolding Dict.get
hits_of [] = []
hits_of (f ∷ found) =
    map
      (λ uid. record {
        name = f.name;
        uidvalidity = f.uidvalidity;
        uid = uid;
        row = row_of f.fetched uid;
      })
      f.uids
    ++ hits_of found

module _ {σ V : Type 0} (req : Request σ) (values : SortValues V) (searches : Searches σ V)
    (criteria : Criteria) (sort : List SortKey) where
  unfoldable pub sorted_uids_fallback : List ℤ → Action σ (List ℤ)
  unfolding ◌>>=◌ sort_value apply_sort sort_fetch_items Dict.get
  sorted_uids_fallback [] = pure []
  sorted_uids_fallback (uid ∷ uids) = do
    fetched ← searches.fetch (uid ∷ uids) (sort_fetch_items sort)
    pure (
        apply_sort values.ordered (λ u k. sort_value req.upper values (row_of fetched u) k)
          ascending_of sort (uid ∷ uids))

  unfoldable pub search_and_sort : Action σ (List ℤ)
  unfolding ◌>>=◌ sorted_uids_fallback
  search_and_sort = do uids ← searches.search criteria; sorted_uids_fallback uids

  -- `except ImapError`
  abbrev pub or_fallback : Result (List ℤ) → Action σ (List ℤ)
  or_fallback (err (imap_error message)) = search_and_sort
  or_fallback r = lift r

  unfoldable pub sorted_uids : Action σ (List ℤ)
  unfolding ◌>>=◌ search_and_sort trying build_sort_criteria sort_is_natively_supported
  sorted_uids =
      if sort_is_natively_supported sort
      then (do
        sort_criteria ← lift (build_sort_criteria req.repr sort)
        r ← trying (searches.sort sort_criteria criteria)
        or_fallback r)
      else search_and_sort

  unfoldable pub query_mailbox : String → Action σ (List String)
  unfolding ◌>>=◌ sorted_uids encode_email_id
  query_mailbox name = do
    status ← req.imap.select name
    uids ← sorted_uids
    pure (map (λ uid. encode_email_id req.lib name status.uidvalidity uid) uids)

  -- `await conn.fetch(uids, fetch_items) if uids else {}`
  abbrev pub fetch_some : List ℤ → Action σ (Dict ℤ (Row V))
  fetch_some [] = pure []
  fetch_some (uid ∷ uids) = searches.fetch (uid ∷ uids) (sort_fetch_items sort)

  unfoldable pub search_entry : ImapMailboxEntry → Action σ (Found V)
  unfolding ◌>>=◌
  search_entry e = do
    status ← req.imap.select e.name
    uids ← searches.search criteria
    fetched ← fetch_some uids
    pure
        (record { name = e.name; uidvalidity = status.uidvalidity; uids = uids; fetched = fetched })

  unfoldable pub cross_mailbox_query : Action σ (List String)
  unfolding ◌>>=◌ parallel_map search_entry hits_of sort_value apply_sort encode_email_id
  cross_mailbox_query = do
    entries ← list_selectable_mailboxes req
    found ← parallel_map req.imap search_entry req.pool_max entries
    pure (
        map (λ h. encode_email_id req.lib h.name h.uidvalidity h.uid)
          (apply_sort values.ordered (λ h k. sort_value req.upper values h.row k) ascending_of sort
            (hits_of found)))

  abbrev pub query_in : Option String → Action σ (List String)
  query_in none = cross_mailbox_query
  query_in (some name) = query_mailbox name

  unfoldable pub find_ids : Option String → Action (Ctx σ) (List String × String)
  unfolding ◌>>=◌ cross_mailbox_query query_mailbox on_server cached_mail_sweep encode_mail_state
      cursors_from_statuses
  find_ids mailbox = do
    ids ← on_server (req.imap.connect >> query_in mailbox)
    (_, statuses) ← cached_mail_sweep req
    pure (ids, encode_mail_state req.lib (cursors_from_statuses statuses))

unfoldable pub take : {A : Type 0} → ℕ → List A → List A
take zero xs = []
take (suc n) [] = []
take (suc n) (x ∷ xs) = x ∷ take n xs

unfoldable pub drop : {A : Type 0} → ℕ → List A → List A
drop zero xs = xs
drop (suc n) [] = []
drop (suc n) (x ∷ xs) = drop n xs

-- `position + limit` as the end of a slice: a negative one counts from the end of the list.
abbrev pub stop_at : ℕ → ℕ → ℤ → ℕ
stop_at size position (pos limit) = position + limit
stop_at size position (negsuc n) =
    if leb (suc n) position then position - suc n else size - (suc n - position)

unfoldable pub page : List String → ℕ → Option ℤ → List String
unfolding take drop
page ids position none = drop position ids
page ids position (some limit) =
    take (stop_at (length ids) position limit - position) (drop position ids)

pub record QueryArgs : Type 0 where
  pub account_id : Option String
  pub filter : Option Filter
  pub sort : Option (List SortKey)
  pub position : Option ℤ
  pub limit : Option ℤ

-- `canCalculateChanges` is always false.
pub record QueryResponse : Type 0 where
  pub account_id : String
  pub query_state : String
  pub position : ℕ
  pub ids : List String
  pub total : ℕ

-- `args.get("filter") or {}`
abbrev pub filter_or_empty : Option Filter → Filter
filter_or_empty (some f) = f
filter_or_empty none = condition (record {
  in_mailbox = none;
  has_keyword = none;
  not_keyword = none;
  subject = none;
  text = none;
  body = none;
  sender = none;
  to = none;
  cc = none;
  bcc = none;
  header = [];
  before = none;
  after = none;
  others = [];
})

abbrev pub sort_or_default : Option (List SortKey) → List SortKey
sort_or_default (some (k ∷ sort)) = k ∷ sort
sort_or_default _ =
    record { property = some "receivedAt"; is_ascending = some false; keyword = none } ∷ []

-- `max(args.get("position", 0), 0)`
abbrev pub position_of : Option ℤ → ℕ
position_of none = 0
position_of (some n) = pos_part n

abbrev pub paged_answer : String → Option ℤ → Option ℤ → List String → String → QueryResponse
paged_answer account_id position limit ids query_state = record {
  account_id = account_id;
  query_state = query_state;
  position = position_of position;
  ids = page ids (position_of position) limit;
  total = length ids;
}

module _ {σ V : Type 0} (req : Request σ) (py : Texts) (values : SortValues V)
    (searches : Searches σ V) where
  -- The account, the ids and the state, for an account, a filter and a sort.
  unfoldable pub find_query :
      Option String → Filter → List SortKey → Action (Ctx σ) (String × List String × String)
  unfolding ◌>>=◌ require_account or_server_fail find_ids query_scope build_search_criteria
      validate_sort
  find_query given filter sort = do
    account_id ← require_account req given
    mailbox ← lift (query_scope (decode_mailbox_id req.lib) filter)
    criteria ← lift (build_search_criteria py filter)
    lift (validate_sort req.repr sort)
    (ids, query_state) ← or_server_fail (find_ids req values searches criteria sort mailbox)
    pure (account_id, ids, query_state)

  unfoldable pub email_query : QueryArgs → Action (Ctx σ) QueryResponse
  unfolding ◌>>=◌ find_query page
  email_query args = do
    (account_id, ids, query_state) ←
        find_query args.account_id (filter_or_empty args.filter) (sort_or_default args.sort)
    pure (paged_answer account_id args.position args.limit ids query_state)
