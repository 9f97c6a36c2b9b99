-- ===== src/Threads/Get.antt =====
-- types/thread.py: `Thread/get` and `Thread/changes`.
pub mod Members
pub mod Found
use jmap_bridge.Base.{
  String, Bool, Option, none, some, List, [], ◌∷◌, ◌++◌, map, ◌==◌, string_eq, if◌then◌else◌,
}
use jmap_bridge.Base.Dict
use jmap_bridge.Base.Dict.{Dict, keys}
use jmap_bridge.Base.Int.{ℤ, int_eq}
use jmap_bridge.Errors.{
  Result, ok, err, raised, imap_error, invalid_arguments, cannot_calculate_changes,
}
use jmap_bridge.Effects.{Action, pure, raise, lift, trying, for_each, or_server_fail, ◌>>=◌, ◌>>◌}
use jmap_bridge.Encoding.{Bytes}
use jmap_bridge.Imap.{ImapMailboxEntry, MailboxStatus, parallel_map}
use jmap_bridge.State.{encode_mail_state}
use jmap_bridge.Mailboxes.Sweeping.{
  dict_of, cursors_from_statuses, list_selectable_mailboxes, cached_mail_sweep,
}
use jmap_bridge.Mailboxes.Changes.{ChangesArgs, required}
use jmap_bridge.Requests.{Request, Sweep, Ctx, on_server, get_or_compute, require_account}
use jmap_bridge.Emails.Filter.{Criteria}
use jmap_bridge.Emails.Ids.{encode_email_id}
use jmap_bridge.Threads.{
  ThreadHeaders, Basis, in_headers, at_location, derive_thread_id, decode_thread_id, location_of,
  fallback_of,
}
use jmap_bridge.Threads.Criteria.{build_or_criteria}

-- client.py: the searches and fetches of threads. A fetched message has its header block where the
-- server gives one.
pub record ThreadServer (σ : Type 0) : Type 0 where
  pub search : Criteria → Action σ (List ℤ)
  pub fetch_headers : List ℤ → Action σ (Dict ℤ (Option Bytes))

pub record ThreadGetArgs : Type 0 where
  pub account_id : Option String
  pub ids : Option (List String)

-- `list` pairs a thread's id with the ids of its Emails.
pub record ThreadGetResponse : Type 0 where
  pub account_id : String
  pub state : String
  pub threads : List (String × List String)
  pub not_found : List String

-- `header_basis` and `location_basis`.
pub record Bases : Type 0 where
  pub headers : Dict String String
  pub locations : Dict String (String × ℤ × ℤ)

abbrev pub or_no_emails : Option (List String) → List String
or_no_emails none = []
or_no_emails (some emails) = emails

-- `emails_by_thread[thread_id].append(email_id)`
unfoldable pub add_to_thread :
    Dict String (List String) → String → String → Dict String (List String)
add_to_thread by_thread thread_id email_id =
    Dict.put thread_id (or_no_emails (Dict.get thread_id by_thread) ++ (email_id ∷ [])) by_thread

abbrev pub note_thread :
    Dict String (List String) → String → Option (List String) → Dict String (List String)
note_thread found id none = found
note_thread found id (some emails) = Dict.put id emails found

unfoldable pub group_by_thread :
    List (String × String) → Dict String (List String) → Dict String (List String)
unfolding add_to_thread
group_by_thread [] by_thread = by_thread
group_by_thread ((thread_id, email_id) ∷ found) by_thread =
    group_by_thread found (add_to_thread by_thread thread_id email_id)

-- `for thread_id in header_basis: if thread_id in by_thread: found[thread_id] = …`
unfoldable pub find_threads :
    Dict String (List String) → List String → Dict String (List String) → Dict String (List String)
find_threads by_thread [] found = found
find_threads by_thread (id ∷ ids) found =
    find_threads by_thread ids (note_thread found id (Dict.get id by_thread))

abbrev pub list_thread :
    String → Option (List String) → List (String × List String) → List (String × List String)
list_thread id none rest = rest
list_thread id (some emails) rest = (id, emails) ∷ rest

-- `[{"id": tid, "emailIds": found[tid]} for tid in ids if tid in found]`
unfoldable pub list_found : Dict String (List String) → List String → List (String × List String)
list_found found [] = []
list_found found (id ∷ ids) = list_thread id (Dict.get id found) (list_found found ids)

-- `[tid for tid in ids if tid not in found]`
unfoldable pub list_missing : Dict String (List String) → List String → List String
list_missing found [] = []
list_missing found (id ∷ ids) =
    let rest = list_missing found ids in if Dict.has id found then rest else id ∷ rest

module _ {σ : Type 0} (req : Request σ) (threads : ThreadServer σ)
    (parse_headers : Bytes → ThreadHeaders) where
  abbrev pub with_basis : String → Option Basis → Bases → Bases
  with_basis id none bases = bases
  with_basis id (some (in_headers basis)) bases = record bases {
    headers = Dict.put id basis bases.headers;
  }
  with_basis id (some (at_location basis)) bases = elim (location_of req.lib basis) [
    | none ↦ bases
    | some location ↦ record bases { locations = Dict.put id location bases.locations }
  ]

  -- The loop over `ids`.
  unfoldable pub bases_of : List String → Bases → Bases
  unfolding decode_thread_id location_of
  bases_of [] bases = bases
  bases_of (id ∷ ids) bases = bases_of ids (with_basis id (decode_thread_id req.lib id) bases)

  -- The thread's id of a message, from its headers.
  unfoldable pub thread_of : String → ℤ → ℤ → Bytes → String
  unfolding derive_thread_id
  thread_of mailbox uidvalidity uid raw =
      derive_thread_id req.lib (parse_headers raw) (fallback_of req.show mailbox uidvalidity uid)

  -- The thread's id and the Email's id of each fetched message that has headers.
  unfoldable pub matches_of : String → ℤ → Dict ℤ (Option Bytes) → List (String × String)
  unfolding thread_of encode_email_id
  matches_of mailbox uidvalidity [] = []
  matches_of mailbox uidvalidity ((uid, none) ∷ fetched) = matches_of mailbox uidvalidity fetched
  matches_of mailbox uidvalidity ((uid, some raw) ∷ fetched) =
      (thread_of mailbox uidvalidity uid raw, encode_email_id req.lib mailbox uidvalidity uid)
      ∷ matches_of mailbox uidvalidity fetched

  abbrev pub fetch_found : String → ℤ → List ℤ → Action σ (List (String × String))
  fetch_found mailbox uidvalidity [] = pure []
  fetch_found mailbox uidvalidity (uid ∷ uids) = do
    fetched ← threads.fetch_headers (uid ∷ uids)
    pure (matches_of mailbox uidvalidity fetched)

  unfoldable pub search_one_mailbox :
      Criteria → ImapMailboxEntry → Action σ (String × MailboxStatus × List (String × String))
  unfolding ◌>>=◌ matches_of
  search_one_mailbox criteria e = do
    status ← req.imap.select e.name
    uids ← threads.search criteria
    found ← fetch_found e.name status.uidvalidity uids
    pure (e.name, status, found)

  abbrev pub found_in :
      List (String × MailboxStatus × List (String × String)) → List (String × String)
  found_in [] = []
  found_in ((_, _, found) ∷ results) = found ++ found_in results

  unfoldable pub resolve_header_based_threads :
      List String → Action σ (Dict String (List String) × Sweep)
  unfolding ◌>>=◌ build_or_criteria list_selectable_mailboxes parallel_map search_one_mailbox
      group_by_thread dict_of
  resolve_header_based_threads basis_values = do
    entries ← list_selectable_mailboxes req
    criteria ← lift (build_or_criteria basis_values)
    results ← parallel_map req.imap (search_one_mailbox criteria) req.pool_max entries
    pure (
      group_by_thread (found_in results) [],
      (entries, dict_of (map (λ (name, status, _). (name, status)) results) []),
    )

  -- The Email of a location, where its headers still give the thread's id.
  abbrev pub confirmed : String → String × ℤ × ℤ → Option (Option Bytes) → Option (List String)
  confirmed id (mailbox, uidvalidity, uid) (some (some raw)) =
      if thread_of mailbox uidvalidity uid raw == id
      then some (encode_email_id req.lib mailbox uidvalidity uid ∷ [])
      else none
  confirmed id location _ = none

  abbrev pub look_at :
      String → String × ℤ × ℤ → Result MailboxStatus → Action σ (Option (List String))
  look_at id location (err (imap_error message)) = pure none
  look_at id location (err e) = raise e
  look_at id (mailbox, uidvalidity, uid) (ok status) =
      if status.uidvalidity == uidvalidity
      then (do
        fetched ← threads.fetch_headers (uid ∷ [])
        pure (confirmed id (mailbox, uidvalidity, uid) (Dict.get uid fetched)))
      else pure none

  unfoldable pub resolve_location_thread : String → String × ℤ × ℤ → Action σ (Option (List String))
  unfolding ◌>>=◌ trying thread_of encode_email_id
  resolve_location_thread id (mailbox, uidvalidity, uid) =
      trying (req.imap.select mailbox) >>= look_at id (mailbox, uidvalidity, uid)

  -- One round of the loop over `location_basis`.
  unfoldable pub find_location :
      Dict String (List String) → String × (String × ℤ × ℤ) → Action σ (Dict String (List String))
  unfolding ◌>>=◌ resolve_location_thread
  find_location found (id, location) = do
    emails ← resolve_location_thread id location
    pure (note_thread found id emails)

  -- `if header_basis:`
  abbrev pub find_in_headers : Dict String String → Action (Ctx σ) (Dict String (List String))
  find_in_headers [] = pure []
  find_in_headers (b ∷ bs) = do
    (by_thread, sweep) ←
        on_server (resolve_header_based_threads (req.enumerate_set (map (λ (_, v). v) (b ∷ bs))))
    get_or_compute (pure sweep)
    pure (find_threads by_thread (keys (b ∷ bs)) [])

  unfoldable pub find_all : Bases → Action (Ctx σ) (Dict String (List String) × String)
  unfolding ◌>>=◌ on_server get_or_compute resolve_header_based_threads find_threads for_each
      find_location cached_mail_sweep encode_mail_state cursors_from_statuses
  find_all bases = do
    on_server (req.imap.connect)
    by_headers ← find_in_headers bases.headers
    found ← on_server (for_each find_location by_headers bases.locations)
    (_, statuses) ← cached_mail_sweep req
    pure (found, encode_mail_state req.lib (cursors_from_statuses statuses))

  abbrev pub required_ids : Option (List String) → Result (List String)
  required_ids none = err (raised (invalid_arguments "ids is required" []))
  required_ids (some ids) = ok ids

  unfoldable pub thread_get : ThreadGetArgs → Action (Ctx σ) ThreadGetResponse
  unfolding ◌>>=◌ require_account or_server_fail bases_of find_all list_found list_missing
  thread_get args = do
    account_id ← require_account req args.account_id
    ids ← lift (required_ids args.ids)
    (found, state) ←
        or_server_fail (find_all (bases_of ids (record { headers = []; locations = [] })))
    pure (record {
      account_id = account_id;
      state = state;
      threads = list_found found ids;
      not_found = list_missing found ids;
    })

  -- It never has an answer.
  unfoldable pub thread_changes : ChangesArgs → Action (Ctx σ) (Unit {0})
  unfolding ◌>>=◌ require_account
  thread_changes args = do
    require_account req args.account_id
    lift (required args.since_state)
    raise (
        raised (
          cannot_calculate_changes
            "Thread/changes depends on Email/changes, which requires QRESYNC VANISHED support not yet implemented - client should fall back to a full resync"))
