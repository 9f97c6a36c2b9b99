-- ===== src/Threads/Get/Found.antt =====
-- What `Thread/get` lists under a thread belongs to it.
use jmap_bridge.Base.{
  ◌≡◌, refl, String, none, List, [], ◌∷◌, map, ◌==◌, string_eq, All, arith, inl, inr, Bool-cases,
}
use jmap_bridge.Base.Dict
use jmap_bridge.Base.Dict.{Dict, keys, put-All, get-All}
use jmap_bridge.Base.Int.{ℤ, int_eq}
use jmap_bridge.Errors.{Result, ok, err, raised, imap_error, dav_error, failed}
use jmap_bridge.Effects.{pure, lift, trying, for_each, or_server_fail}
use jmap_bridge.Effects.Keeps.{
  Returns, >>=-Returns, >>=-Returns_of, trying-Returns, for_each-Returns, or_server_fail-Returns,
}
use jmap_bridge.Encoding.{Bytes}
use jmap_bridge.Imap.{ImapMailboxEntry, MailboxStatus, parallel_map}
use jmap_bridge.Requests.{Request, Ctx, on_server, get_or_compute, require_account}
use jmap_bridge.Emails.Filter.{Criteria}
use jmap_bridge.Context.{connection_chunks}
use jmap_bridge.Mailboxes.Sweeping.{list_selectable_mailboxes, cached_mail_sweep}
use jmap_bridge.Threads.{ThreadHeaders}
use jmap_bridge.Threads.Criteria.{build_or_criteria}
use jmap_bridge.Threads.Get.{
  ThreadServer, ThreadGetArgs, Bases, fetch_found, search_one_mailbox, found_in,
  resolve_header_based_threads, look_at, resolve_location_thread, find_location, required_ids,
  find_in_headers, find_all, bases_of, thread_get,
}
use jmap_bridge.Imap.Keeps.{run_chunks-All}
use jmap_bridge.Requests.Keeps.{on_server-Returns}
use jmap_bridge.Threads.Get.Members.{
  IsStored, IsMember, IsMatch, Table, group_by_thread-Table, find_threads-Table, list_found-Table,
  matches_of-All, IsResult, found_in-All, FoundFor, confirmed-FoundFor, note_found-Table,
}

-- What a server promises, for a predicate that says which header block each message has, and one
-- that says which mailbox is selected: a fetch gives the messages of the selected mailbox.
pub record IsHonest {σ : Type 0} (req : Request σ) (threads : ThreadServer σ)
    (Stored : String → ℤ → ℤ → Bytes → Type 0) (Selected : String → ℤ → σ → Type 0) : Type 0 where
  pub selects :
      (name : String) (s : σ)
      → Returns (λ status t. Selected name status.uidvalidity t) (req.imap.select name s)
  pub searches :
      (criteria : Criteria) (name : String) (uidvalidity : ℤ) (s : σ)
      → Selected name uidvalidity s
      → Returns (λ _ t. Selected name uidvalidity t) (threads.search criteria s)
  pub fetches :
      (uids : List ℤ) (name : String) (uidvalidity : ℤ) (s : σ)
      → Selected name uidvalidity s
      → Returns
          (λ fetched _. All (IsStored Stored name uidvalidity) fetched)
          (threads.fetch_headers uids s)

module _ {σ : Type 0} (req : Request σ) (threads : ThreadServer σ)
    (parse_headers : Bytes → ThreadHeaders) (Stored : String → ℤ → ℤ → Bytes → Type 0)
    (Selected : String → ℤ → σ → Type 0) (honest : IsHonest req threads Stored Selected) where
  fetch_found-All :
      (mailbox : String) (uidvalidity : ℤ) (uids : List ℤ) (s : σ)
      → Selected mailbox uidvalidity s
      → Returns
          (λ ms _. All (IsMatch req threads parse_headers Stored) ms)
          (fetch_found req threads parse_headers mailbox uidvalidity uids s)
  fetch_found-All mailbox uidvalidity [] s here = record { post = tt }
  fetch_found-All mailbox uidvalidity (uid ∷ uids) s here =
      >>=-Returns_of (threads.fetch_headers (uid ∷ uids)) _ s
        (honest.fetches (uid ∷ uids) mailbox uidvalidity s here)
        λ fetched t h. record {
          post = matches_of-All req threads parse_headers Stored mailbox uidvalidity fetched h;
        }

  search_one_mailbox-IsResult :
      (criteria : Criteria) (e : ImapMailboxEntry) (s : σ)
      → Returns
          (λ r _. IsResult req threads parse_headers Stored r)
          (search_one_mailbox req threads parse_headers criteria e s)
  unfolding search_one_mailbox
  search_one_mailbox-IsResult criteria e s =
      >>=-Returns_of (req.imap.select e.name) _ s (honest.selects e.name s) λ status t here.
        >>=-Returns_of (threads.search criteria) _ t
          (honest.searches criteria e.name status.uidvalidity t here)
          λ uids u here'.
            >>=-Returns_of (fetch_found req threads parse_headers e.name status.uidvalidity uids) _
              u (fetch_found-All e.name status.uidvalidity uids u here')
              λ ms v all. record { post = all }

  resolve_header_based_threads-Table :
      (values : List String) (s : σ)
      → Returns
          (λ r _. Table req threads parse_headers Stored r.0)
          (resolve_header_based_threads req threads parse_headers values s)
  unfolding resolve_header_based_threads parallel_map
  resolve_header_based_threads-Table values s =
      >>=-Returns (list_selectable_mailboxes req) _ s λ entries t _.
        >>=-Returns (lift (build_or_criteria values)) _ t λ criteria u _.
          >>=-Returns_of
            (parallel_map req.imap (search_one_mailbox req threads parse_headers criteria)
              req.pool_max entries)
            _ u
            (run_chunks-All req.imap (search_one_mailbox req threads parse_headers criteria)
              (IsResult req threads parse_headers Stored) (search_one_mailbox-IsResult criteria)
              (connection_chunks req.pool_max none entries) u)
            λ results v all. record {
              post =
                  group_by_thread-Table req threads parse_headers Stored
                    (found_in req threads parse_headers results) []
                    (found_in-All req threads parse_headers Stored results all) tt;
            }

  look_at-FoundFor :
      (id mailbox : String) (uidvalidity uid : ℤ) (r : Result MailboxStatus) (s : σ)
      → ((status : MailboxStatus) → r ≡ ok status → Selected mailbox status.uidvalidity s)
      → Returns
          (λ o _. FoundFor req threads parse_headers Stored id o)
          (look_at req threads parse_headers id (mailbox, uidvalidity, uid) r s)
  look_at-FoundFor id mailbox uidvalidity uid (err (imap_error m)) s here = record { post = tt }
  look_at-FoundFor id mailbox uidvalidity uid (err (raised e)) s here = record { post = tt }
  look_at-FoundFor id mailbox uidvalidity uid (err (dav_error m)) s here = record { post = tt }
  look_at-FoundFor id mailbox uidvalidity uid (err (failed m)) s here = record { post = tt }
  look_at-FoundFor id mailbox uidvalidity uid (ok status) s here =
      elim (Bool-cases (status.uidvalidity == uidvalidity)) [
        | inr b ↦ rw b (record { post = tt })
        | inl b ↦
            let same : status.uidvalidity ≡ uidvalidity = ground arith in
            let there = here status refl in
            rw b (
              >>=-Returns_of (threads.fetch_headers (uid ∷ [])) _ s
                (honest.fetches (uid ∷ []) mailbox uidvalidity s (rw same at there))
                λ fetched t h. record {
                  post =
                      confirmed-FoundFor req threads parse_headers Stored id mailbox uidvalidity uid
                        fetched (Dict.get uid fetched) refl h;
                })
      ]

  resolve_location_thread-FoundFor :
      (id mailbox : String) (uidvalidity uid : ℤ) (s : σ)
      → Returns
          (λ o _. FoundFor req threads parse_headers Stored id o)
          (resolve_location_thread req threads parse_headers id (mailbox, uidvalidity, uid) s)
  unfolding resolve_location_thread
  resolve_location_thread-FoundFor id mailbox uidvalidity uid s =
      >>=-Returns_of (trying (req.imap.select mailbox)) _ s
        (trying-Returns (req.imap.select mailbox) s (honest.selects mailbox s))
        λ r t here. look_at-FoundFor id mailbox uidvalidity uid r t here

  find_location-Table :
      (found : Dict String (List String)) (l : String × (String × ℤ × ℤ)) (s : σ)
      → Table req threads parse_headers Stored found
      → Returns
          (λ found' _. Table req threads parse_headers Stored found')
          (find_location req threads parse_headers found l s)
  unfolding find_location
  find_location-Table found (id, (mailbox, uidvalidity, uid)) s all =
      >>=-Returns_of
        (resolve_location_thread req threads parse_headers id (mailbox, uidvalidity, uid)) _ s
        (resolve_location_thread-FoundFor id mailbox uidvalidity uid s)
        λ o t h. record {
          post = note_found-Table req threads parse_headers Stored found id o all h;
        }

  find_in_headers-Table :
      (bases : Dict String String) (c : Ctx σ)
      → Returns
          (λ found _. Table req threads parse_headers Stored found)
          (find_in_headers req threads parse_headers bases c)
  find_in_headers-Table [] c = record { post = tt }
  find_in_headers-Table (b ∷ bs) c =
      let values = req.enumerate_set (map (λ (_, v). v) (b ∷ bs)) in
      >>=-Returns_of (on_server (resolve_header_based_threads req threads parse_headers values)) _ c
        (on_server-Returns (resolve_header_based_threads req threads parse_headers values) c
          (resolve_header_based_threads-Table values c.server))
        λ (by_thread, sweep) t all. >>=-Returns (get_or_compute (pure sweep)) _ t λ _ u _. record {
          post =
              find_threads-Table req threads parse_headers Stored by_thread (keys (b ∷ bs)) [] all
                tt;
        }

  find_all-Table :
      (bases : Bases) (c : Ctx σ)
      → Returns
          (λ r _. Table req threads parse_headers Stored r.0)
          (find_all req threads parse_headers bases c)
  unfolding find_all
  find_all-Table bases c = >>=-Returns (on_server (req.imap.connect)) _ c λ _ t _.
      >>=-Returns_of (find_in_headers req threads parse_headers bases.headers) _ t
        (find_in_headers-Table bases.headers t)
        λ by_headers u all.
          >>=-Returns_of
            (on_server
              (for_each (find_location req threads parse_headers) by_headers bases.locations))
            _ u
            (on_server-Returns
              (for_each (find_location req threads parse_headers) by_headers bases.locations) u
              (for_each-Returns (find_location req threads parse_headers)
                (λ found _. Table req threads parse_headers Stored found)
                (λ found l _ s all'. find_location-Table found l s all') by_headers bases.locations
                u.server all))
            λ found v all'.
              >>=-Returns (cached_mail_sweep req) _ v λ swept w _. record { post = all' }

  -- On a server that keeps to the protocol, whatever its searches find: every Email that
  -- `Thread/get` lists under a thread is a message of that server whose own headers give exactly
  -- the thread's id.
  pub thread_get-AreMembers :
      (args : ThreadGetArgs) (c : Ctx σ)
      → Returns
          (λ r _.
            All
              (λ (id, emails). All (IsMember req threads parse_headers Stored id) emails)
              r.threads)
          (thread_get req threads parse_headers args c)
  unfolding thread_get
  thread_get-AreMembers args c =
      >>=-Returns (require_account req args.account_id) _ c λ account_id t _.
        >>=-Returns (lift (required_ids req threads parse_headers args.ids)) _ t λ ids u _.
          let bases =
            bases_of req threads parse_headers ids (record { headers = []; locations = [] }) in
          >>=-Returns_of (or_server_fail (find_all req threads parse_headers bases)) _ u
            (or_server_fail-Returns (find_all req threads parse_headers bases) u
              (find_all-Table bases u))
            λ (found, state) v all. record {
              post = list_found-Table req threads parse_headers Stored found ids all;
            }
