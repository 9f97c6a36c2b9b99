-- ===== src/Threads/Get/Members.antt =====
-- Tables of threads all of whose Emails belong to them.
use jmap_bridge.Base.{
  ◌≡◌, refl, String, Bool, true, false, Option, none, some, List, [], ◌∷◌, ◌++◌, ◌==◌, string_eq,
  All, All-append, arith, if◌then◌else◌,
}
use jmap_bridge.Base.Dict
use jmap_bridge.Base.Dict.{Dict, keys, put-All, get-All}
use jmap_bridge.Base.Int.{ℤ, int_eq}
use jmap_bridge.Encoding.{Bytes}
use jmap_bridge.Imap.{MailboxStatus}
use jmap_bridge.Requests.{Request}
use jmap_bridge.Emails.Ids.{encode_email_id}
use jmap_bridge.Threads.{ThreadHeaders}
use jmap_bridge.Threads.Get.{
  ThreadServer, or_no_emails, list_thread, add_to_thread, group_by_thread, find_threads, list_found,
  thread_of, matches_of, found_in, confirmed, note_thread,
}

abbrev pub IsStored : (String → ℤ → ℤ → Bytes → Type 0) → String → ℤ → ℤ × Option Bytes → Type 0
IsStored Stored name uidvalidity (uid, none) = Unit
IsStored Stored name uidvalidity (uid, some raw) = Stored name uidvalidity uid raw

module _ {σ : Type 0} (req : Request σ) (threads : ThreadServer σ)
    (parse_headers : Bytes → ThreadHeaders) (Stored : String → ℤ → ℤ → Bytes → Type 0) where
  -- The Email is one whose own headers give the thread's id.
  pub record IsMember (id email : String) : Type 0 where
    pub mailbox : String
    pub uidvalidity : ℤ
    pub uid : ℤ
    pub raw : Bytes
    pub stored : Stored mailbox uidvalidity uid raw
    pub is_email : email ≡ encode_email_id req.lib mailbox uidvalidity uid
    pub in_thread : thread_of req threads parse_headers mailbox uidvalidity uid raw ≡ id

  abbrev pub AreMembers : String × List String → Type 0
  AreMembers (id, emails) = All (IsMember id) emails

  abbrev pub IsMatch : String × String → Type 0
  IsMatch (id, email) = IsMember id email

  abbrev pub Table : Dict String (List String) → Type 0
  Table = All AreMembers

  or_no_emails-AreMembers :
      (d : Dict String (List String)) (id : String) (o : Option (List String))
      → Dict.get id d ≡ o
      → Table d
      → AreMembers (id, or_no_emails o)
  or_no_emails-AreMembers d id none e all = tt
  or_no_emails-AreMembers d id (some emails) e all = get-All AreMembers id emails d e all

  note_thread-Table :
      (d found : Dict String (List String)) (id : String) (o : Option (List String))
      → Dict.get id d ≡ o
      → Table d
      → Table found
      → Table (note_thread found id o)
  note_thread-Table d found id none e all all' = all'
  note_thread-Table d found id (some emails) e all all' =
      put-All AreMembers id emails found (get-All AreMembers id emails d e all) all'

  list_thread-All :
      (found : Dict String (List String)) (id : String) (o : Option (List String))
      (rest : List (String × List String))
      → Dict.get id found ≡ o
      → Table found
      → All AreMembers rest
      → All AreMembers (list_thread id o rest)
  list_thread-All found id none rest e all all' = all'
  list_thread-All found id (some emails) rest e all all' =
      (get-All AreMembers id emails found e all, all')

  add_to_thread-Table :
      (d : Dict String (List String)) (id email : String)
      → IsMember id email
      → Table d
      → Table (add_to_thread d id email)
  unfolding add_to_thread
  add_to_thread-Table d id email p all =
      let emails = or_no_emails (Dict.get id d) in
      put-All AreMembers id (emails ++ (email ∷ [])) d
        (All-append (IsMember id) emails (email ∷ [])
          (or_no_emails-AreMembers d id (Dict.get id d) refl all) (p, tt))
        all

  pub group_by_thread-Table :
      (found : List (String × String)) (d : Dict String (List String))
      → All IsMatch found
      → Table d
      → Table (group_by_thread found d)
  unfolding group_by_thread
  group_by_thread-Table [] d ms all = all
  group_by_thread-Table ((id, email) ∷ found) d (p, ms) all =
      group_by_thread-Table found (add_to_thread d id email) ms
        (add_to_thread-Table d id email p all)

  pub find_threads-Table :
      (by_thread : Dict String (List String)) (ids : List String)
      (found : Dict String (List String))
      → Table by_thread
      → Table found
      → Table (find_threads by_thread ids found)
  unfolding find_threads
  find_threads-Table by_thread [] found all all' = all'
  find_threads-Table by_thread (id ∷ ids) found all all' =
      find_threads-Table by_thread ids (note_thread found id (Dict.get id by_thread)) all
        (note_thread-Table by_thread found id (Dict.get id by_thread) refl all all')

  pub list_found-Table :
      (found : Dict String (List String)) (ids : List String)
      → Table found
      → All AreMembers (list_found found ids)
  unfolding list_found
  list_found-Table found [] all = tt
  list_found-Table found (id ∷ ids) all =
      list_thread-All found id (Dict.get id found) (list_found found ids) refl all
        (list_found-Table found ids all)

  member :
      (mailbox : String) (uidvalidity uid : ℤ) (raw : Bytes)
      → Stored mailbox uidvalidity uid raw
      → IsMember
          (thread_of req threads parse_headers mailbox uidvalidity uid raw)
          (encode_email_id req.lib mailbox uidvalidity uid)
  member mailbox uidvalidity uid raw stored = record {
    mailbox = mailbox;
    uidvalidity = uidvalidity;
    uid = uid;
    raw = raw;
    stored = stored;
    is_email = refl;
    in_thread = refl;
  }

  pub matches_of-All :
      (mailbox : String) (uidvalidity : ℤ) (fetched : Dict ℤ (Option Bytes))
      → All (IsStored Stored mailbox uidvalidity) fetched
      → All IsMatch (matches_of req threads parse_headers mailbox uidvalidity fetched)
  unfolding matches_of
  matches_of-All mailbox uidvalidity [] h = tt
  matches_of-All mailbox uidvalidity ((uid, none) ∷ fetched) (_, h) =
      matches_of-All mailbox uidvalidity fetched h
  matches_of-All mailbox uidvalidity ((uid, some raw) ∷ fetched) (stored, h) =
      (member mailbox uidvalidity uid raw stored, matches_of-All mailbox uidvalidity fetched h)

  abbrev pub IsResult : String × MailboxStatus × List (String × String) → Type 0
  IsResult (_, _, ms) = All IsMatch ms

  pub found_in-All :
      (results : List (String × MailboxStatus × List (String × String)))
      → All IsResult results
      → All IsMatch (found_in req threads parse_headers results)
  found_in-All [] h = tt
  found_in-All ((_, _, ms) ∷ results) (all, h) =
      All-append IsMatch ms (found_in req threads parse_headers results) all
        (found_in-All results h)

  abbrev pub FoundFor : String → Option (List String) → Type 0
  FoundFor id none = Unit
  FoundFor id (some emails) = AreMembers (id, emails)

  if_found :
      (id : String) (b : Bool) (emails : List String)
      → (b ≡ true → AreMembers (id, emails))
      → FoundFor id (if b then some emails else none)
  if_found id true emails h = h refl
  if_found id false emails h = tt

  pub confirmed-FoundFor :
      (id : String) (mailbox : String) (uidvalidity uid : ℤ) (d : Dict ℤ (Option Bytes))
      (o : Option (Option Bytes))
      → Dict.get uid d ≡ o
      → All (IsStored Stored mailbox uidvalidity) d
      → FoundFor id (confirmed req threads parse_headers id (mailbox, uidvalidity, uid) o)
  confirmed-FoundFor id mailbox uidvalidity uid d none e h = tt
  confirmed-FoundFor id mailbox uidvalidity uid d (some none) e h = tt
  confirmed-FoundFor id mailbox uidvalidity uid d (some (some raw)) e h =
      if_found id (thread_of req threads parse_headers mailbox uidvalidity uid raw == id)
        (encode_email_id req.lib mailbox uidvalidity uid ∷ [])
        λ b.
          let same : thread_of req threads parse_headers mailbox uidvalidity uid raw ≡ id =
            ground arith in
          (
            record {
              mailbox = mailbox;
              uidvalidity = uidvalidity;
              uid = uid;
              raw = raw;
              stored = get-All (IsStored Stored mailbox uidvalidity) uid (some raw) d e h;
              is_email = refl;
              in_thread = same;
            },
            tt,
          )

  pub note_found-Table :
      (found : Dict String (List String)) (id : String) (o : Option (List String))
      → Table found
      → FoundFor id o
      → Table (note_thread found id o)
  note_found-Table found id none all h = all
  note_found-Table found id (some emails) all h = put-All AreMembers id emails found h all
