-- ===== src/Emails/Changes/Arrived.antt =====
-- What `Email/changes` reports of one mailbox is what has happened to it.
use jmap_bridge.Base.{
  ℕ, ◌+◌, ◌≤◌, ◌≡◌, ◌⊎◌, refl, ap, ◌∙◌, String, Bool, true, false, List, [], ◌∷◌, ◌++◌, map, ◌==◌,
  length, length-map, length-append, arith, inl, inr, Bool-cases,
}
use jmap_bridge.Base.Int.{ℤ, pos, ltb_ℤ, int_eq}
use jmap_bridge.Errors.{ok}
use jmap_bridge.Effects.{◌>>=◌, lift, pure}
use jmap_bridge.Effects.Keeps.{Returns, >>=-Returns, >>=-Returns_of, Returns-by, Returns-mono}
use jmap_bridge.Snapshots.Mail.{MailboxCursor, verify_no_missing_destroys}
use jmap_bridge.Snapshots.Destroys.{
  surviving, NothingDestroyed, length-surviving, verify_iff,
  verify_no_missing_destroys-NothingDestroyed,
}
use jmap_bridge.Requests.{Request}
use jmap_bridge.Emails.Ids.{encode_email_id}
use jmap_bridge.Emails.Changes.{
  Arrivals, Reported, without_uids, new_uids_of, report, verify, ask_mailbox, compare_mailbox,
}

-- A search from the old UIDNEXT finds what arrived. Where nothing is left of it, `n:*` stands for
-- the last message, if there is one.
abbrev pub Answers : List ℕ → List ℤ → Type 0
Answers [] found = length found ≤ 1
Answers (uid ∷ uids) found = found ≡ map pos (uid ∷ uids)

-- What happened to a mailbox between the two cursors: of the messages that it had before, some are
-- kept; others arrived since and are still there.
pub record IsHistory (old new : MailboxCursor) (before arrived : List ℕ) (is_kept : ℕ → Bool)
    : Type 0 where
  pub was : old.exists ≡ pos (length before)
  pub now : new.exists ≡ pos (length (surviving is_kept before ++ arrived))
  pub no_arrival : ltb_ℤ old.uidnext new.uidnext ≡ false → arrived ≡ []

module _ (old new : MailboxCursor) (before arrived : List ℕ) (is_kept : ℕ → Bool)
    (h : IsHistory old new before arrived is_kept) where
  count_of :
      (k : ℕ)
      → verify_no_missing_destroys old new (pos k) ≡ true
      → length (surviving is_kept before ++ arrived) ≡ length before + k
  count_of k verified =
      (verify_iff old new (length before) (length (surviving is_kept before ++ arrived)) k h.was
          h.now).0
        verified

  -- Where the counts agree, the search has found exactly what arrived.
  found_lem :
      (ms : List ℕ) (found : List ℤ)
      → ms ≡ arrived
      → Answers ms found
      → verify_no_missing_destroys old new (pos (length found)) ≡ true
      → found ≡ map pos ms
  found_lem [] [] same answers verified = refl
  found_lem [] (uid ∷ found) same answers verified =
      let count = count_of (length (uid ∷ found)) verified in
      let size = length-append (surviving is_kept before) arrived in
      let few = length-surviving is_kept before in absurd (omega (arith, ap length same))
  found_lem (m ∷ ms) found same answers verified = answers

module _ {σ : Type 0} (req : Request σ) (arrivals : Arrivals σ) (name : String)
    (old new : MailboxCursor) (reported : Reported) (before arrived : List ℕ) (is_kept : ℕ → Bool)
    (touched : List ℤ) where
  -- The report has the ids of what arrived, and of what else was touched, and nothing is missing.
  pub record IsExact (r : Reported) : Type 0 where
    pub none_destroyed : NothingDestroyed is_kept before
    pub created :
        r.created
        ≡ reported.created
          ++ map (λ uid. encode_email_id req.lib name new.uidvalidity uid) (map pos arrived)
    pub updated :
        r.updated
        ≡ reported.updated
          ++ map
              (λ uid. encode_email_id req.lib name new.uidvalidity uid)
              (without_uids (map pos arrived) touched)

  IsExact-of :
      (found : List ℤ)
      → IsHistory old new before arrived is_kept
      → Answers arrived found
      → verify_no_missing_destroys old new (pos (length found)) ≡ true
      → IsExact (report req arrivals name new reported found touched)
  IsExact-of found h answers verified =
      let same = found_lem old new before arrived is_kept h arrived found refl answers verified in
      rw same (record {
        none_destroyed =
            (verify_no_missing_destroys-NothingDestroyed old new before arrived is_kept h.was
                h.now).0
              (rw (ap length same ∙ length-map pos arrived) at verified);
        created = refl;
        updated = refl;
      })

  verified-IsExact :
      (found : List ℤ) (s : σ)
      → IsHistory old new before arrived is_kept
      → Answers arrived found
      → Returns
          (λ r _. IsExact r)
          ((lift (verify req old new (pos (length found))) >>= λ _.
              pure (report req arrivals name new reported found touched))
            s)
  unfolding verify ◌>>=◌
  verified-IsExact found s h answers =
      elim (Bool-cases (verify_no_missing_destroys old new (pos (length found)))) [
        | inl b ↦ rw b (record { post = IsExact-of found h answers b })
        | inr b ↦ rw b (record { post = tt })
      ]

  module _ (h : IsHistory old new before arrived is_kept)
      (searched : (s t : σ) (found : List ℤ)
        → arrivals.search_from old.uidnext s ≡ (ok found, t)
        → Answers arrived found)
      (fetched : (s t : σ) (changed : List ℤ)
        → arrivals.fetch_changed_since old.highestmodseq s ≡ (ok changed, t)
        → changed ≡ touched) where
    new_uids_of-Answers :
        (s : σ) → Returns (λ found _. Answers arrived found) (new_uids_of req arrivals old new s)
    new_uids_of-Answers s = elim (Bool-cases (ltb_ℤ old.uidnext new.uidnext)) [
      | inl b ↦
          rw b (Returns-by (arrivals.search_from old.uidnext s) λ found t e. searched s t found e)
      | inr b ↦ rw (b, h.no_arrival b) (record { post = omega arith })
    ]

    ask_mailbox-IsExact :
        (s : σ) → Returns (λ r _. IsExact r) (ask_mailbox req arrivals name old new reported s)
    unfolding ask_mailbox
    ask_mailbox-IsExact s = >>=-Returns (req.imap.select name) _ s λ _ t _.
        >>=-Returns_of (new_uids_of req arrivals old new) _ t (new_uids_of-Answers t)
          λ found t' answers.
            >>=-Returns (arrivals.fetch_changed_since old.highestmodseq) _ t'
              λ changed t'' e. rw (fetched t' t'' changed e) (verified-IsExact found t'' h answers)

    -- The server keeps to the protocol, and the mailbox does not change between the sweep
    -- and the searches. If `Email/changes` gets past a mailbox, then either the mailbox's
    -- modification sequence has not moved and nothing is added, or no message was destroyed,
    -- the created ids that are added are those of exactly the messages that arrived, and the
    -- updated ids those of the other messages that were touched.
    pub compare_mailbox-IsExact :
        (s : σ)
        → Returns
            (λ r _. ((old.highestmodseq ≡ new.highestmodseq) × (r ≡ reported)) ⊎ IsExact r)
            (compare_mailbox req arrivals name old new reported s)
    unfolding compare_mailbox
    compare_mailbox-IsExact s = elim (Bool-cases (old.uidvalidity == new.uidvalidity)) [
      | inr b ↦ rw b (record { post = tt })
      | inl b ↦ elim (Bool-cases (old.highestmodseq == new.highestmodseq)) [
        | inl c ↦ rw (b, c) (record { post = inl (ground arith, refl) })
        | inr c ↦
            rw (b, c)
              (Returns-mono (ask_mailbox req arrivals name old new reported s) (λ _ _ x. inr x)
                (ask_mailbox-IsExact s))
      ]
    ]
