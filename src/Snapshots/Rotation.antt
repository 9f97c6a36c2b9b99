-- ===== src/Snapshots/Rotation.antt =====
-- What the comparison of two snapshots of the mailboxes reports, and when it is refused.
use jmap_bridge.Base.{
  String, ◌≡◌, refl, sym, ap, ◌∙◌, Bool, true, false, some, List, [], ◌∷◌, ◌++◌, if◌then◌else◌,
  ◌&&◌, ◌||◌, arith, contains, inl, inr, Bool-cases, Option-cases, ==_refl,
}
use jmap_bridge.Base.{◌==◌, string_eq}
use jmap_bridge.Base.Dict
use jmap_bridge.Base.Dict.{Dict, keys}
use jmap_bridge.Base.Int.{int_eq}
use jmap_bridge.Snapshots.{absent, shared}
use jmap_bridge.Snapshots.Mail.{
  MailboxCursor, Diff, changes, rotated, key_error, compare_cursors, diff_mailbox_state,
}
use jmap_bridge.Snapshots.WebDav.{is_changed}
use jmap_bridge.Snapshots.Reports.{
  IsReport, Enumerates, contains-keys, contains-absent, contains-shared, shared_changed,
}

abbrev pub same_modseq : MailboxCursor → MailboxCursor → Bool
same_modseq a b = a.highestmodseq == b.highestmodseq

abbrev pub same_uidvalidity : MailboxCursor → MailboxCursor → Bool
same_uidvalidity a b = a.uidvalidity == b.uidvalidity

module _ (old new : Dict String MailboxCursor) where
  abbrev Rotated : String → Type 0
  Rotated x = is_changed same_uidvalidity (Dict.get x new) (Dict.get x old) ≡ true

  abbrev Kept : String → Type 0
  Kept x = is_changed same_uidvalidity (Dict.get x new) (Dict.get x old) ≡ false

  -- A diff is a right report, and then no mailbox that is in both has another UIDVALIDITY; or it
  -- names a mailbox that has.
  abbrev pub IsRight : Diff → Type 0
  IsRight (changes c) = IsReport same_modseq old new c × ((x : String) → Kept x)
  IsRight (rotated name _ _) = Rotated name
  IsRight (key_error name) = ⊥

  -- What the loop has done when it ends.
  abbrev Compared : List String → List String → List String → List String → Diff → Type 0
  Compared created destroyed updated names (changes c) =
      (c.created ≡ created)
      × (c.destroyed ≡ destroyed)
      × ((x : String)
          → contains c.updated x ≡ (
              contains updated x
              || contains names x && is_changed same_modseq (Dict.get x new) (Dict.get x old)))
      × ((x : String) → contains names x ≡ true → Kept x)
  Compared created destroyed updated names (rotated name _ _) = Rotated name
  Compared created destroyed updated names (key_error name) = ⊥

  contains-append :
      (xs : List String) (y x : String) → contains (xs ++ (y ∷ [])) x ≡ (contains xs x || y == x)
  contains-append [] y x = ground arith
  contains-append (z ∷ xs) y x = ground (arith, contains-append xs y x)

  -- One more mailbox in front, with the same UIDVALIDITY.
  Compared-step :
      (created destroyed updated names : List String) (name : String) (n o : MailboxCursor)
      (d : Diff)
      → Dict.get name new ≡ some n
      → Dict.get name old ≡ some o
      → same_uidvalidity n o ≡ true
      → Compared created destroyed
          (if same_modseq n o then updated else updated ++ (name ∷ []))
          names
          d
      → Compared created destroyed updated (name ∷ names) d
  Compared-step created destroyed updated names name n o (changes c) pn po b (p, q, r, s) = (
    p,
    q,
    λ x. elim (string_eq.dec x name) [
      | yes e ↦ rw e (ground (arith, r name, contains-append updated name name))
      | no ne ↦ ground (arith, r x, contains-append updated name x)
    ],
    λ x m. elim (string_eq.dec x name) [ yes e ↦ rw e (ground arith) | no ne ↦ s x (ground arith) ],
  )
  Compared-step created destroyed updated names name n o (rotated x k j) pn po b h = h
  Compared-step created destroyed updated names name n o (key_error x) pn po b h = h

  compare_cursors-Compared :
      (created destroyed updated names : List String)
      → ((x : String) → contains names x ≡ true → (Dict.has x new && Dict.has x old) ≡ true)
      → Compared created destroyed updated names
          (compare_cursors old new created destroyed updated names)
  unfolding compare_cursors Dict.has
  compare_cursors-Compared created destroyed updated [] h =
      (refl, refl, λ x. ground arith, λ x m. ground arith)
  compare_cursors-Compared created destroyed updated (name ∷ names) h =
      let known = h name (ground (arith, ==_refl name)) in
      elim (Option-cases (Dict.get name new)) [
        | inl pn ↦ absurd (ground arith)
        | inr (n, pn) ↦ elim (Option-cases (Dict.get name old)) [
          | inl po ↦ absurd (ground arith)
          | inr (o, po) ↦
              rw (pn, po, compare_cursors)
                (elim (Bool-cases (same_uidvalidity n o)) [
                  | inl b ↦ rw b (
                      Compared-step created destroyed updated names name n o _ pn po b (
                        compare_cursors-Compared created destroyed
                          (if same_modseq n o then updated else updated ++ (name ∷ [])) names
                          (λ x m. h x (ground arith))))
                  | inr b ↦ rw b (ground arith)
                ])
        ]
      ]

module _ (f : List String → List String) (enumerates : Enumerates f) where
  shared_known :
      (old new : Dict String MailboxCursor) (x : String)
      → contains (shared f old new) x ≡ true
      → (Dict.has x new && Dict.has x old) ≡ true
  shared_known old new x h = sym (contains-shared f enumerates old new x) ∙ h

  unshared_kept :
      (old new : Dict String MailboxCursor) (x : String)
      → contains (shared f old new) x ≡ false
      → is_changed same_uidvalidity (Dict.get x new) (Dict.get x old) ≡ false
  unfolding Dict.has
  unshared_kept old new x m = ground (arith, contains-shared f enumerates old new x)

  compared :
      (old new : Dict String MailboxCursor) (d : Diff)
      → Compared old new (absent old (keys new)) (absent new (keys old)) [] (shared f old new) d
      → IsRight old new d
  compared old new (changes c) (p, q, r, s) = (
    record {
      created = λ x.
          ap (λ l. contains l x) p
          ∙ ground (arith, contains-absent old (keys new) x, contains-keys new x);
      destroyed = λ x.
          ap (λ l. contains l x) q
          ∙ ground (arith, contains-absent new (keys old) x, contains-keys old x);
      updated = λ x. r x ∙ shared_changed f enumerates same_modseq old new x;
    },
    λ x. elim (Bool-cases (contains (shared f old new) x)) [
      | inl m ↦ s x m
      | inr m ↦ unshared_kept old new x m
    ],
  )
  compared old new (rotated x k j) h = h
  compared old new (key_error x) h = h

  -- The mailboxes' diff never fails with a `KeyError`. What it reports is right about every name,
  -- whatever the order in which Python enumerates a set, and is given only if no mailbox that is in
  -- both snapshots has another UIDVALIDITY; otherwise it names one that has.
  pub diff_mailbox_state-IsRight :
      (old new : Dict String MailboxCursor) → IsRight old new (diff_mailbox_state f old new)
  unfolding diff_mailbox_state
  diff_mailbox_state-IsRight old new = compared old new (diff_mailbox_state f old new) (
      compare_cursors-Compared old new (absent old (keys new)) (absent new (keys old)) []
        (shared f old new) (shared_known old new))
