-- ===== src/State/MailState.antt =====
-- The mail state that a client holds gives back the cursors that it was made from.
use jmap_bridge.Base.{
  ◌≡◌, refl, sym, ap, ◌∙◌, String, Option, none, some, [], ◌∷◌, string_eq, arith, inl, inr,
  Option-cases, ==_refl, some-injective,
}
use jmap_bridge.Base.Dict
use jmap_bridge.Base.Dict.{Dict}
use jmap_bridge.Base.Int.{ℤ}
use jmap_bridge.Json.{Value, num, obj, Fields, end, field}
use jmap_bridge.Json.Object.{get, Nodup}
use jmap_bridge.Snapshots.Mail.{MailboxCursor}
use jmap_bridge.Encoding.{Libraries}
use jmap_bridge.State.{
  Decoded, decoded, invalid, mail_state_kind, envelope, cursor_fields, mailbox_fields,
  decode_cursor, decode_cursors, int_at, int_of_field, mailboxes_of, mailboxes_in,
  encode_mail_state, decode_mail_state,
}
use jmap_bridge.State.Codec.{
  Same, SameFields, Same-obj, Same-num, obj-injective, IsLossless, Restored, decode-encode_state,
}

-- The value that a cursor is written as.
abbrev written : Option MailboxCursor → Option Value
written none = none
written (some c) = some (obj (cursor_fields c))

get-mailbox_fields :
    (cursors : Dict String MailboxCursor) (name : String)
    → get name (mailbox_fields cursors) ≡ written (Dict.get name cursors)
unfolding mailbox_fields get Dict.get
get-mailbox_fields [] name = refl
get-mailbox_fields ((k, c) ∷ cursors) name = ground (arith, get-mailbox_fields cursors name)

mailbox_fields-Nodup :
    (cursors : Dict String MailboxCursor) → Dict.NodupKeys cursors → Nodup (mailbox_fields cursors)
unfolding mailbox_fields
mailbox_fields-Nodup [] u = tt
mailbox_fields-Nodup ((k, c) ∷ cursors) (fresh, u) =
    (ground (arith, get-mailbox_fields cursors k), mailbox_fields-Nodup cursors u)

cursor_fields-Nodup : (c : MailboxCursor) → Nodup (cursor_fields c)
unfolding get string_eq
cursor_fields-Nodup c = (refl, (refl, (refl, (refl, tt))))

-- Decoded, with the same cursor for every mailbox.
abbrev pub Restores : Dict String MailboxCursor → Decoded (Dict String MailboxCursor) → Type 0
Restores d (decoded r) = (k : String) → Dict.get k r ≡ Dict.get k d
Restores d (invalid reason) = ⊥

module _ (lib : Libraries) where
  int_at_read :
      (key : String) (fs : Fields) (w : Value) (n : ℤ) (back : SameFields fs w)
      → get key fs ≡ some (num n)
      → int_at lib key back.fields ≡ some n
  int_at_read key fs w n back h =
      let (y, at_key, same) = back.get_some key (num n) h in
      ap (λ o. int_of_field lib o) (at_key ∙ ap some (Same-num n y same))

  -- A cursor that was read back is decoded as it was.
  decode_cursor-Same :
      (c : MailboxCursor) (w : Value)
      → Same (obj (cursor_fields c)) w
      → decode_cursor lib w ≡ some c
  unfolding decode_cursor get string_eq
  decode_cursor-Same c w same =
      let back : SameFields (cursor_fields c) w =
        Same-obj (cursor_fields c) w (cursor_fields-Nodup c) same in
      rw
        (
          back.is_dict,
          int_at_read "uv" (cursor_fields c) w c.uidvalidity back refl,
          int_at_read "ms" (cursor_fields c) w c.highestmodseq back refl,
          int_at_read "un" (cursor_fields c) w c.uidnext back refl,
          int_at_read "ex" (cursor_fields c) w c.exists back refl,
        )
        refl

  -- The cursors that a dict of read cursors stands for.
  abbrev StandsFor : Dict String MailboxCursor → Fields → Type 0
  StandsFor d fs =
      (k : String) (v : Value)
      → get k fs ≡ some v
      → (c : MailboxCursor) × (decode_cursor lib v ≡ some c) × (Dict.get k d ≡ some c)

  decode_cursors_lem :
      (d : Dict String MailboxCursor) (fs : Fields) (acc : Dict String MailboxCursor)
      → Nodup fs
      → StandsFor d fs
      → ((k : String) → get k fs ≡ none → Dict.get k acc ≡ Dict.get k d)
      → Restores d (decode_cursors lib fs acc)
  unfolding decode_cursors get
  decode_cursors_lem d end acc u a b = λ k. b k refl
  decode_cursors_lem d (field name v fs) acc (fresh, u) a b =
      let (c, read, known) = a name v (ground (arith, ==_refl name)) in
      rw (decode_cursors, read)
        (decode_cursors_lem d fs (Dict.put name c acc) u
          (λ k w h. elim (string_eq.dec k name) [
            | yes e ↦ absurd (ground arith)
            | no ne ↦ a k w (ground arith)
          ])
          (λ k h. elim (string_eq.dec k name) [
            | yes e ↦ rw e (ground (arith, Dict.get-put name name c acc))
            | no ne ↦ ground (arith, Dict.get-put k name c acc, b k)
          ]))

  mailboxes-StandsFor :
      (d : Dict String MailboxCursor) (w : Value) (back : SameFields (mailbox_fields d) w)
      → StandsFor d back.fields
  mailboxes-StandsFor d w back k v h = elim (Option-cases (Dict.get k d)) [
    | inl n ↦
        let gone : get k back.fields ≡ none =
          back.get_none k (get-mailbox_fields d k ∙ ap written n) in
        absurd (ground arith)
    | inr (c, p) ↦
        let (y, at_k, same) =
          back.get_some k (obj (cursor_fields c)) (get-mailbox_fields d k ∙ ap written p) in
        let here = some-injective v y (sym h ∙ at_k) in
        (c, ap (λ x. decode_cursor lib x) here ∙ decode_cursor-Same c y same, p)
  ]

  mailboxes_of-Restores :
      (d : Dict String MailboxCursor) (w : Value)
      → SameFields (mailbox_fields d) w
      → Restores d (mailboxes_of lib (some w))
  unfolding Dict.get
  mailboxes_of-Restores d w back = rw back.is_dict (
      decode_cursors_lem d back.fields [] back.nodup (mailboxes-StandsFor d w back) (λ k h.
        elim (Option-cases (Dict.get k d)) [
          | inl n ↦ sym n
          | inr (c, p) ↦
              let (y, at_k, _) =
                back.get_some k (obj (cursor_fields c)) (get-mailbox_fields d k ∙ ap written p) in
              absurd (ground arith)
        ]))

abbrev pub payload_fields : Dict String MailboxCursor → Fields
payload_fields cursors = field "mailboxes" (obj (mailbox_fields cursors)) end

module _ (lib : Libraries) (cursors : Dict String MailboxCursor)
    (unique : Dict.NodupKeys cursors) where
  payload-Restores :
      (w : Value)
      → SameFields (payload_fields cursors) w
      → (p : Fields) → w ≡ obj p
      → Restores cursors (mailboxes_of lib (get "mailboxes" p))
  unfolding get string_eq
  payload-Restores w back p e =
      let (y, at_mailboxes, same) = back.get_some "mailboxes" (obj (mailbox_fields cursors)) refl in
      let here : get "mailboxes" p ≡ some y =
        ap (get "mailboxes") (obj-injective p back.fields (sym e ∙ back.is_dict)) ∙ at_mailboxes in
      rw here (
        mailboxes_of-Restores lib cursors y
          (Same-obj (mailbox_fields cursors) y (mailbox_fields-Nodup cursors unique) same))

  token-Restores :
      (o : Decoded Fields)
      → Restored mail_state_kind mail_state_kind (payload_fields cursors) o
      → Restores cursors (mailboxes_in lib o)
  unfolding get
  token-Restores (decoded p) (_, same) =
      payload-Restores (obj p) (Same-obj (payload_fields cursors) (obj p) (refl, tt) same) p refl
  token-Restores (invalid reason) (differs, _) = absurd (differs refl)

  -- Where the libraries give back what they were given, but for the order of a dict's fields, the
  -- mail state of cursors with each name once is decoded, and every mailbox has the cursor that was
  -- written for it.
  pub decode-encode_mail_state :
      IsLossless lib (envelope mail_state_kind (payload_fields cursors))
      → Restores cursors (decode_mail_state lib (encode_mail_state lib cursors))
  unfolding decode_mail_state encode_mail_state get
  decode-encode_mail_state lossless = token-Restores _ (
      decode-encode_state lib mail_state_kind (payload_fields cursors) lossless mail_state_kind
        (refl, tt))
