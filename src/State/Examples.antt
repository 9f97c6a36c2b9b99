-- ===== src/State/Examples.antt =====
-- State strings with concrete libraries.
use jmap_bridge.Base.{
  ◌≡◌, refl, sym, String, Option, none, some, [], ◌∷◌, string_eq, nat_eq, arith, if◌then◌else◌, ap,
  ◌∙◌,
}
use jmap_bridge.Base.Dict
use jmap_bridge.Base.Dict.{Dict}
use jmap_bridge.Base.Int.{pos}
use jmap_bridge.Json.{Value, null, num, str, obj, Fields, end, field}
use jmap_bridge.Json.Object.{get, Nodup}
use jmap_bridge.Snapshots.Mail.{MailboxCursor}
use jmap_bridge.State.{
  open_envelope, decode_cursor, decode_cursors, decoded, invalid, kind_mismatch, envelope,
  encode_state, decode_state, encode_mail_state, decode_mail_state, mail_state_kind, mailbox_fields,
}
use jmap_bridge.Encoding.{Bytes, Libraries, padding, pad, rstrip_padding}
use jmap_bridge.Base.Text.{is_empty}
use jmap_bridge.State.Codec.{Same, same_leaf, same_dict, IsLossless}
use jmap_bridge.State.MailState.{Restores, payload_fields, decode-encode_mail_state}

-- The byte 1 in base64.
abbrev one_encoded : String
one_encoded = "AQ=="

abbrev one_decoded : String → Option Bytes
one_decoded text = if is_empty text then none else some (1 ∷ [])

-- Libraries that are asked about one value only: it is written as the byte 1, and read back as given.
abbrev libraries : Value → Libraries
libraries v = record {
  b64encode = λ raw. one_encoded;
  b64decode = one_decoded;
  utf8 = λ text. [];
  utf8_decode = λ raw. none;
  dumps = λ w. 1 ∷ [];
  loads = λ raw. some v;
  int_of_text = λ s. none;
}

abbrev cursors : Dict String MailboxCursor
cursors =
    (
      "INBOX",
      record { uidvalidity = pos 1; highestmodseq = pos 10; uidnext = pos 9; exists = pos 3 },
    )
    ∷ []

abbrev written : Fields
written = envelope mail_state_kind (payload_fields cursors)

-- The keys in their order.
abbrev reordered : Fields
reordered =
    field "kind" (str mail_state_kind)
      (field "payload" (obj (payload_fields cursors)) (field "v" (num (pos 1)) end))

abbrev value_or_null : Option Value → Value
value_or_null none = null
value_or_null (some v) = v

reordered-none : (k : String) → get k written ≡ none → get k reordered ≡ none
unfolding get
reordered-none k h = ground arith

reordered-some : (k : String) (x : Value) → get k written ≡ some x → get k reordered ≡ some x
unfolding get string_eq
reordered-some k x h = elim (string_eq.dec k "v") [
  | yes e ↦ rw e (rw e at h)
  | no not_v ↦ elim (string_eq.dec k "kind") [
    | yes e ↦ rw e (rw e at h)
    | no not_kind ↦ ground arith
  ]
]

reordered-Same : Same (obj written) (obj reordered)
unfolding get string_eq
reordered-Same =
    same_dict (obj written) (obj reordered) written reordered (λ k. value_or_null (get k reordered))
      refl refl (refl, (refl, (refl, tt))) reordered-none
      (λ k x h. let e = reordered-some k x h in e ∙ ap (λ o. some (value_or_null o)) (sym e))
      (λ k x h. same_leaf x _ (ap value_or_null (sym (reordered-some k x h))))

abbrev reads_back : Libraries
reads_back = libraries (obj reordered)

reads_back-IsLossless : IsLossless reads_back written
unfolding padding
reads_back-IsLossless = record {
  is_padded = record {
    body = "AQ";
    count = 2;
    split = refl;
    clean = refl;
    at_most_two = omega arith;
    whole = refl;
  };
  b64_inverse = refl;
  read_back = obj reordered;
  json_inverse = refl;
  same = reordered-Same;
}

other_kind_runs :
    decode_state reads_back
      (encode_state reads_back mail_state_kind (payload_fields cursors))
      "calendarstate"
    ≡ invalid kind_mismatch
unfolding decode_state encode_state rstrip_padding pad padding open_envelope get string_eq
other_kind_runs = refl

mail_state_runs :
    decode_mail_state reads_back (encode_mail_state reads_back cursors) ≡ decoded cursors
unfolding decode_mail_state encode_mail_state decode_state encode_state rstrip_padding pad padding
    open_envelope get string_eq mailbox_fields decode_cursors decode_cursor Dict.put
mail_state_runs = refl

payload-Nodup : Nodup (payload_fields cursors)
unfolding get
payload-Nodup = (refl, tt)

cursors-NodupKeys : Dict.NodupKeys cursors
unfolding Dict.get
cursors-NodupKeys = (refl, tt)

decode-encode_mail_state_example :
    Restores cursors (decode_mail_state reads_back (encode_mail_state reads_back cursors))
decode-encode_mail_state_example =
    decode-encode_mail_state reads_back cursors cursors-NodupKeys reads_back-IsLossless
