-- ===== src/Emails/Ids.antt =====
-- backends/imap/modseq_state.py: the id of an Email, made of its mailbox, UIDVALIDITY and UID.
mod Examples
use Prim.Native.String
use jmap_bridge.Base.{◌≡◌, refl, ap, ◌∙◌, String, ◌<>◌, Option, none, some, List, [], ◌∷◌}
use jmap_bridge.Base.Int.{ℤ}
use jmap_bridge.Base.Text.{after_prefix, after_prefix-append}
use jmap_bridge.Json.{Value, str, num, arr, obj, Fields, end, field, Items, nil, cons}
use jmap_bridge.Encoding.{Bytes, Libraries, rstrip_padding, pad}
use jmap_bridge.Encoding.Ids.{IsPadded, pad-IsPadded}
use jmap_bridge.State.{int_of}

abbrev pub EmailId : Type 0
EmailId = String × ℤ × ℤ

abbrev pub email_id_value : String → ℤ → ℤ → Value
email_id_value mailbox uidvalidity uid =
    arr (cons (str mailbox) (cons (num uidvalidity) (cons (num uid) nil)))

-- `a, b, c = value`: a list, the characters of a text, or the keys of a dict.
abbrev pub unpack_three : Value → Option (Value × Value × Value)
unpack_three (arr (cons a (cons b (cons c nil)))) = some (a, b, c)
unpack_three (str (String.◌∷◌ a (String.◌∷◌ b (String.◌∷◌ c String.[])))) =
    some (str (String.◌∷◌ a ""), str (String.◌∷◌ b ""), str (String.◌∷◌ c ""))
unpack_three (obj (field a _ (field b _ (field c _ end)))) = some (str a, str b, str c)
unpack_three _ = none

-- `str_of` is `str` of a value.
abbrev pub text_of : (Value → String) → Value → String
text_of str_of (str s) = s
text_of str_of v = str_of v

abbrev pub both_ints : String → Option ℤ → Option ℤ → Option EmailId
both_ints mailbox (some uidvalidity) (some uid) = some (mailbox, uidvalidity, uid)
both_ints mailbox _ _ = none

module _ (lib : Libraries) where
  unfoldable pub encode_email_id : String → ℤ → ℤ → String
  unfolding rstrip_padding
  encode_email_id mailbox uidvalidity uid =
      "E" <> rstrip_padding (lib.b64encode (lib.dumps (email_id_value mailbox uidvalidity uid)))

  module _ (str_of : Value → String) where
    abbrev pub email_id_of : Option (Value × Value × Value) → Option EmailId
    email_id_of none = none
    email_id_of (some (mailbox, uidvalidity, uid)) =
        both_ints (text_of str_of mailbox) (int_of lib uidvalidity) (int_of lib uid)

    abbrev pub from_json : Option Value → Option EmailId
    from_json none = none
    from_json (some v) = email_id_of (unpack_three v)

    abbrev pub from_bytes : Option Bytes → Option EmailId
    from_bytes none = none
    from_bytes (some raw) = from_json (lib.loads raw)

    -- `none` is a `ValueError`.
    unfoldable pub decode_email_id : String → Option EmailId
    unfolding pad after_prefix
    decode_email_id email_id = elim (after_prefix "E" email_id) [
      | none ↦ none
      | some rest ↦ from_bytes (lib.b64decode (pad rest))
    ]

-- What the ids rely on, of one Email: base64 and JSON can be undone.
pub record IsReversible (lib : Libraries) (v : Value) : Type 0 where
  pub is_padded : IsPadded (lib.b64encode (lib.dumps v))
  pub b64_inverse : lib.b64decode (lib.b64encode (lib.dumps v)) ≡ some (lib.dumps v)
  pub json_inverse : lib.loads (lib.dumps v) ≡ some v

-- The id of an Email is decoded to the mailbox, the UIDVALIDITY and the UID that it was made of.
pub decode-encode_email_id :
    (lib : Libraries) (str_of : Value → String) (mailbox : String) (uidvalidity uid : ℤ)
    → IsReversible lib (email_id_value mailbox uidvalidity uid)
    → decode_email_id lib str_of (encode_email_id lib mailbox uidvalidity uid)
      ≡ some (mailbox, uidvalidity, uid)
unfolding decode_email_id encode_email_id
decode-encode_email_id lib str_of mailbox uidvalidity uid r =
    let v = email_id_value mailbox uidvalidity uid in
    rw
      (
        decode_email_id,
        after_prefix-append "E" (rstrip_padding (lib.b64encode (lib.dumps v))),
        pad-IsPadded (lib.b64encode (lib.dumps v)) r.is_padded,
        r.b64_inverse,
        r.json_inverse,
      )
      refl
