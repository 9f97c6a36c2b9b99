-- ===== src/Encoding/Ids.antt =====
-- An id gives back the name that it was made of.
use jmap_bridge.Base.{ℕ, ◌%◌, ◌≤◌, ◌≡◌, ap, ◌∙◌, String, ◌<>◌, false, some}
use jmap_bridge.Base.Text.{holds, size, after_prefix-append}
use jmap_bridge.Encoding.{
  Libraries, padding, pad, rstrip_padding, encode_name, decode_name, decoded_text,
}
use jmap_bridge.Encoding.Padding.{pad-rstrip_padding}

-- Base64 of a byte string: a body without `=`, and at most two `=`.
pub record IsPadded (text : String) : Type 0 where
  pub body : String
  pub count : ℕ
  pub split : text ≡ body <> padding count
  pub clean : holds b'=' body ≡ false
  pub at_most_two : count ≤ 2
  pub whole : size (body <> padding count) % 4 ≡ 0

pub pad-IsPadded : (text : String) → IsPadded text → pad (rstrip_padding text) ≡ text
pad-IsPadded text p = rw p.split (pad-rstrip_padding p.body p.count p.clean p.at_most_two p.whole)

-- What the ids rely on, of one name: UTF-8 and base64 can be undone.
pub record IsReadable (lib : Libraries) (name : String) : Type 0 where
  pub is_padded : IsPadded (lib.b64encode (lib.utf8 name))
  pub b64_inverse : lib.b64decode (lib.b64encode (lib.utf8 name)) ≡ some (lib.utf8 name)
  pub utf8_inverse : lib.utf8_decode (lib.utf8 name) ≡ some name

-- An id of any of the kinds (mailboxes, accounts, calendars, address books) is decoded to the name
-- that it was made of.
pub decode-encode_name :
    (lib : Libraries) (prefix name : String)
    → IsReadable lib name
    → decode_name lib prefix (encode_name lib prefix name) ≡ some name
unfolding decode_name encode_name
decode-encode_name lib prefix name r =
    rw
      (
        decode_name,
        after_prefix-append prefix (rstrip_padding (lib.b64encode (lib.utf8 name))),
        pad-IsPadded (lib.b64encode (lib.utf8 name)) r.is_padded,
      )
      (ap (decoded_text lib) r.b64_inverse ∙ r.utf8_inverse)
