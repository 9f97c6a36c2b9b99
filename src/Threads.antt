-- ===== src/Threads.antt =====
-- types/thread.py and the thread ids of backends/imap/email_map.py.
pub mod Ids
pub mod Criteria
pub mod Get
mod Examples
use Prim.Native.String
use jmap_bridge.Base.{
  ℕ, String, ◌<>◌, Bool, Option, none, some, List, [], ◌∷◌, ◌&&◌, ◌||◌, not, if◌then◌else◌,
}
use jmap_bridge.Base.Int.{ℤ}
use jmap_bridge.Base.Text.{is_char, is_empty, after_prefix}
use jmap_bridge.Encoding.{Libraries, Bytes, encode_name, decoded_text, pad}

-- `re.findall(r"<([^<>]+)>", text)`, with the brackets put back. `open_id` is what follows the latest
-- `<`, where no `>` has ended it.
unfoldable pub scan_ids : Option String → String → List String
scan_ids open_id String.[] = []
scan_ids none (String.◌∷◌ c text) =
    let opened = scan_ids (some "") text in
    let rest = scan_ids none text in if is_char b'<' c then opened else rest
scan_ids (some id) (String.◌∷◌ c text) =
    let opened = scan_ids (some "") text in
    let closed = scan_ids none text in
    let longer = scan_ids (some (id <> String.◌∷◌ c "")) text in
    if is_char b'<' c
    then opened
    else if is_char b'>' c
    then (if is_empty id then closed else ("<" <> id <> ">") ∷ closed)
    else longer

-- A header that is missing, or empty, has no ids; no ids are spelled as an empty list.
unfoldable pub parse_message_ids : Option String → List String
unfolding scan_ids
parse_message_ids none = []
parse_message_ids (some text) = scan_ids none text

-- The three headers that say which conversation a message is in: their raw values.
pub record ThreadHeaders : Type 0 where
  pub references : Option String
  pub in_reply_to : Option String
  pub message_id : Option String

abbrev pub first_id : List String → Option String → Option String
first_id [] others = others
first_id (id ∷ ids) others = some id

-- The root of a message's conversation.
unfoldable pub root_of : ThreadHeaders → Option String
unfolding parse_message_ids
root_of h =
    first_id (parse_message_ids h.references)
      (first_id (parse_message_ids h.in_reply_to) (first_id (parse_message_ids h.message_id) none))

-- What a thread id is made of: a header's value, or the location of one message.
pub data Basis : Type 0 where
  in_headers : String → Basis
  at_location : String → Basis

abbrev pub nonempty_text : (String → Basis) → Option String → String → Option Basis
nonempty_text kind none rest = none
nonempty_text kind (some basis) rest = if is_empty rest then none else some (kind basis)

abbrev pub or_other : Option Basis → Option Basis → Option Basis
or_other none other = other
or_other (some basis) other = some basis

module _ (lib : Libraries) where
  abbrev pub id_of_root : String → Option String → String
  id_of_root fallback (some root) = encode_name lib "TH" root
  id_of_root fallback none = encode_name lib "TL" fallback

  unfoldable pub derive_thread_id : ThreadHeaders → String → String
  unfolding root_of encode_name
  derive_thread_id h fallback = id_of_root fallback (root_of h)

  abbrev pub decode_kind : (String → Basis) → Option String → Option Basis
  decode_kind kind none = none
  decode_kind kind (some rest) =
      nonempty_text kind (decoded_text lib (lib.b64decode (pad rest))) rest

  -- `none` is an id of another format.
  unfoldable pub decode_thread_id : String → Option Basis
  unfolding after_prefix pad
  decode_thread_id id =
      or_other (decode_kind in_headers (after_prefix "TH" id))
        (decode_kind at_location (after_prefix "TL" id))

-- A text before and after its first character of a code.
abbrev pub before_first : String → Option (String × String) → Option (String × String)
before_first text none = none
before_first text (some (front, back)) = some (text <> front, back)

unfoldable pub cut : ℕ → String → Option (String × String)
cut n String.[] = none
cut n (String.◌∷◌ c text) =
    let rest = cut n text in
    if is_char n c then some ("", text) else before_first (String.◌∷◌ c "") rest

abbrev pub location_of_ints : String → Option ℤ → Option ℤ → Option (String × ℤ × ℤ)
location_of_ints mailbox (some uidvalidity) (some uid) = some (mailbox, uidvalidity, uid)
location_of_ints mailbox _ _ = none

module _ (lib : Libraries) where
  abbrev pub location_of_rest : String → Option (String × String) → Option (String × ℤ × ℤ)
  location_of_rest mailbox none = none
  location_of_rest mailbox (some (uidvalidity, uid)) =
      location_of_ints mailbox (lib.int_of_text uidvalidity) (lib.int_of_text uid)

  abbrev pub location_of_cut : Option (String × String) → Option (String × ℤ × ℤ)
  location_of_cut none = none
  location_of_cut (some (mailbox, rest)) = location_of_rest mailbox (cut b':' rest)

  -- `mailbox, uidvalidity_s, uid_s = basis.split(":", 2)`, and the two as ints; `none` is a
  -- `ValueError`.
  unfoldable pub location_of : String → Option (String × ℤ × ℤ)
  unfolding cut
  location_of basis = location_of_cut (cut b':' basis)

-- The fallback of a message without headers, with `str` of an int.
abbrev pub fallback_of : (ℤ → String) → String → ℤ → ℤ → String
fallback_of show mailbox uidvalidity uid = mailbox <> ":" <> show uidvalidity <> ":" <> show uid
