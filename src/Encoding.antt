-- ===== src/Encoding.antt =====
-- Base64 without padding, and the ids that are made of a name: what state.py, session.py and the
-- backends' `_map` modules share.
pub mod Padding
pub mod Ids
mod Examples
use Prim.Native.String
use jmap_bridge.Base.{
  ℕ, suc, ◌-◌, ◌%◌, String, ◌<>◌, Bool, Option, none, some, List, ◌&&◌, if◌then◌else◌,
}
use jmap_bridge.Base.Text.{is_char, is_empty, size, after_prefix}
use jmap_bridge.Base.Int.{ℤ}
use jmap_bridge.Json.{Value}

-- A byte string: the codes of its elements.
abbrev pub Bytes : Type 0
Bytes = List ℕ

-- The libraries that ids and state strings go through: `base64.urlsafe_b64encode` and its inverse,
-- `str.encode` and `bytes.decode` in UTF-8, `json.dumps(…, sort_keys=True, separators=(",", ":"))` in
-- UTF-8, `json.loads`, and `int` of a text. `none` is an exception.
pub record Libraries : Type 0 where
  pub b64encode : Bytes → String
  pub b64decode : String → Option Bytes
  pub utf8 : String → Bytes
  pub utf8_decode : Bytes → Option String
  pub dumps : Value → Bytes
  pub loads : Bytes → Option Value
  pub int_of_text : String → Option ℤ

-- `text.rstrip("=")`
unfoldable pub rstrip_padding : String → String
rstrip_padding String.[] = String.[]
rstrip_padding (String.◌∷◌ c text) =
    let rest = rstrip_padding text in
    if is_char b'=' c && is_empty rest then String.[] else String.◌∷◌ c rest

-- `"=" * n`
unfoldable pub padding : ℕ → String
padding ℕ.zero = ""
padding (suc n) = "=" <> padding n

-- `token + "=" * (-len(token) % 4)`: Python's `%` is never negative.
unfoldable pub pad : String → String
unfolding padding
pad token = token <> padding ((4 - size token % 4) % 4)

module _ (lib : Libraries) where
  -- `prefix + base64.urlsafe_b64encode(name.encode("utf-8")).decode("ascii").rstrip("=")`
  unfoldable pub encode_name : String → String → String
  unfolding rstrip_padding
  encode_name prefix name = prefix <> rstrip_padding (lib.b64encode (lib.utf8 name))

  abbrev pub decoded_text : Option Bytes → Option String
  decoded_text none = none
  decoded_text (some raw) = lib.utf8_decode raw

  -- The inverse, where the text starts with the prefix; `none` is a `ValueError`.
  unfoldable pub decode_name : String → String → Option String
  unfolding pad after_prefix
  decode_name prefix id = elim (after_prefix prefix id) [
    | none ↦ none
    | some rest ↦ decoded_text (lib.b64decode (pad rest))
  ]

  -- mailbox_map.py
  abbrev pub encode_mailbox_id : String → String
  encode_mailbox_id mailbox_name = encode_name "M" mailbox_name

  abbrev pub decode_mailbox_id : String → Option String
  decode_mailbox_id mailbox_id = decode_name "M" mailbox_id

  -- session.py
  abbrev pub encode_account_id : String → String
  encode_account_id email = encode_name "A" email

  abbrev pub decode_account_id : String → Option String
  decode_account_id account_id = decode_name "A" account_id
