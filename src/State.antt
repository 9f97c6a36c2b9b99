-- ===== src/State.antt =====
-- state.py, and the mail state of backends/imap/modseq_state.py: what the bridge remembers for a
-- client is written into the state string that the client keeps.
pub mod Codec
pub mod MailState
mod Examples
use jmap_bridge.Base.{
  ℕ, suc, ◌+◌, ◌-◌, ◌%◌, String, Bool, true, false, Option, none, some, List, [], ◌∷◌, ◌++◌, length,
  eqb, ◌&&◌, if◌then◌else◌,
}
use jmap_bridge.Base.{◌==◌, string_eq}
use jmap_bridge.Base.Dict
use jmap_bridge.Base.Dict.{Dict}
use jmap_bridge.Base.Int.{ℤ, pos}
use jmap_bridge.Encoding.{Libraries, Bytes, rstrip_padding, pad}
use jmap_bridge.Json.{Value, null, bool, num, str, arr, obj, Fields, end, field}
use jmap_bridge.Json.Object.{get}
use jmap_bridge.Snapshots.Mail.{MailboxCursor}

-- Why `decode_state` and `decode_mail_state` raise `InvalidStateToken`, by where they do.
pub data Reason : Type 0 where
  malformed : Reason
  not_an_object : Reason
  unsupported_version : Reason
  kind_mismatch : Reason
  payload_not_an_object : Reason
  missing_mailboxes : Reason
  malformed_cursor : Reason

pub data Decoded {ℓ} (A : Type ℓ) : Type ℓ where
  decoded : A → Decoded A
  invalid : Reason → Decoded A

-- `value != 1`: in Python `True == 1`.
abbrev pub is_one : Option Value → Bool
is_one (some (num (pos (suc ℕ.zero)))) = true
is_one (some (bool b)) = b
is_one _ = false

abbrev pub is_text : String → Option Value → Bool
is_text s (some (str t)) = t == s
is_text s _ = false

abbrev pub payload_of : Option Value → Decoded Fields
payload_of (some (obj payload)) = decoded payload
payload_of _ = invalid payload_not_an_object

abbrev pub mail_state_kind : String
mail_state_kind = "mailstate"

-- `{"v": 1, "kind": kind, "payload": payload}`
abbrev pub envelope : String → Fields → Fields
envelope kind payload =
    field "v" (num (pos 1)) (field "kind" (str kind) (field "payload" (obj payload) end))

-- The checks of an envelope, in the order of the source.
unfoldable pub open_envelope : String → Value → Decoded Fields
open_envelope expected_kind (obj e) =
    if is_one (get "v" e)
    then (if is_text expected_kind (get "kind" e)
        then payload_of (get "payload" e)
        else invalid kind_mismatch)
    else invalid unsupported_version
open_envelope expected_kind _ = invalid not_an_object

module _ (lib : Libraries) where
  unfoldable pub encode_state : String → Fields → String
  unfolding rstrip_padding
  encode_state kind payload =
      rstrip_padding (lib.b64encode (lib.dumps (obj (envelope kind payload))))

  abbrev pub loaded : Option Bytes → Option Value
  loaded none = none
  loaded (some raw) = lib.loads raw

  abbrev pub opened : String → Option Value → Decoded Fields
  opened expected_kind none = invalid malformed
  opened expected_kind (some e) = open_envelope expected_kind e

  unfoldable pub decode_state : String → String → Decoded Fields
  unfolding pad open_envelope
  decode_state token expected_kind = opened expected_kind (loaded (lib.b64decode (pad token)))

  -- `int(value)`
  abbrev pub int_of : Value → Option ℤ
  int_of (num n) = some n
  int_of (bool true) = some (pos 1)
  int_of (bool false) = some (pos 0)
  int_of (str s) = lib.int_of_text s
  int_of _ = none

  abbrev pub int_of_field : Option Value → Option ℤ
  int_of_field none = none
  int_of_field (some value) = int_of value

  -- `int(cursor[key])`
  abbrev pub int_at : String → Fields → Option ℤ
  int_at key cursor = int_of_field (get key cursor)

-- `{"uv": …, "ms": …, "un": …, "ex": …}`
abbrev pub cursor_fields : MailboxCursor → Fields
cursor_fields c =
    field "uv" (num c.uidvalidity) (
      field "ms" (num c.highestmodseq) (field "un" (num c.uidnext) (field "ex" (num c.exists) end)))

-- `{name: … for name, c in cursors.items()}`
unfoldable pub mailbox_fields : Dict String MailboxCursor → Fields
mailbox_fields [] = end
mailbox_fields ((name, c) ∷ cursors) = field name (obj (cursor_fields c)) (mailbox_fields cursors)

abbrev cursor_from : Option ℤ → Option ℤ → Option ℤ → Option ℤ → Option MailboxCursor
cursor_from (some uv) (some ms) (some un) (some ex) =
    some (record { uidvalidity = uv; highestmodseq = ms; uidnext = un; exists = ex })
cursor_from _ _ _ _ = none

module _ (lib : Libraries) where
  unfoldable pub encode_mail_state : Dict String MailboxCursor → String
  unfolding mailbox_fields encode_state
  encode_mail_state cursors =
      encode_state lib mail_state_kind (field "mailboxes" (obj (mailbox_fields cursors)) end)

  -- The four fields of a cursor; `none` is a `KeyError`, `TypeError` or `ValueError`.
  unfoldable pub decode_cursor : Value → Option MailboxCursor
  decode_cursor (obj cursor) =
      cursor_from (int_at lib "uv" cursor) (int_at lib "ms" cursor) (int_at lib "un" cursor)
        (int_at lib "ex" cursor)
  decode_cursor _ = none

  -- The loop over `mailboxes.items()`.
  unfoldable pub decode_cursors :
      Fields → Dict String MailboxCursor → Decoded (Dict String MailboxCursor)
  decode_cursors end result = decoded result
  decode_cursors (field name cursor mailboxes) result = elim (decode_cursor cursor) [
    | none ↦ invalid malformed_cursor
    | some c ↦ decode_cursors mailboxes (Dict.put name c result)
  ]

  abbrev pub mailboxes_of : Option Value → Decoded (Dict String MailboxCursor)
  mailboxes_of (some (obj mailboxes)) = decode_cursors mailboxes []
  mailboxes_of _ = invalid missing_mailboxes

  abbrev pub mailboxes_in : Decoded Fields → Decoded (Dict String MailboxCursor)
  mailboxes_in (decoded payload) = mailboxes_of (get "mailboxes" payload)
  mailboxes_in (invalid reason) = invalid reason

  unfoldable pub decode_mail_state : String → Decoded (Dict String MailboxCursor)
  unfolding decode_state decode_cursors
  decode_mail_state token = mailboxes_in (decode_state lib token mail_state_kind)
