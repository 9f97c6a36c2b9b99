-- ===== src/State/Codec.antt =====
-- What the libraries of a state string promise, and that a state string gives back its payload.
use jmap_bridge.Base.{
  ◌≡◌, ◌≢◌, refl, sym, ap, ◌∙◌, String, none, some, ◌==◌, Bool-cases, inl, inr, nat_eq, string_eq,
  arith,
}
use jmap_bridge.Base.Int.{pos}
use jmap_bridge.Json.{Value, num, str, obj, Fields, end}
use jmap_bridge.Json.Object.{get, Nodup}
use jmap_bridge.State.{
  Decoded, decoded, invalid, kind_mismatch, envelope, open_envelope, encode_state, decode_state,
  loaded, payload_of,
}
use mathlib.Core.Path.{subst}
use jmap_bridge.Encoding.{Bytes, Libraries, pad, rstrip_padding}
use jmap_bridge.Encoding.Ids.{IsPadded, pad-IsPadded}

-- The same JSON value, but for the order of the fields of its dicts. (No state has a dict in a list.)
pub data Same : Value → Value → Type 0 where
  same_leaf : (v w : Value) → v ≡ w → Same v w
  same_dict :
      (v w : Value) (fs gs : Fields) (at : String → Value)
      → v ≡ obj fs
      → w ≡ obj gs
      → Nodup gs
      → ((k : String) → get k fs ≡ none → get k gs ≡ none)
      → ((k : String) (x : Value) → get k fs ≡ some x → get k gs ≡ some (at k))
      → ((k : String) (x : Value) → get k fs ≡ some x → Same x (at k))
      → Same v w

-- What the bridge relies on, of the dict that it writes: base64 is padded and can be undone, and a
-- JSON text that is written with sorted keys and read again gives the same value.
pub record IsLossless (lib : Libraries) (fs : Fields) : Type 0 where
  pub is_padded : IsPadded (lib.b64encode (lib.dumps (obj fs)))
  pub b64_inverse : lib.b64decode (lib.b64encode (lib.dumps (obj fs))) ≡ some (lib.dumps (obj fs))
  pub read_back : Value
  pub json_inverse : lib.loads (lib.dumps (obj fs)) ≡ some read_back
  pub same : Same (obj fs) read_back

fields_of : Value → Fields
fields_of (obj fs) = fs
fields_of _ = end

pub obj-injective : (fs gs : Fields) → obj fs ≡ obj gs → fs ≡ gs
unfolding fields_of
obj-injective fs gs p = ap fields_of p

pub Same-num : (n : _) (w : Value) → Same (num n) w → w ≡ num n
Same-num n w (same_leaf _ _ p) = sym p
Same-num n w (same_dict _ _ fs gs at p _ _ _ _ _) = cc

Same-str : (s : String) (w : Value) → Same (str s) w → w ≡ str s
Same-str s w (same_leaf _ _ p) = sym p
Same-str s w (same_dict _ _ fs gs at p _ _ _ _ _) = cc

-- The fields of a dict that was read back.
pub record SameFields (fs : Fields) (w : Value) : Type 0 where
  pub fields : Fields
  pub is_dict : w ≡ obj fields
  pub nodup : Nodup fields
  pub get_none : (k : String) → get k fs ≡ none → get k fields ≡ none
  pub get_some :
      (k : String) (x : Value)
      → get k fs ≡ some x
      → (y : Value) × (get k fields ≡ some y) × Same x y

pub Same-obj : (fs : Fields) (w : Value) → Nodup fs → Same (obj fs) w → SameFields fs w
Same-obj fs w u (same_leaf _ _ p) = record {
  fields = fs;
  is_dict = sym p;
  nodup = u;
  get_none = λ k h. h;
  get_some = λ k x h. (x, h, same_leaf x x refl);
}
Same-obj fs w u (same_dict _ _ fs' gs at p q v none_kept some_kept all_same) = record {
  fields = gs;
  is_dict = q;
  nodup = v;
  get_none = λ k h. none_kept k (sym (ap (get k) (obj-injective fs fs' p)) ∙ h);
  get_some = λ k x h.
      let h' = sym (ap (get k) (obj-injective fs fs' p)) ∙ h in
      (at k, some_kept k x h', all_same k x h');
}

-- What a token of one kind is read as under another.
abbrev pub Restored : String → String → Fields → Decoded Fields → Type 0
Restored kind expected payload (decoded p) = (kind ≡ expected) × Same (obj payload) (obj p)
Restored kind expected payload (invalid reason) = (kind ≢ expected) × (reason ≡ kind_mismatch)

envelope-Nodup : (kind : String) (payload : Fields) → Nodup (envelope kind payload)
unfolding get string_eq
envelope-Nodup kind payload = (refl, (refl, (refl, tt)))

get-version :
    (kind : String) (payload : Fields) → get "v" (envelope kind payload) ≡ some (num (pos 1))
unfolding get string_eq
get-version kind payload = refl

get-kind : (kind : String) (payload : Fields) → get "kind" (envelope kind payload) ≡ some (str kind)
unfolding get string_eq
get-kind kind payload = refl

get-payload :
    (kind : String) (payload : Fields) → get "payload" (envelope kind payload) ≡ some (obj payload)
unfolding get string_eq
get-payload kind payload = refl

payload_Restored :
    (kind expected : String) (payload : Fields) (w : Value)
    → kind ≡ expected
    → Same (obj payload) w
    → Nodup payload
    → Restored kind expected payload (payload_of (some w))
payload_Restored kind expected payload w p same u =
    let back : SameFields payload w = Same-obj payload w u same in
    rw back.is_dict (p, subst (Same (obj payload)) back.is_dict same)

open_envelope-Restored :
    (kind expected : String) (payload : Fields) (w : Value)
    → Nodup payload
    → SameFields (envelope kind payload) w
    → Restored kind expected payload (open_envelope expected w)
unfolding open_envelope
open_envelope-Restored kind expected payload w u back =
    let (v, at_v, same_v) = back.get_some "v" (num (pos 1)) (get-version kind payload) in
    let (k, at_k, same_k) = back.get_some "kind" (str kind) (get-kind kind payload) in
    let (p, at_p, same_p) = back.get_some "payload" (obj payload) (get-payload kind payload) in
    rw (back.is_dict, at_v, at_k, at_p, Same-num (pos 1) v same_v, Same-str kind k same_k)
      (elim (Bool-cases (kind == expected)) [
        | inl b ↦ rw b (payload_Restored kind expected payload p (ground arith) same_p u)
        | inr b ↦ rw b (λ e. ground arith, refl)
      ])

module _ (lib : Libraries) (kind : String) (payload : Fields)
    (lossless : IsLossless lib (envelope kind payload)) where
  raw : Bytes
  raw = lib.dumps (obj (envelope kind payload))

  pad-b64encode : pad (rstrip_padding (lib.b64encode raw)) ≡ lib.b64encode raw
  unfolding raw
  pad-b64encode = pad-IsPadded (lib.b64encode raw) lossless.is_padded

  loaded-encode_state :
      loaded lib (lib.b64decode (pad (encode_state lib kind payload))) ≡ some lossless.read_back
  unfolding encode_state raw
  loaded-encode_state =
      ap (λ t. loaded lib (lib.b64decode t)) pad-b64encode
      ∙ ap (λ t. loaded lib t) lossless.b64_inverse
      ∙ lossless.json_inverse

  -- Where the libraries give back what they were given, but for the order of a dict's fields, the
  -- state string of a payload with each key once is accepted exactly under the kind that it was made
  -- for, and gives back the payload but for that order; under any other kind it is refused as of
  -- another kind.
  pub decode-encode_state :
      (expected : String)
      → Nodup payload
      → Restored kind expected payload (decode_state lib (encode_state lib kind payload) expected)
  unfolding decode_state
  decode-encode_state expected u = rw loaded-encode_state (
      open_envelope-Restored kind expected payload lossless.read_back u (
        Same-obj (envelope kind payload) lossless.read_back (envelope-Nodup kind payload)
          lossless.same))
