-- ===== src/Encoding/Examples.antt =====
-- An id at a concrete name.
use jmap_bridge.Base.{◌≡◌, refl, none, some, [], ◌∷◌, string_eq, arith}
use jmap_bridge.Base.Text.{after_prefix}
use jmap_bridge.Encoding.{
  Libraries, encode_name, decode_name, rstrip_padding, padding, encode_mailbox_id,
  decode_mailbox_id,
}
use jmap_bridge.Encoding.Ids.{IsReadable, decode-encode_name}

-- Libraries that know the name `b`, whose base64 is `Yg==`.
abbrev libraries : Libraries
libraries = record {
  b64encode = λ raw. "Yg==";
  b64decode = λ text. some (98 ∷ []);
  utf8 = λ text. 98 ∷ [];
  utf8_decode = λ raw. some "b";
  dumps = λ v. [];
  loads = λ raw. none;
  int_of_text = λ s. none;
}

encode_runs : encode_mailbox_id libraries "b" ≡ "MYg"
unfolding encode_name rstrip_padding
encode_runs = refl

decode_runs : decode_mailbox_id libraries "CYg" ≡ none
unfolding decode_name after_prefix string_eq
decode_runs = refl

libraries-IsReadable : IsReadable libraries "b"
unfolding padding
libraries-IsReadable = record {
  is_padded = record {
    body = "Yg";
    count = 2;
    split = refl;
    clean = refl;
    at_most_two = omega arith;
    whole = refl;
  };
  b64_inverse = refl;
  utf8_inverse = refl;
}

decode-encode_name_example : decode_name libraries "M" (encode_name libraries "M" "b") ≡ some "b"
decode-encode_name_example = decode-encode_name libraries "M" "b" libraries-IsReadable
