-- ===== src/Emails/Ids/Examples.antt =====
-- The id of one Email, with libraries that know its bytes.
use jmap_bridge.Base.{◌≡◌, refl, some, none, [], ◌∷◌, arith}
use jmap_bridge.Base.Int.{pos}
use jmap_bridge.Encoding.{Libraries, rstrip_padding, padding}
use jmap_bridge.Emails.Ids.{
  email_id_value, encode_email_id, decode_email_id, IsReversible, decode-encode_email_id,
}

-- The JSON text of the id is the byte 98, whose base64 is `Yg==`.
abbrev libraries : Libraries
libraries = record {
  b64encode = λ raw. "Yg==";
  b64decode = λ text. some (98 ∷ []);
  utf8 = λ text. [];
  utf8_decode = λ raw. none;
  dumps = λ v. 98 ∷ [];
  loads = λ raw. some (email_id_value "INBOX" (pos 7) (pos 42));
  int_of_text = λ s. none;
}

encode_runs : encode_email_id libraries "INBOX" (pos 7) (pos 42) ≡ "EYg"
unfolding encode_email_id rstrip_padding
encode_runs = refl

libraries-IsReversible : IsReversible libraries (email_id_value "INBOX" (pos 7) (pos 42))
unfolding padding
libraries-IsReversible = record {
  is_padded = record {
    body = "Yg";
    count = 2;
    split = refl;
    clean = refl;
    at_most_two = omega arith;
    whole = refl;
  };
  b64_inverse = refl;
  json_inverse = refl;
}

decode-encode_email_id_example :
    decode_email_id libraries (λ v. "") (encode_email_id libraries "INBOX" (pos 7) (pos 42))
    ≡ some ("INBOX", pos 7, pos 42)
decode-encode_email_id_example =
    decode-encode_email_id libraries (λ v. "") "INBOX" (pos 7) (pos 42) libraries-IsReversible
