-- ===== src/Threads/Ids.antt =====
-- What a thread id gives back.
use Prim.Native.Char.{Char}
use jmap_bridge.Base.{
  ◌≡◌, refl, ap, String, ◌<>◌, true, false, Option, none, some, arith, if◌then◌else◌, inl, inr,
  Bool-cases, ◌==◌, string_eq,
}
use jmap_bridge.Base.Text.{
  is_char, is_empty, holds, after_prefix, after_prefix-append, cons_append, nil_append, sep_append,
}
use jmap_bridge.Base.Int.{ℤ}
use jmap_bridge.Encoding.{Libraries, encode_name, rstrip_padding}
use jmap_bridge.Encoding.Ids.{IsReadable, pad-IsPadded}
use jmap_bridge.Threads.{
  ThreadHeaders, root_of, Basis, in_headers, at_location, id_of_root, derive_thread_id,
  decode_thread_id, cut, location_of_ints, location_of_rest, location_of, fallback_of,
}

-- What a message's thread id should give back.
abbrev pub basis_of : Option String → String → Basis
basis_of (some root) fallback = in_headers root
basis_of none fallback = at_location fallback

abbrev pub text_of_basis : Basis → String
text_of_basis (in_headers text) = text
text_of_basis (at_location text) = text

-- A text that base64 can carry, and that it does not carry as nothing.
pub record IsCarried (lib : Libraries) (text : String) : Type 0 where
  pub is_readable : IsReadable lib text
  pub nonempty : is_empty (rstrip_padding (lib.b64encode (lib.utf8 text))) ≡ false

other_prefix :
    (c d e : Char) (p q t : String)
    → (String.◌∷◌ d "" == String.◌∷◌ e "") ≡ false
    → after_prefix (String.◌∷◌ c (String.◌∷◌ d p)) (String.◌∷◌ c (String.◌∷◌ e q) <> t) ≡ none
unfolding after_prefix
other_prefix c d e p q t h =
    rw (cons_append c (String.◌∷◌ e q) t, cons_append e q t) (rw (after_prefix, h) (ground arith))

not_header : (t : String) → after_prefix "TH" ("TL" <> t) ≡ none
unfolding string_eq
not_header t = other_prefix _ _ _ "" "" t refl

module _ (lib : Libraries) where
  decode-id_of_root :
      (root : Option String) (fallback : String)
      → IsCarried lib (text_of_basis (basis_of root fallback))
      → decode_thread_id lib (id_of_root lib fallback root) ≡ some (basis_of root fallback)
  unfolding decode_thread_id encode_name
  decode-id_of_root (some root) fallback c =
      rw
        (
          after_prefix-append "TH" (rstrip_padding (lib.b64encode (lib.utf8 root))),
          pad-IsPadded (lib.b64encode (lib.utf8 root)) c.is_readable.is_padded,
          c.is_readable.b64_inverse,
          c.is_readable.utf8_inverse,
          c.nonempty,
        )
        refl
  decode-id_of_root none fallback c =
      rw
        (
          not_header (rstrip_padding (lib.b64encode (lib.utf8 fallback))),
          after_prefix-append "TL" (rstrip_padding (lib.b64encode (lib.utf8 fallback))),
          pad-IsPadded (lib.b64encode (lib.utf8 fallback)) c.is_readable.is_padded,
          c.is_readable.b64_inverse,
          c.is_readable.utf8_inverse,
          c.nonempty,
        )
        refl

  -- The thread id of a message gives back what it was made of: the root of the conversation, or
  -- the message's location where it has none of the headers.
  pub decode-derive_thread_id :
      (h : ThreadHeaders) (fallback : String)
      → IsCarried lib (text_of_basis (basis_of (root_of h) fallback))
      → decode_thread_id lib (derive_thread_id lib h fallback)
        ≡ some (basis_of (root_of h) fallback)
  unfolding derive_thread_id
  decode-derive_thread_id h fallback = decode-id_of_root (root_of h) fallback

colon : (back : String) → cut b':' (":" <> back) ≡ some ("", back)
unfolding cut
colon back = rw (sep_append _ back) refl

cut-append :
    (front back : String)
    → holds b':' front ≡ false
    → cut b':' (front <> (":" <> back)) ≡ some (front, back)
unfolding cut
cut-append String.[] back h = rw (nil_append (":" <> back)) (colon back)
cut-append (String.◌∷◌ c front) back h =
    let apart : is_char b':' c ≡ false = ground arith in
    let rest : holds b':' front ≡ false = ground arith in
    rw (cons_append c front (":" <> back), apart, cut-append front back rest)
      (ap (λ x. some (x, back)) (sep_append c front))

holds-append_colon : (front back : String) → holds b':' (front <> (":" <> back)) ≡ true
holds-append_colon String.[] back = rw (nil_append (":" <> back), sep_append _ back) refl
holds-append_colon (String.◌∷◌ c front) back =
    rw (cons_append c front (":" <> back)) (ground (arith, holds-append_colon front back))

-- A text with a colon is cut at it, whatever follows the text.
cut_inside :
    (front tail : String)
    → holds b':' front ≡ true
    → (p : String) × (q : String) × (cut b':' (front <> tail) ≡ some (p, q <> tail))
unfolding cut
cut_inside String.[] tail h = absurd (ground arith)
cut_inside (String.◌∷◌ c front) tail h = elim (Bool-cases (is_char b':' c)) [
  | inl b ↦ ("", front, rw (cons_append c front tail, b) refl)
  | inr b ↦
      let rest : holds b':' front ≡ true = ground arith in
      let (p, q, e) = cut_inside front tail rest in
      (String.◌∷◌ c "" <> p, q, rw (cons_append c front tail, b, e) refl)
]

-- What `int` does with a text: it reads back what `str` has written of the two numbers, the first
-- without a colon, and refuses every text with a colon.
pub record IsInt (lib : Libraries) (show : ℤ → String) (uidvalidity uid : ℤ) : Type 0 where
  pub reads_uidvalidity : lib.int_of_text (show uidvalidity) ≡ some uidvalidity
  pub reads_uid : lib.int_of_text (show uid) ≡ some uid
  pub digits : holds b':' (show uidvalidity) ≡ false
  pub refuses : (text : String) → holds b':' text ≡ true → lib.int_of_text text ≡ none

module _ (lib : Libraries) (show : ℤ → String) (uidvalidity uid : ℤ)
    (int : IsInt lib show uidvalidity uid) where
  abbrev ints_text : String
  ints_text = show uidvalidity <> (":" <> show uid)

  none_ints : (mailbox : String) (a : Option ℤ) → location_of_ints mailbox a none ≡ none
  none_ints mailbox none = refl
  none_ints mailbox (some n) = refl

  -- A second colon before the two numbers leaves one in the last piece.
  rest_refused :
      (mailbox back : String)
      → location_of_rest lib mailbox (cut b':' (back <> (":" <> ints_text))) ≡ none
  rest_refused mailbox back = elim (Bool-cases (holds b':' back)) [
    | inr b ↦ rw (cut-append back ints_text b) (
        rw (int.refuses ints_text (holds-append_colon (show uidvalidity) (show uid)))
          (none_ints mailbox (lib.int_of_text back)))
    | inl b ↦
        let (p, q, e) = cut_inside back (":" <> ints_text) b in
        rw e (
          rw (int.refuses (q <> (":" <> ints_text)) (holds-append_colon q ints_text))
            (none_ints mailbox (lib.int_of_text p)))
  ]

  -- The location in a thread id is read back, unless the mailbox's name has a colon: the source
  -- splits at the first two colons, and then it never is.
  pub location_of-fallback_of :
      (mailbox : String)
      → location_of lib (fallback_of show mailbox uidvalidity uid)
        ≡ (if holds b':' mailbox then none else some (mailbox, uidvalidity, uid))
  unfolding location_of
  location_of-fallback_of mailbox = elim (Bool-cases (holds b':' mailbox)) [
    | inl b ↦
        let (p, q, e) = cut_inside mailbox (":" <> ints_text) b in rw (b, e) (rest_refused p q)
    | inr b ↦
        rw (b, cut-append mailbox ints_text b, cut-append (show uidvalidity) (show uid) int.digits)
          (rw (int.reads_uidvalidity, int.reads_uid) refl)
  ]
