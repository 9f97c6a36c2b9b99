-- ===== src/Encoding/Padding.antt =====
-- Base64 without its padding: what `rstrip` takes away, the decoder puts back.
use jmap_bridge.Base.{ℕ, suc, ◌+◌, ◌-◌, ◌%◌, ◌≤◌, ◌≡◌, refl, ap, false, String, ◌<>◌, arith}
use jmap_bridge.Base.Text.{holds, size, size-append, nil_append, cons_append, sep_append}
use jmap_bridge.Encoding.{rstrip_padding, padding, pad}

size-padding : (n : ℕ) → size (padding n) ≡ n
unfolding padding
size-padding ℕ.zero = refl
size-padding (suc n) = rw (sep_append _ (padding n)) (ap suc (size-padding n))

rstrip_all : (n : ℕ) → rstrip_padding (padding n) ≡ ""
unfolding rstrip_padding padding
rstrip_all ℕ.zero = refl
rstrip_all (suc n) = rw (sep_append _ (padding n), rstrip_padding, rstrip_all n) refl

-- A body without `=`, then the padding: the body is left.
rstrip_body :
    (body : String) (n : ℕ) → holds b'=' body ≡ false → rstrip_padding (body <> padding n) ≡ body
unfolding rstrip_padding
rstrip_body String.[] n h = rw (nil_append (padding n)) (rstrip_all n)
rstrip_body (String.◌∷◌ c body) n h =
    rw (cons_append c body (padding n)) (ground (arith, rstrip_body body n))

pad_count : (m n : ℕ) → n ≤ 2 → (m + n) % 4 ≡ 0 → (4 - m % 4) % 4 ≡ n
pad_count m n small h = omega arith

-- A text in base64 is its body, without `=`, and at most two `=`, and its length is a multiple of
-- four. Such a text is what `pad` makes of it without its padding.
pub pad-rstrip_padding :
    (body : String) (n : ℕ)
    → holds b'=' body ≡ false
    → n ≤ 2
    → size (body <> padding n) % 4 ≡ 0
    → pad (rstrip_padding (body <> padding n)) ≡ body <> padding n
unfolding pad
pad-rstrip_padding body n h small whole = rw (rstrip_body body n h) (
    ap (λ k. body <> padding k)
      (pad_count (size body) n small
        (omega (arith, whole, size-append body (padding n), size-padding n))))
