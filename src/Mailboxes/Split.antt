-- ===== src/Mailboxes/Split.antt =====
-- What a split at a separator leaves is joined to the text again.
use Prim.Native.Char.{Char}
use jmap_bridge.Base.{
  ℕ, zero, suc, ◌-◌, ◌≡◌, refl, sym, ap, ◌∙◌, String, ◌<>◌, some, some-injective, List, [], ◌∷◌,
  arith, inl, inr, Option-cases, Bool-cases, ◌==◌, string_eq,
}
use jmap_bridge.Base.Text.{
  size, after_prefix, to_first, join, nil_append, cons_append, append_assoc,
}
use jmap_bridge.Mailboxes.Mapping.{split_from, last_piece, but_last}

-- `s[n:]`
abbrev pub drop : ℕ → String → String
drop zero s = s
drop (suc n) String.[] = ""
drop (suc n) (String.◌∷◌ c s) = drop n s

abbrev pub IsCons : {A : Type 0} → List A → Type 0
IsCons [] = ⊥
IsCons (x ∷ xs) = Unit

head_or : Char → String → Char
head_or d String.[] = d
head_or d (String.◌∷◌ c s) = c

tail : String → String
tail String.[] = ""
tail (String.◌∷◌ c s) = s

char_injective : (c d : Char) → String.◌∷◌ c "" ≡ String.◌∷◌ d "" → c ≡ d
unfolding head_or
char_injective c d p = ap (head_or c) p

after_prefix_lem : (p s r : String) → after_prefix p s ≡ some r → s ≡ p <> r
unfolding after_prefix
after_prefix_lem String.[] s r h = some-injective s r h ∙ sym (nil_append r)
after_prefix_lem (String.◌∷◌ d p) String.[] r h = absurd (ground arith)
after_prefix_lem (String.◌∷◌ d p) (String.◌∷◌ c s) r h =
    elim (Bool-cases (String.◌∷◌ d "" == String.◌∷◌ c "")) [
      | inl b ↦
          let same = char_injective d c (ground (arith, b)) in
          let rest = after_prefix_lem p s r (ground arith) in
          ap (λ x. String.◌∷◌ x s) (sym same) ∙ ap (String.◌∷◌ d) rest ∙ sym (cons_append d p r)
      | inr b ↦ absurd (ground arith)
    ]

drop-append : (p r : String) → drop (size p) (p <> r) ≡ r
drop-append String.[] r = nil_append r
drop-append (String.◌∷◌ c p) r = rw (cons_append c p r) (drop-append p r)

to_first-IsCons : (c : Char) (l : List String) → IsCons (to_first c l)
to_first-IsCons c [] = tt
to_first-IsCons c (p ∷ ps) = tt

split_from-IsCons : (n : ℕ) (sep s : String) → IsCons (split_from n sep s)
unfolding split_from
split_from-IsCons zero sep String.[] = tt
split_from-IsCons (suc n) sep String.[] = tt
split_from-IsCons (suc n) sep (String.◌∷◌ c s) = split_from-IsCons n sep s
split_from-IsCons zero sep (String.◌∷◌ c s) =
    elim (Option-cases (after_prefix sep (String.◌∷◌ c s))) [
      | inl n ↦ rw (split_from, n) (to_first-IsCons c (split_from zero sep s))
      | inr (r, p) ↦ rw (split_from, p) tt
    ]

join-cons :
    (sep p : String) (l : List String) → IsCons l → join sep (p ∷ l) ≡ p <> (sep <> join sep l)
unfolding join
join-cons sep p [] h = absurd h
join-cons sep p (q ∷ ps) h = refl

join-to_first :
    (sep : String) (c : Char) (l : List String)
    → IsCons l
    → join sep (to_first c l) ≡ String.◌∷◌ c (join sep l)
unfolding join
join-to_first sep c [] h = absurd h
join-to_first sep c (p ∷ []) h = refl
join-to_first sep c (p ∷ q ∷ ps) h = cons_append c p (sep <> join sep (q ∷ ps))

module _ (d : Char) (ds : String) where
  abbrev separator : String
  separator = String.◌∷◌ d ds

  pub join-split_from : (n : ℕ) (s : String) → join separator (split_from n separator s) ≡ drop n s
  unfolding split_from join tail
  join-split_from zero String.[] = refl
  join-split_from (suc n) String.[] = refl
  join-split_from (suc n) (String.◌∷◌ c s) = join-split_from n s
  join-split_from zero (String.◌∷◌ c s) =
      elim (Option-cases (after_prefix (String.◌∷◌ d ds) (String.◌∷◌ c s))) [
        | inl e ↦
            rw (split_from, e)
              (join-to_first (String.◌∷◌ d ds) c _ (split_from-IsCons zero (String.◌∷◌ d ds) s)
                ∙ ap (String.◌∷◌ c) (join-split_from zero s))
        | inr (r, p) ↦
            let whole = after_prefix_lem separator (String.◌∷◌ c s) r p in
            let rest : s ≡ ds <> r = ap tail (whole ∙ cons_append d ds r) in
            let back : size separator - 1 ≡ size ds = omega arith in
            rw (split_from, p, back)
              (join-cons separator "" (split_from (size ds) separator s)
                  (split_from-IsCons (size ds) separator s)
                ∙ nil_append _
                ∙ ap (λ t. separator <> t)
                    (join-split_from (size ds) s ∙ ap (drop (size ds)) rest ∙ drop-append ds r)
                ∙ sym whole)
      ]

pub but_last-last_piece :
    (sep p : String) (l : List String)
    → IsCons l
    → join sep (but_last (p ∷ l)) <> (sep <> last_piece (p ∷ l)) ≡ join sep (p ∷ l)
unfolding join but_last last_piece
but_last-last_piece sep p [] h = absurd h
but_last-last_piece sep p (q ∷ []) h = refl
but_last-last_piece sep p (q ∷ r ∷ l) h =
    append_assoc p (sep <> join sep (q ∷ but_last (r ∷ l))) (sep <> last_piece (r ∷ l))
    ∙ ap (λ t. p <> t)
        (append_assoc sep (join sep (q ∷ but_last (r ∷ l))) (sep <> last_piece (r ∷ l))
          ∙ ap (λ t. sep <> t) (but_last-last_piece sep q (r ∷ l) tt))
