-- ===== src/Emails/Filter/Pieces.antt =====
-- What a server makes of the pieces that search criteria are put together from.
use jmap_bridge.Base.{
  ◌≡◌, refl, ap, ◌∙◌, String, Bool, true, ◌&&◌, ◌||◌, not, Option, none, some, List, [], ◌∷◌,
  string_eq, arith,
}
use jmap_bridge.Base.Dict
use jmap_bridge.Base.Dict.{Dict, get-ne, get-nil}
use jmap_bridge.Emails.Filter.{
  Criteria, nil, cons, token, group, append, tokens, without_star, word_terms,
}
use jmap_bridge.Emails.Filter.Server.{
  Message, Search, read, read_one, read_pending, read_key, complete, and_then,
}

-- The criteria are complete keys, and the message has all of them if and only if the value is true.
abbrev pub Adds : Message → Criteria → Bool → Type 0
Adds m cs b =
    (r : Bool)
    → read m cs (record { result = r; pending = [] })
      ≡ some (record { result = r && b; pending = [] })

-- Every word, less a star at its end, is in the field.
unfoldable pub has_words : Message → String → List String → Bool
unfolding without_star
has_words m field [] = true
has_words m field (w ∷ words) = m.holds field (without_star w) && has_words m field words

and_assoc : (a b c : Bool) → ((a && b) && c) ≡ (a && (b && c))
and_assoc a b c = ground arith

and_then_assoc :
    (o : Option Search) (f g h : Search → Option Search)
    → ((t : Search) → h t ≡ and_then (f t) g)
    → and_then o h ≡ and_then (and_then o f) g
and_then_assoc none f g h same = refl
and_then_assoc (some t) f g h same = same t

module _ (m : Message) where
  pub read-append :
      (xs ys : Criteria) (s : Search) → read m (append xs ys) s ≡ and_then (read m xs s) (read m ys)
  unfolding read
  read-append nil ys s = refl
  read-append (cons x xs) ys s =
      and_then_assoc (read_one m x s) (read m xs) (read m ys) (read m (append xs ys))
        λ t. read-append xs ys t

  pub nil-Adds : Adds m nil true
  unfolding read
  nil-Adds r = ground arith

  pub append-Adds :
      (xs ys : Criteria) (a b : Bool) → Adds m xs a → Adds m ys b → Adds m (append xs ys) (a && b)
  append-Adds xs ys a b p q r =
      read-append xs ys (record { result = r; pending = [] })
      ∙ rw (p r)
          (q (r && a) ∙ ap (λ x. some (record { result = x; pending = [] })) (and_assoc r a b))

  pub word_terms-Adds :
      (field : String) (words : List String)
      → ((w : String) → Adds m (tokens (field ∷ w ∷ [])) (m.holds field w))
      → Adds m (word_terms field words) (has_words m field words)
  unfolding word_terms has_words
  word_terms-Adds field [] one = nil-Adds
  word_terms-Adds field (w ∷ words) one =
      append-Adds (tokens (field ∷ without_star w ∷ [])) (word_terms field words)
        (m.holds field (without_star w)) (has_words m field words) (one (without_star w))
        (word_terms-Adds field words one)

  pub subject-Adds : (w : String) → Adds m (tokens ("SUBJECT" ∷ w ∷ [])) (m.holds "SUBJECT" w)
  unfolding read read_pending read_key complete Dict.get string_eq
  subject-Adds w r = refl

  pub negated-Adds :
      (g rest : Criteria) (a b : Bool)
      → Adds m g a
      → Adds m rest b
      → Adds m (cons (token "NOT") (cons (group g) rest)) (not a && b)
  unfolding read read_pending read_key complete Dict.get string_eq
  negated-Adds g rest a b p q r = rw (p true) (
      q (r && not a) ∙ ap (λ x. some (record { result = x; pending = [] })) (and_assoc r (not a) b))

  pub either-Adds :
      (g h : Criteria) (a b : Bool)
      → Adds m g a
      → Adds m h b
      → Adds m (cons (token "OR") (cons (group g) (cons (group h) nil))) (a || b)
  unfolding read read_pending read_key complete Dict.get string_eq
  either-Adds g h a b p q r = rw (p true) (rw (q true) refl)
