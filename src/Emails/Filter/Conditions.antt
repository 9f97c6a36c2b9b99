-- ===== src/Emails/Filter/Conditions.antt =====
-- What a condition of a filter asks of a message, and that its criteria ask the same.
use jmap_bridge.Base.{
  ◌≡◌, refl, sym, String, Bool, true, false, ◌&&◌, not, Option, none, some, List, [], ◌∷◌,
  if◌then◌else◌, inl, inr, Bool-cases, string_eq,
}
use jmap_bridge.Base.Dict
use jmap_bridge.Base.Text.{is_empty}
use jmap_bridge.Errors.{Result, ok, err, ok-injective}
use jmap_bridge.Emails.Filter.{
  Criteria, nil, append, tokens, Condition, Texts, keyword_terms, text_terms, search_terms,
  header_terms, dated, date_terms, plain_terms, concat, supported_condition, translate_condition,
}
use jmap_bridge.Emails.Filter.Server.{Message, read, read_pending, read_key, complete}
use jmap_bridge.Emails.Filter.Pieces.{Adds, has_words, nil-Adds, append-Adds, word_terms-Adds}
use jmap_bridge.Emails.Filter.Keywords.{has_keyword, keyword_search_term-Adds}

module _ (py : Texts) (m : Message) where
  -- What the properties of a condition ask of a message.
  abbrev pub keyword_value : Option String → Bool
  keyword_value none = true
  keyword_value (some k) = has_keyword m k

  abbrev pub no_keyword_value : Option String → Bool
  no_keyword_value none = true
  no_keyword_value (some k) = not (has_keyword m k)

  abbrev pub text_value : String → Option String → Bool
  text_value field none = true
  text_value field (some value) =
      if is_empty value then true else has_words m field (py.split value)

  abbrev pub header_value_of : List String → Bool
  header_value_of [] = true
  header_value_of (name ∷ []) = m.header name ""
  header_value_of (name ∷ value ∷ _) = m.header name value

  abbrev pub date_or_not : (String → Bool) → Option String → Bool
  date_or_not test none = false
  date_or_not test (some date) = test date

  -- A date counts by its day.
  abbrev pub date_value : (String → Bool) → Option String → Bool
  date_value test none = true
  date_value test (some value) =
      if is_empty value then true else date_or_not test (py.search_date value)

  abbrev pub plain_value : Condition → Bool
  plain_value c =
      keyword_value c.has_keyword
      && (no_keyword_value c.not_keyword
          && (text_value "SUBJECT" c.subject
              && (text_value "TEXT" c.text
                  && (text_value "BODY" c.body
                      && (text_value "FROM" c.sender
                          && (text_value "TO" c.to
                              && (text_value "CC" c.cc
                                  && (text_value "BCC" c.bcc && header_value_of c.header))))))))

  abbrev pub matches_condition : Condition → Bool
  matches_condition c =
      plain_value c && (date_value m.before c.before && date_value m.since c.after)

  keyword_terms-Adds : (k : Option String) → Adds m (keyword_terms py false k) (keyword_value k)
  keyword_terms-Adds none = nil-Adds m
  keyword_terms-Adds (some k) = keyword_search_term-Adds m k false

  no_keyword_terms-Adds :
      (k : Option String) → Adds m (keyword_terms py true k) (no_keyword_value k)
  no_keyword_terms-Adds none = nil-Adds m
  no_keyword_terms-Adds (some k) = keyword_search_term-Adds m k true

  -- A text key reads the next text as what to look for.
  abbrev IsField : String → Type 0
  IsField field = (w : String) → Adds m (tokens (field ∷ w ∷ [])) (m.holds field w)

  text_terms-Adds :
      (field : String) (value : Option String)
      → IsField field
      → Adds m (text_terms py field value) (text_value field value)
  unfolding search_terms
  text_terms-Adds field none one = nil-Adds m
  text_terms-Adds field (some value) one = elim (Bool-cases (is_empty value)) [
    | inl e ↦ rw e (nil-Adds m)
    | inr e ↦ rw e (word_terms-Adds m field (py.split value) one)
  ]

  subject-IsField : IsField "SUBJECT"
  unfolding read read_pending read_key complete Dict.get string_eq
  subject-IsField w r = refl

  text-IsField : IsField "TEXT"
  unfolding read read_pending read_key complete Dict.get string_eq
  text-IsField w r = refl

  body-IsField : IsField "BODY"
  unfolding read read_pending read_key complete Dict.get string_eq
  body-IsField w r = refl

  from-IsField : IsField "FROM"
  unfolding read read_pending read_key complete Dict.get string_eq
  from-IsField w r = refl

  to-IsField : IsField "TO"
  unfolding read read_pending read_key complete Dict.get string_eq
  to-IsField w r = refl

  cc-IsField : IsField "CC"
  unfolding read read_pending read_key complete Dict.get string_eq
  cc-IsField w r = refl

  bcc-IsField : IsField "BCC"
  unfolding read read_pending read_key complete Dict.get string_eq
  bcc-IsField w r = refl

  header_terms-Adds : (h : List String) → Adds m (header_terms py h) (header_value_of h)
  unfolding read read_pending read_key complete Dict.get string_eq
  header_terms-Adds [] r = nil-Adds m r
  header_terms-Adds (name ∷ []) r = refl
  header_terms-Adds (name ∷ value ∷ rest) r = refl

  plain_terms-Adds : (c : Condition) → Adds m (plain_terms py c) (plain_value c)
  plain_terms-Adds c = append-Adds m _ _ _ _ (keyword_terms-Adds c.has_keyword) (
      append-Adds m _ _ _ _ (no_keyword_terms-Adds c.not_keyword) (
        append-Adds m _ _ _ _ (text_terms-Adds "SUBJECT" c.subject subject-IsField) (
          append-Adds m _ _ _ _ (text_terms-Adds "TEXT" c.text text-IsField) (
            append-Adds m _ _ _ _ (text_terms-Adds "BODY" c.body body-IsField) (
              append-Adds m _ _ _ _ (text_terms-Adds "FROM" c.sender from-IsField) (
                append-Adds m _ _ _ _ (text_terms-Adds "TO" c.to to-IsField) (
                  append-Adds m _ _ _ _ (text_terms-Adds "CC" c.cc cc-IsField) (
                    append-Adds m _ _ _ _ (text_terms-Adds "BCC" c.bcc bcc-IsField)
                      (header_terms-Adds c.header)))))))))

  -- A key that reads the next text as a date.
  abbrev IsDateKey : String → (String → Bool) → Type 0
  IsDateKey key test = (date : String) → Adds m (tokens (key ∷ date ∷ [])) (test date)

  before-IsDateKey : IsDateKey "BEFORE" m.before
  unfolding read read_pending read_key complete Dict.get string_eq
  before-IsDateKey date r = refl

  since-IsDateKey : IsDateKey "SINCE" m.since
  unfolding read read_pending read_key complete Dict.get string_eq
  since-IsDateKey date r = refl

  dated-Adds :
      (key field value : String) (test : String → Bool) (date : Option String) (cs : Criteria)
      → IsDateKey key test
      → dated py key field value date ≡ ok cs
      → Adds m cs (date_or_not test date)
  dated-Adds key field value test none cs is_key h = absurd (cc)
  dated-Adds key field value test (some date) cs is_key h =
      rw (sym (ok-injective (tokens (key ∷ date ∷ [])) cs h)) (is_key date)

  date_terms-Adds :
      (key field : String) (test : String → Bool) (value : Option String) (cs : Criteria)
      → IsDateKey key test
      → date_terms py key field value ≡ ok cs
      → Adds m cs (date_value test value)
  date_terms-Adds key field test none cs is_key h = rw (sym (ok-injective nil cs h)) (nil-Adds m)
  date_terms-Adds key field test (some value) cs is_key h = elim (Bool-cases (is_empty value)) [
    | inl e ↦ rw e (rw (sym (ok-injective nil cs (rw e at h))) (nil-Adds m))
    | inr e ↦ rw e (dated-Adds key field value test (py.search_date value) cs is_key (rw e at h))
  ]

  concat-Adds :
      (xs ys : Result Criteria) (cs : Criteria) (a b : Bool)
      → concat xs ys ≡ ok cs
      → ((zs : Criteria) → xs ≡ ok zs → Adds m zs a)
      → ((zs : Criteria) → ys ≡ ok zs → Adds m zs b)
      → Adds m cs (a && b)
  concat-Adds (err e) ys cs a b h p q = absurd (cc)
  concat-Adds (ok xs) (err e) cs a b h p q = absurd (cc)
  concat-Adds (ok xs) (ok ys) cs a b h p q =
      rw (sym (ok-injective (append xs ys) cs h)) (append-Adds m xs ys a b (p xs refl) (q ys refl))

  supported_condition-Adds :
      (c : Condition) (others : List String) (cs : Criteria)
      → supported_condition py c others ≡ ok cs
      → Adds m cs (matches_condition c)
  supported_condition-Adds c [] cs h =
      concat-Adds (ok (plain_terms py c)) _ cs (plain_value c) _ h
        (λ zs e. rw (sym (ok-injective (plain_terms py c) zs e)) (plain_terms-Adds c))
        (λ zs e.
          concat-Adds (date_terms py "BEFORE" "before" c.before)
            (date_terms py "SINCE" "after" c.after) zs (date_value m.before c.before)
            (date_value m.since c.after) e
            (λ xs e'. date_terms-Adds "BEFORE" "before" m.before c.before xs before-IsDateKey e')
            (λ xs e'. date_terms-Adds "SINCE" "after" m.since c.after xs since-IsDateKey e'))
  supported_condition-Adds c (o ∷ os) cs h = absurd (cc)

  pub translate_condition-Adds :
      (c : Condition) (cs : Criteria)
      → translate_condition py c ≡ ok cs
      → Adds m cs (matches_condition c)
  unfolding translate_condition
  translate_condition-Adds c cs h = supported_condition-Adds c c.others cs h
