-- ===== src/Threads/Criteria.antt =====
-- types/thread.py: the search for the messages of a conversation, and what a server makes of it.
use jmap_bridge.Base.{
  ◌≡◌, refl, ap, ◌∙◌, String, Bool, false, true, ◌||◌, Option, none, some, List, [], ◌∷◌, string_eq,
  arith,
}
use jmap_bridge.Base.Dict
use jmap_bridge.Errors.{Result, ok, err, failed}
use jmap_bridge.Emails.Filter.{Criteria, cons, token, append, tokens}
use jmap_bridge.Emails.Filter.Server.{
  Message, Search, Pending, negation, first_of_two, second_of_two, has_flag, in_field, header_name,
  header_value, before_date, since_date, read, read_pending, read_key, complete, search, and_then,
}
use jmap_bridge.Emails.Filter.Pieces.{read-append}

-- `["HEADER", name, value]`
abbrev pub header_clause : String → String → Criteria
header_clause name value = tokens ("HEADER" ∷ name ∷ value ∷ [])

unfoldable pub clauses_of : List String → List Criteria
clauses_of [] = []
clauses_of (value ∷ values) =
    header_clause "Message-Id" value
    ∷ header_clause "References" value
    ∷ header_clause "In-Reply-To" value
    ∷ clauses_of values

-- The loop over `clauses[1:]`: `["OR"] + criteria + clause`.
unfoldable pub or_clauses : Criteria → List Criteria → Criteria
or_clauses criteria [] = criteria
or_clauses criteria (clause ∷ clauses) =
    or_clauses (cons (token "OR") (append criteria clause)) clauses

abbrev pub or_first : List Criteria → Result Criteria
or_first [] = err (failed "IndexError")
or_first (clause ∷ clauses) = ok (or_clauses clause clauses)

unfoldable pub build_or_criteria : List String → Result Criteria
unfolding clauses_of or_clauses
build_or_criteria basis_values = or_first (clauses_of basis_values)

module _ (m : Message) where
  -- One of the three headers contains one of the values.
  unfoldable pub mentions : List String → Bool
  mentions [] = false
  mentions (value ∷ values) =
      m.header "Message-Id" value
      || (m.header "References" value || (m.header "In-Reply-To" value || mentions values))

  -- The first text that is read starts a key.
  abbrev AtKey : List Pending → Type 0
  AtKey [] = Unit
  AtKey (negation ∷ ps) = Unit
  AtKey (first_of_two ∷ ps) = Unit
  AtKey (second_of_two a ∷ ps) = Unit
  AtKey (_ ∷ ps) = ⊥

  -- The criteria are one key, which the message has if and only if the value is true.
  abbrev IsKey : Criteria → Bool → Type 0
  IsKey cs b =
      (r : Bool) (ps : List Pending)
      → AtKey ps
      → read m cs (record { result = r; pending = ps }) ≡ complete b r ps

  read_pending_key :
      (t : String) (r : Bool) (ps : List Pending)
      → AtKey ps
      → read_pending m t r ps ≡ read_key m t (record { result = r; pending = ps })
  unfolding read_pending
  read_pending_key t r [] at = refl
  read_pending_key t r (negation ∷ ps) at = refl
  read_pending_key t r (first_of_two ∷ ps) at = refl
  read_pending_key t r (second_of_two a ∷ ps) at = refl
  read_pending_key t r (has_flag b ∷ ps) at = absurd at
  read_pending_key t r (in_field f ∷ ps) at = absurd at
  read_pending_key t r (header_name ∷ ps) at = absurd at
  read_pending_key t r (header_value name ∷ ps) at = absurd at
  read_pending_key t r (before_date ∷ ps) at = absurd at
  read_pending_key t r (since_date ∷ ps) at = absurd at

  and_then-some : (o : Option Search) → and_then o (λ s. some s) ≡ o
  and_then-some none = refl
  and_then-some (some s) = refl

  header_clause-IsKey :
      (name value : String) → IsKey (header_clause name value) (m.header name value)
  unfolding read read_pending read_key Dict.get string_eq
  header_clause-IsKey name value r ps at =
      rw (read_pending_key "HEADER" r ps at) (and_then-some (complete (m.header name value) r ps))

  second_key :
      (a b : Bool) (cs : Criteria) (r : Bool) (ps : List Pending)
      → IsKey cs b
      → and_then (complete a r (first_of_two ∷ ps)) (read m cs) ≡ complete (a || b) r ps
  unfolding complete
  second_key a b cs r ps key = key r (second_of_two a ∷ ps) tt

  either-IsKey :
      (xs ys : Criteria) (a b : Bool)
      → IsKey xs a
      → IsKey ys b
      → IsKey (cons (token "OR") (append xs ys)) (a || b)
  unfolding read read_key Dict.get string_eq
  either-IsKey xs ys a b p q r ps at = rw (read_pending_key "OR" r ps at) (
      read-append m xs ys (record { result = r; pending = first_of_two ∷ ps })
      ∙ rw (p r (first_of_two ∷ ps) tt) (second_key a b ys r ps q))

  -- Each of the clauses is a key.
  abbrev AreKeys : List Criteria → List Bool → Type 0
  AreKeys [] [] = Unit
  AreKeys (c ∷ cs) (b ∷ bs) = IsKey c b × AreKeys cs bs
  AreKeys _ _ = ⊥

  abbrev any_of : Bool → List Bool → Bool
  any_of a [] = a
  any_of a (b ∷ bs) = any_of (a || b) bs

  or_clauses-IsKey :
      (c : Criteria) (cs : List Criteria) (b : Bool) (bs : List Bool)
      → IsKey c b
      → AreKeys cs bs
      → IsKey (or_clauses c cs) (any_of b bs)
  unfolding or_clauses
  or_clauses-IsKey c [] b [] key keys = key
  or_clauses-IsKey c [] b (b' ∷ bs) key keys = absurd keys
  or_clauses-IsKey c (c' ∷ cs) b [] key keys = absurd keys
  or_clauses-IsKey c (c' ∷ cs) b (b' ∷ bs) key (key', keys) =
      or_clauses-IsKey (cons (token "OR") (append c c')) cs (b || b') bs
        (either-IsKey c c' b b' key key') keys

  abbrev answers_of : List String → List Bool
  answers_of [] = []
  answers_of (value ∷ values) =
      m.header "Message-Id" value
      ∷ m.header "References" value
      ∷ m.header "In-Reply-To" value
      ∷ answers_of values

  clauses_of-AreKeys : (values : List String) → AreKeys (clauses_of values) (answers_of values)
  unfolding clauses_of
  clauses_of-AreKeys [] = tt
  clauses_of-AreKeys (value ∷ values) = (
    header_clause-IsKey "Message-Id" value,
    (
      header_clause-IsKey "References" value,
      (header_clause-IsKey "In-Reply-To" value, clauses_of-AreKeys values),
    ),
  )

  any_of-mentions :
      (a : Bool) (values : List String) → any_of a (answers_of values) ≡ (a || mentions values)
  unfolding mentions
  any_of-mentions a [] = ground arith
  any_of-mentions a (value ∷ values) =
      any_of-mentions
        (((a || m.header "Message-Id" value) || m.header "References" value)
          || m.header "In-Reply-To" value)
        values
      ∙ ground arith

  -- The search for some values, at least one, finds exactly the messages that have one of the
  -- values in their Message-Id, References or In-Reply-To.
  pub build_or_criteria-search :
      (value : String) (values : List String)
      → (criteria : Criteria) × (build_or_criteria (value ∷ values) ≡ ok criteria)
        × (search m criteria ≡ some (mentions (value ∷ values)))
  unfolding build_or_criteria clauses_of search mentions complete
  build_or_criteria-search value values =
      let clauses =
        header_clause "References" value ∷ header_clause "In-Reply-To" value ∷ clauses_of values in
      let answers =
        m.header "References" value ∷ m.header "In-Reply-To" value ∷ answers_of values in
      let (_, keys) = clauses_of-AreKeys (value ∷ values) in
      let key =
        or_clauses-IsKey (header_clause "Message-Id" value) clauses (m.header "Message-Id" value)
          answers (header_clause-IsKey "Message-Id" value) keys in
      (
        or_clauses (header_clause "Message-Id" value) clauses,
        refl,
        rw (key true [] tt) (ap some (any_of-mentions false (value ∷ values))),
      )
