-- ===== src/Emails/Filter/Translated.antt =====
-- A filter and the criteria that it is translated to select the same messages.
use jmap_bridge.Base.{
  ◌≡◌, refl, sym, ap, ◌∙◌, String, Bool, true, ◌==◌, inl, inr, Bool-cases, Option, none, some, List,
  [], ◌∷◌, string_eq,
}
use jmap_bridge.Errors.{Result, ok, err, ok-injective}
use jmap_bridge.Emails.Filter.{
  Criteria, Criterion, nil, cons, tokens, Filter, condition, operation, Filters, none_left, next,
  Texts, cons_group, add_group, or_groups, Operator, all_of, any_of, none_of, operator_of, combine,
  combine_all, translate_operator, translate_filter, translate_all, or_all, build_search_criteria,
  find_in_mailbox,
}
use jmap_bridge.Emails.Filter.Server.{Message, search, read, read_pending, read_key, complete}
use jmap_bridge.Emails.Filter.Pieces.{Adds}
use jmap_bridge.Emails.Filter.Meaning.{
  matches, matches_with, matches_all, matches_any, matches_none, Asks, IsSearchable, AreSearchable,
  nonblank, Each, Groups, nil_value, all-Adds, none-Adds, any-Adds,
}
use jmap_bridge.Emails.Filter.Scope.{
  IsScoped, IsWithin, AreWithin, scoped-IsWithin, matches-elsewhere, finds,
}
use jmap_bridge.Emails.Filter.Meaning.{is_in}
use jmap_bridge.Emails.Filter.Conditions.{translate_condition-Adds}

module _ (py : Texts) (m : Message) (here : String) where
  combine-Adds :
      (op : Operator) (f : Filter) (fs : Filters) (gs : List Criteria)
      → Each py m here (some op) (next f fs) gs
      → Adds m (combine op (nonblank gs)) (
          matches_with
            (some op)
            (matches_all py m here (next f fs))
            (matches_any py m here (next f fs))
            (matches_none py m here (next f fs)))
  combine-Adds all_of f fs gs e = all-Adds py m here (next f fs) gs e
  combine-Adds any_of f fs gs e = any-Adds py m here f fs gs e
  combine-Adds none_of f fs gs e = none-Adds py m here (next f fs) gs e

  combine_all-Adds :
      (op : Operator) (f : Filter) (fs : Filters) (r : Result (List Criteria)) (cs : Criteria)
      → combine_all op r ≡ ok cs
      → ((groups : List Criteria) → r ≡ ok groups → Groups py m here (some op) (next f fs) groups)
      → Adds m cs (
          matches_with
            (some op)
            (matches_all py m here (next f fs))
            (matches_any py m here (next f fs))
            (matches_none py m here (next f fs)))
  combine_all-Adds op f fs (err e) cs h each = absurd (cc)
  combine_all-Adds op f fs (ok groups) cs h each =
      let (gs, same, e) = each groups refl in
      rw (sym (ok-injective (combine op groups) cs h)) (rw same (combine-Adds op f fs gs e))

  translate_operator-Adds :
      (given : Option String) (op : Option Operator) (fs : Filters) (cs : Criteria)
      (r : Result (List Criteria))
      → translate_operator py given op fs r ≡ ok cs
      → ((groups : List Criteria) → r ≡ ok groups → Groups py m here op fs groups)
      → Adds m cs (
          matches_with op
            (matches_all py m here fs)
            (matches_any py m here fs)
            (matches_none py m here fs))
  translate_operator-Adds given none fs cs r h each = absurd (cc)
  translate_operator-Adds given (some op) none_left cs r h each = absurd (cc)
  translate_operator-Adds given (some op) (next f fs) cs r h each =
      combine_all-Adds op f fs r cs h each

  add_group-Groups :
      (op : Option Operator) (f : Filter) (fs : Filters) (r : Result Criteria)
      (rs : Result (List Criteria)) (groups : List Criteria)
      → add_group r rs ≡ ok groups
      → Asks py op r
      → ((cs : Criteria) → r ≡ ok cs → Adds m cs (matches py m here f))
      → ((gs : List Criteria) → rs ≡ ok gs → Groups py m here op fs gs)
      → Groups py m here op (next f fs) groups
  unfolding nonblank
  add_group-Groups op f fs (err e) rs groups h asks p q = absurd (cc)
  add_group-Groups op f fs (ok g) (err e) groups h asks p q = absurd (cc)
  add_group-Groups op f fs (ok g) (ok gs) groups h asks p q =
      let (gs', same, e) = q gs refl in
      (
        g ∷ gs',
        sym (ok-injective (cons_group g gs) groups h) ∙ ap (cons_group g) same,
        (p g refl, asks, e),
      )

  mutual
    unfolding IsSearchable IsWithin translate_filter matches nonblank

    pub translate_filter-Adds :
        (f : Filter) (cs : Criteria)
        → translate_filter py f ≡ ok cs
        → IsSearchable py f
        → IsWithin here f
        → Adds m cs (matches py m here f)
    translate_filter-Adds (condition c) cs h s within =
        rw within (translate_condition-Adds py m c cs h)
    translate_filter-Adds (operation given fs) cs h s within =
        translate_operator-Adds given (operator_of given) fs cs (translate_all py fs) h
          λ groups e. translate_all-Groups (operator_of given) fs groups e s within

    translate_all-Groups :
        (op : Option Operator) (fs : Filters) (groups : List Criteria)
        → translate_all py fs ≡ ok groups
        → AreSearchable py op fs
        → AreWithin here fs
        → Groups py m here op fs groups
    translate_all-Groups op none_left groups h s within = ([], sym (ok-injective [] groups h), tt)
    translate_all-Groups op (next f fs) groups h (searchable, asks, rest) (within, all_within) =
        add_group-Groups op f fs (translate_filter py f) (translate_all py fs) groups h asks
          (λ cs e. translate_filter-Adds f cs e searchable within)
          (λ gs e. translate_all-Groups op fs gs e rest all_within)

  or_all-search :
      (r : Result Criteria) (cs : Criteria) (b : Bool)
      → or_all py r ≡ ok cs
      → ((ds : Criteria) → r ≡ ok ds → Adds m ds b)
      → search m cs ≡ some b
  unfolding search read read_pending read_key complete string_eq
  or_all-search (err e) cs b h p = absurd (cc)
  or_all-search (ok nil) cs b h p =
      rw (sym (ok-injective (tokens ("ALL" ∷ [])) cs h))
        (rw (nil_value py m here b (p nil refl)) refl)
  or_all-search (ok (cons d ds)) cs b h p =
      rw (sym (ok-injective (cons d ds) cs h)) (rw (search, p (cons d ds) refl true) refl)

  finds-matching :
      (f : Filter) (cs : Criteria) (scope : Option String)
      → find_in_mailbox f ≡ scope
      → build_search_criteria py f ≡ ok cs
      → IsSearchable py f
      → IsScoped scope f
      → is_in scope here ≡ true
      → search m cs ≡ some (matches py m here f)
  unfolding build_search_criteria
  finds-matching f cs scope found h s scoped selected =
      or_all-search (translate_filter py f) cs (matches py m here f) h
        λ ds e. translate_filter-Adds f ds e s (scoped-IsWithin here scope f selected scoped)

  finds_in :
      (f : Filter) (cs : Criteria) (scope : Option String)
      → find_in_mailbox f ≡ scope
      → build_search_criteria py f ≡ ok cs
      → IsSearchable py f
      → IsScoped scope f
      → finds scope here m cs ≡ some (matches py m here f)
  finds_in f cs none found h s scoped = finds-matching f cs none found h s scoped refl
  finds_in f cs (some id) found h s scoped = elim (Bool-cases (id == here)) [
    | inl e ↦ rw e (finds-matching f cs (some id) found h s scoped e)
    | inr e ↦ rw (e, matches-elsewhere py m here id e f found) refl
  ]

  -- Where a filter is translated, a query finds a message, by the mailbox that it selects and
  -- by what an IMAP server makes of the criteria there, if and only if the message, in the
  -- mailbox that it is in, is one that the filter asks for. It is assumed that the filter
  -- names no other mailbox than the one that is selected, and that no condition directly under
  -- an OR or a NOT is without criteria of its own.
  pub build_search_criteria-search :
      (f : Filter) (cs : Criteria)
      → build_search_criteria py f ≡ ok cs
      → IsSearchable py f
      → IsScoped (find_in_mailbox f) f
      → finds (find_in_mailbox f) here m cs ≡ some (matches py m here f)
  build_search_criteria-search f cs h s scoped = finds_in f cs (find_in_mailbox f) refl h s scoped

-- A condition without criteria disappears from an OR, which then asks for the other condition only.
pub build_search_criteria-or_blank :
    (py : Texts) (f g : Filter) (c : Criterion) (cs : Criteria)
    → translate_filter py f ≡ ok nil
    → translate_filter py g ≡ ok (cons c cs)
    → build_search_criteria py (operation (some "OR") (next f (next g none_left)))
      ≡ build_search_criteria py g
unfolding build_search_criteria translate_filter or_groups string_eq
build_search_criteria-or_blank py f g c cs p q = rw (p, q) refl
