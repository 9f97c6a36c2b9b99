-- ===== src/Emails/Filter/Scope.antt =====
-- The mailbox that a query selects, and the filters that name no other one.
use jmap_bridge.Base.{
  ◌≡◌, ◌⊎◌, refl, ap, ◌∙◌, inl, inr, Bool-cases, Option-cases, String, Bool, true, false, Option,
  none, some, some-injective, ◌==◌, string_eq, if◌then◌else◌, arith,
}
use jmap_bridge.Emails.Filter.{
  Criteria, Filter, condition, operation, Filters, none_left, next, Texts, given, find_in_mailbox,
  find_in_conditions,
}
use jmap_bridge.Emails.Filter.Server.{Message, search}
use jmap_bridge.Emails.Filter.Meaning.{is_in, matches, matches_all}

-- Every condition that names a mailbox names the one that is selected.
unfoldable mutual
  pub IsScoped : Option String → Filter → Type 0
  IsScoped scope (condition c) = (c.in_mailbox ≡ none) ⊎ (c.in_mailbox ≡ scope)
  IsScoped scope (operation op fs) = AreScoped scope fs

  pub AreScoped : Option String → Filters → Type 0
  AreScoped scope none_left = Unit
  AreScoped scope (next f fs) = IsScoped scope f × AreScoped scope fs

-- Every condition is about the mailbox, or about all of them.
unfoldable mutual
  pub IsWithin : String → Filter → Type 0
  IsWithin here (condition c) = is_in c.in_mailbox here ≡ true
  IsWithin here (operation op fs) = AreWithin here fs

  pub AreWithin : String → Filters → Type 0
  AreWithin here none_left = Unit
  AreWithin here (next f fs) = IsWithin here f × AreWithin here fs

condition-IsWithin :
    (here : String) (scope named : Option String)
    → is_in scope here ≡ true
    → (named ≡ none) ⊎ (named ≡ scope)
    → is_in named here ≡ true
condition-IsWithin here scope named selected (inl e) = rw e refl
condition-IsWithin here scope named selected (inr e) = rw e selected

mutual
  unfolding IsScoped IsWithin

  pub scoped-IsWithin :
      (here : String) (scope : Option String) (f : Filter)
      → is_in scope here ≡ true
      → IsScoped scope f
      → IsWithin here f
  scoped-IsWithin here scope (condition c) selected s =
      condition-IsWithin here scope c.in_mailbox selected s
  scoped-IsWithin here scope (operation op fs) selected s =
      scoped-AreWithin here scope fs selected s

  scoped-AreWithin :
      (here : String) (scope : Option String) (fs : Filters)
      → is_in scope here ≡ true
      → AreScoped scope fs
      → AreWithin here fs
  scoped-AreWithin here scope none_left selected s = tt
  scoped-AreWithin here scope (next f fs) selected (s, ss) =
      (scoped-IsWithin here scope f selected s, scoped-AreWithin here scope fs selected ss)

given-eq-some : (named : Option String) (id : String) → given named ≡ some id → named ≡ some id
given-eq-some none id h = h
given-eq-some (some s) id h = ground arith

module _ (py : Texts) (m : Message) (here id : String) (elsewhere : (id == here) ≡ false) where
  mutual
    unfolding find_in_mailbox matches

    -- A filter that selects a mailbox asks for no message of another one.
    pub matches-elsewhere : (f : Filter) → find_in_mailbox f ≡ some id → matches py m here f ≡ false
    matches-elsewhere (condition c) h = rw (given-eq-some c.in_mailbox id h, elsewhere) refl
    matches-elsewhere (operation none fs) h = absurd (cc)
    matches-elsewhere (operation (some s) fs) h = elim (Bool-cases (s == "AND")) [
      | inl e ↦ rw e (matches_all-elsewhere fs (rw e at h))
      | inr e ↦ absurd (let no_mailbox = (rw e at h) in cc)
    ]

    matches_all-elsewhere :
        (fs : Filters) → find_in_conditions fs ≡ some id → matches_all py m here fs ≡ false
    matches_all-elsewhere none_left h = absurd (cc)
    matches_all-elsewhere (next f fs) h = elim (Option-cases (find_in_mailbox f)) [
      | inl e ↦ let later = matches_all-elsewhere fs (rw e at h) in ground (arith, later)
      | inr (id', e) ↦
          let same = some-injective id' id (rw e at h) in
          let first = matches-elsewhere f (e ∙ ap some same) in rw first refl
    ]

-- What a query that selects a mailbox, or searches all of them, finds of a message.
abbrev pub finds : Option String → String → Message → Criteria → Option Bool
finds scope here m cs = if is_in scope here then search m cs else some false
