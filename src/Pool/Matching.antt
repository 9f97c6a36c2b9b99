-- ===== src/Pool/Matching.antt =====
-- What the search for an idle connection pops.
use jmap_bridge.Base.{
  ◌≡◌, refl, ap, Option, none, some, List, [], ◌∷◌, ◌++◌, arith, Bool-cases, inl, inr,
}
use jmap_bridge.Base.{Eq, ◌==◌}
use jmap_bridge.Pool.{Entry, put_back, find_match}

module _ {Conn Hash : Type 0} where
  -- One entry with the hash is taken out, and the others keep their order.
  pub record Popped (h : Hash) (es : List (Entry Conn Hash)) (c : Conn)
      (rest : List (Entry Conn Hash)) : Type 0 where
    pub before : List (Entry Conn Hash)
    pub entry : Entry Conn Hash
    pub after : List (Entry Conn Hash)
    pub listed : es ≡ before ++ (entry ∷ after)
    pub left : rest ≡ before ++ after
    pub handed : entry.connection ≡ c
    pub matches : entry.password_hash ≡ h

  abbrev pub Pops : Hash → List (Entry Conn Hash) → Option (Conn × List (Entry Conn Hash)) → Type 0
  Pops h es none = Unit
  Pops h es (some (c, rest)) = Popped h es c rest

  put_back-Pops :
      (h : Hash) (x : Entry Conn Hash) (es : List (Entry Conn Hash))
      (o : Option (Conn × List (Entry Conn Hash)))
      → Pops h es o
      → Pops h (x ∷ es) (put_back x o)
  put_back-Pops h x es none p = tt
  put_back-Pops h x es (some (c, rest)) p = record {
    before = x ∷ p.before;
    entry = p.entry;
    after = p.after;
    listed = ap (λ l. x ∷ l) p.listed;
    left = ap (λ l. x ∷ l) p.left;
    handed = p.handed;
    matches = p.matches;
  }

module _ {Conn Hash : Type 0} ⦃e : Eq Hash⦄ where
  pub find_match-Pops : (h : Hash) (es : List (Entry Conn Hash)) → Pops h es (find_match h es)
  unfolding find_match
  find_match-Pops h [] = tt
  find_match-Pops h (x ∷ es) = elim (Bool-cases (x.password_hash == h)) [
    | inl b ↦ rw b (record {
      before = [];
      entry = x;
      after = es;
      listed = refl;
      left = refl;
      handed = refl;
      matches = ground arith;
    })
    | inr b ↦ rw b (put_back-Pops h x es (find_match h es) (find_match-Pops h es))
  ]
