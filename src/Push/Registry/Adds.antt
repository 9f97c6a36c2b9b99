-- ===== src/Push/Registry/Adds.antt =====
-- A watcher is made for an account.
use jmap_bridge.Base.{
  ℕ, ◌<◌, ◌≡◌, ◌≢◌, refl, sym, ap, ◌∙◌, true, false, none, some, List, [], if◌then◌else◌, ◌==◌,
  contains, nat_eq, string_eq, pair_eq, arith, inl, inr, Bool-cases, some-injective,
}
use jmap_bridge.Base.Dict
use jmap_bridge.Base.Dict.{Dict, NodupKeys}
use jmap_bridge.IdRedirect.{AccountKey}
use jmap_bridge.Push.{new_watcher, is_none_left}
use jmap_bridge.Push.Registry.{Registry, add_watcher}
use jmap_bridge.Push.Registry.Sessions.{
  Stream, is_open, subscribers_at, Implements, Kept, subscribers-put,
}

module _ (key : AccountKey) (r : Registry) (streams : List Stream)
    (absent : Dict.get key r.by_key ≡ none) (kept : Kept r) (i : Implements r streams) where
  abbrev pub added : Registry
  added = add_watcher key r

  get-added :
      (k : AccountKey)
      → Dict.get k added.by_key ≡ (if k == key then some r.watchers_made else Dict.get k r.by_key)
  get-added k = Dict.get-put k key r.watchers_made r.by_key

  get-added_ne :
      (k : AccountKey) (v : ℕ)
      → (k == key) ≡ false
      → Dict.get k added.by_key ≡ some v
      → Dict.get k r.by_key ≡ some v
  get-added_ne k v b e = sym (get-added k ∙ rw b refl) ∙ e

  get-added_eq :
      (k : AccountKey) (v : ℕ)
      → (k == key) ≡ true
      → Dict.get k added.by_key ≡ some v
      → v ≡ r.watchers_made
  get-added_eq k v b e = some-injective v r.watchers_made (sym e ∙ (get-added k ∙ rw b refl))

  subscribers-added :
      (v : ℕ) → subscribers_at v added ≡ (if v == r.watchers_made then [] else subscribers_at v r)
  subscribers-added v = subscribers-put r r.watchers_made v new_watcher

  old_subscribers :
      (k : AccountKey) (v : ℕ)
      → Dict.get k r.by_key ≡ some v
      → subscribers_at v added ≡ subscribers_at v r
  old_subscribers k v e =
      let old = kept.made k v e in
      let apart : (v == r.watchers_made) ≡ false = ground arith in
      subscribers-added v ∙ rw apart refl

  -- No stream of the account is open.
  none_open : (v x : ℕ) → is_open (key, (v, x)) streams ≡ false
  none_open v x = elim (Bool-cases (is_open (key, (v, x)) streams)) [
    | inl b ↦ let now = i.current key v x b in absurd (cc)
    | inr b ↦ b
  ]

  empty_subscribers : (v : ℕ) → v ≡ r.watchers_made → subscribers_at v added ≡ []
  empty_subscribers v q =
      let b : (v == r.watchers_made) ≡ true = ground arith in subscribers-added v ∙ rw b refl

  added_separate :
      (k l : AccountKey) (v : ℕ)
      → Dict.get k added.by_key ≡ some v
      → Dict.get l added.by_key ≡ some v
      → k ≡ l
  added_separate k l v e f = elim (Bool-cases (k == key)) [
    | inl b ↦ elim (Bool-cases (l == key)) [
      | inl c ↦ ground arith
      | inr c ↦
          let p = get-added_eq k v b e in
          let old = kept.made l v (get-added_ne l v c f) in absurd (omega arith)
    ]
    | inr b ↦ elim (Bool-cases (l == key)) [
      | inl c ↦
          let p = get-added_eq l v c f in
          let old = kept.made k v (get-added_ne k v b e) in absurd (omega arith)
      | inr c ↦ kept.separate k l v (get-added_ne k v b e) (get-added_ne l v c f)
    ]
  ]

  added_fresh : (v x : ℕ) → contains (subscribers_at v added) x ≡ true → x < r.queues_made
  added_fresh v x h = elim (Bool-cases (v == r.watchers_made)) [
    | inl b ↦
        let q : v ≡ r.watchers_made = ground arith in
        absurd (let none_here = sym (ap (λ l. contains l x) (empty_subscribers v q)) ∙ h in cc)
    | inr b ↦ kept.fresh v x (sym (ap (λ l. contains l x) (subscribers-added v ∙ rw b refl)) ∙ h)
  ]

  pub added-Kept : Kept added
  added-Kept = record {
    nodup = Dict.put-NodupKeys key r.watchers_made r.by_key kept.nodup;
    made = λ k v e. elim (Bool-cases (k == key)) [
      | inl b ↦ let p = get-added_eq k v b e in omega arith
      | inr b ↦ let old = kept.made k v (get-added_ne k v b e) in omega arith
    ];
    separate = added_separate;
    fresh = added_fresh;
  }

  pub added_are :
      (k : AccountKey) (v x : ℕ)
      → Dict.get k added.by_key ≡ some v
      → contains (subscribers_at v added) x ≡ is_open (k, (v, x)) streams
  added_are k v x e = elim (Bool-cases (k == key)) [
    | inl b ↦
        let p : k ≡ key = ground arith in
        let q = get-added_eq k v b e in
        (ap (λ l. contains l x) (empty_subscribers v q))
        ∙ sym (ap (λ l. is_open (l, (v, x)) streams) p ∙ none_open v x)
    | inr b ↦
        let e' = get-added_ne k v b e in
        ap (λ l. contains l x) (old_subscribers k v e') ∙ i.streams_are k v x e'
  ]

  pub added_current :
      (k : AccountKey) (v x : ℕ)
      → is_open (k, (v, x)) streams ≡ true
      → Dict.get k added.by_key ≡ some v
  added_current k v x h = elim (Bool-cases (k == key)) [
    | inl b ↦
        let p : k ≡ key = ground arith in
        absurd (let shut = ap (λ l. is_open (l, (v, x)) streams) p ∙ none_open v x in cc)
    | inr b ↦ get-added k ∙ rw b (i.current k v x h)
  ]

  pub added_used :
      (k : AccountKey) (v : ℕ)
      → k ≢ key
      → Dict.get k added.by_key ≡ some v
      → is_none_left (subscribers_at v added) ≡ false
  added_used k v ne e =
      let b : (k == key) ≡ false = ground arith in
      let e' = get-added_ne k v b e in ap is_none_left (old_subscribers k v e') ∙ i.used k v e'

  pub at_added : Dict.get key added.by_key ≡ some r.watchers_made
  at_added = Dict.get-put_self key r.watchers_made r.by_key
