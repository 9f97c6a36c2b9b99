-- ===== src/Push/Registry/Closes.antt =====
-- A stream closes.
use mathlib.Core.Path.{subst₂, subst⁻¹}
use jmap_bridge.Base.{
  ℕ, ◌<◌, ◌≡◌, refl, sym, ap, ◌∙◌, true, false, ◌&&◌, none, some, List, [], ◌∷◌, if◌then◌else◌,
  ◌==◌, contains, ==_refl, nat_eq, string_eq, pair_eq, arith, inl, inr, Bool-cases, some-injective,
}
use jmap_bridge.Base.Dict
use jmap_bridge.Base.Dict.{Dict, NodupKeys}
use jmap_bridge.IdRedirect.{AccountKey}
use jmap_bridge.Push.{unsubscribe, discard_subscriber, is_none_left}
use jmap_bridge.Push.Members.{contains-discard}
use jmap_bridge.Push.Registry.{
  Registry, watcher_at, put_watcher, is_watcher, forget_if, unsubscribe_account,
}
use jmap_bridge.Push.Registry.Sessions.{
  Stream, is_open, close_stream, subscribers_at, Implements, Kept, subscribers-put,
  is_open-close_stream,
}

none_left_contains : (qs : List ℕ) (x : ℕ) → is_none_left qs ≡ true → contains qs x ≡ false
none_left_contains [] x h = refl
none_left_contains (q ∷ qs) x h = cc

module _ (key : AccountKey) (w q : ℕ) (r : Registry) (streams : List Stream)
    (at_key : Dict.get key r.by_key ≡ some w) (kept : Kept r) (i : Implements r streams) where
  abbrev rest : List ℕ
  rest = discard_subscriber q (subscribers_at w r)

  abbrev left : Registry
  left = put_watcher w (unsubscribe q (watcher_at w r)).0 r

  subscribers-left : (v : ℕ) → subscribers_at v left ≡ (if v == w then rest else subscribers_at v r)
  unfolding unsubscribe
  subscribers-left v = subscribers-put r w v (unsubscribe q (watcher_at w r)).0

  at_rest : subscribers_at w left ≡ rest
  at_rest = subscribers-left w ∙ rw (==_refl w) refl

  left_other : (v : ℕ) → (v == w) ≡ false → subscribers_at v left ≡ subscribers_at v r
  left_other v b = subscribers-left v ∙ rw b refl

  left_are :
      (k : AccountKey) (v x : ℕ)
      → Dict.get k r.by_key ≡ some v
      → contains (subscribers_at v left) x
        ≡ is_open (k, (v, x)) (close_stream (key, (w, q)) streams)
  left_are k v x e = elim (Bool-cases (v == w)) [
    | inl b ↦
        let p : v ≡ w = ground arith in
        let same = kept.separate k key w (e ∙ ap some p) at_key in
        subst₂
          (λ l u.
            contains (subscribers_at u left) x
            ≡ is_open (l, (u, x)) (close_stream (key, (w, q)) streams))
          (sym same) (sym p)
          (ap (λ l. contains l x) at_rest
            ∙ (ground (
              arith,
              contains-discard q x (subscribers_at w r),
              i.streams_are key w x at_key,
              is_open-close_stream (key, (w, q)) (key, (w, x)) streams,
              ==_refl key,
              ==_refl w,
            )))
    | inr b ↦
        ap (λ l. contains l x) (left_other v b)
        ∙ ground
            (arith, i.streams_are k v x e, is_open-close_stream (key, (w, q)) (k, (v, x)) streams)
  ]

  left_current :
      (k : AccountKey) (v x : ℕ)
      → is_open (k, (v, x)) (close_stream (key, (w, q)) streams) ≡ true
      → Dict.get k r.by_key ≡ some v
  left_current k v x h =
      i.current k v x (ground (arith, is_open-close_stream (key, (w, q)) (k, (v, x)) streams))

  left_fresh : (v x : ℕ) → contains (subscribers_at v left) x ≡ true → x < r.queues_made
  left_fresh v x h = elim (Bool-cases (v == w)) [
    | inl b ↦
        let now : contains rest x ≡ true =
          sym (ap (λ l. contains l x) (subscribers-left v ∙ rw b refl)) ∙ h in
        kept.fresh w x (ground (arith, contains-discard q x (subscribers_at w r)))
    | inr b ↦ kept.fresh v x (sym (ap (λ l. contains l x) (left_other v b)) ∙ h)
  ]

  -- The account has another stream.
  left-Implements : is_none_left rest ≡ false → Implements left (close_stream (key, (w, q)) streams)
  left-Implements more = record {
    streams_are = left_are;
    current = left_current;
    used = λ k v e. elim (Bool-cases (v == w)) [
      | inl b ↦ ap is_none_left (subscribers-left v ∙ rw b refl) ∙ more
      | inr b ↦ ap is_none_left (left_other v b) ∙ i.used k v e
    ];
  }

  left-Kept : Kept left
  left-Kept = record {
    nodup = kept.nodup;
    made = kept.made;
    separate = kept.separate;
    fresh = left_fresh;
  }

  abbrev gone : Registry
  gone = forget_if true key left

  get-gone :
      (k : AccountKey) → Dict.get k gone.by_key ≡ (if k == key then none else Dict.get k r.by_key)
  get-gone k = Dict.get-pop k key r.by_key kept.nodup

  still_there :
      (k : AccountKey) (v : ℕ)
      → Dict.get k gone.by_key ≡ some v
      → ((k == key) ≡ false) × (Dict.get k r.by_key ≡ some v)
  still_there k v e = elim (Bool-cases (k == key)) [
    | inl b ↦ absurd (let missing : none ≡ some v = sym (get-gone k ∙ rw b refl) ∙ e in cc)
    | inr b ↦ (b, sym (get-gone k ∙ rw b refl) ∙ e)
  ]

  still_current :
      (k : AccountKey) (v x : ℕ)
      → is_none_left rest ≡ true
      → is_open (k, (v, x)) (close_stream (key, (w, q)) streams) ≡ true
      → (k == key) ≡ false
  still_current k v x last h = elim (Bool-cases (k == key)) [
    | inr b ↦ b
    | inl b ↦
        let p : k ≡ key = ground arith in
        let e = left_current k v x h in
        let same : v ≡ w =
          some-injective v w (sym e ∙ (ap (λ l. Dict.get l r.by_key) p ∙ at_key)) in
        let here = left_are k v x e ∙ h in
        let nothing =
          ap (λ u. contains (subscribers_at u left) x) same
          ∙ (ap (λ l. contains l x) at_rest ∙ none_left_contains rest x last) in
        absurd (let impossible = sym here ∙ nothing in cc)
  ]

  other_watcher :
      (k : AccountKey) (v : ℕ)
      → Dict.get k r.by_key ≡ some v
      → (k == key) ≡ false
      → (v == w) ≡ false
  other_watcher k v e b = elim (Bool-cases (v == w)) [
    | inr c ↦ c
    | inl c ↦
        let p : v ≡ w = ground arith in
        let same = kept.separate k key w (e ∙ ap some p) at_key in absurd (ground arith)
  ]

  gone-Implements : is_none_left rest ≡ true → Implements gone (close_stream (key, (w, q)) streams)
  gone-Implements last = record {
    streams_are = λ k v x e. left_are k v x (still_there k v e).1;
    current = λ k v x h. get-gone k ∙ rw (still_current k v x last h) (left_current k v x h);
    used = λ k v e.
        let (b, e') = still_there k v e in
        let apart = other_watcher k v e' b in ap is_none_left (left_other v apart) ∙ i.used k v e';
  }

  gone-Kept : Kept gone
  gone-Kept = record {
    nodup = Dict.pop-NodupKeys key r.by_key kept.nodup;
    made = λ k v e. kept.made k v (still_there k v e).1;
    separate = λ k l v e f. kept.separate k l v (still_there k v e).1 (still_there l v f).1;
    fresh = left_fresh;
  }

  closed_is : unsubscribe_account key w q r ≡ forget_if (is_none_left rest) key left
  unfolding unsubscribe_account unsubscribe
  closed_is =
      let none_left : (is_none_left rest && is_watcher (Dict.get key r.by_key) w)
          ≡ is_none_left rest =
        rw (at_key, ==_refl w) (ground arith) in
      ap (λ b. forget_if b key left) none_left

  pub closes-Implements :
      Kept (unsubscribe_account key w q r)
      × Implements (unsubscribe_account key w q r) (close_stream (key, (w, q)) streams)
  closes-Implements =
      subst⁻¹ (λ s. Kept s × Implements s (close_stream (key, (w, q)) streams)) closed_is
        (elim (Bool-cases (is_none_left rest)) [
          | inl b ↦ rw b (gone-Kept, gone-Implements b)
          | inr b ↦ rw b (left-Kept, left-Implements b)
        ])
