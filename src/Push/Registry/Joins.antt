-- ===== src/Push/Registry/Joins.antt =====
-- A stream joins a watcher.
use mathlib.Core.Path.{subst₂}
use jmap_bridge.Base.{
  ℕ, suc, ◌<◌, ◌≡◌, ◌≢◌, refl, sym, ap, ◌∙◌, true, false, ◌||◌, some, List, ◌∷◌, if◌then◌else◌,
  ◌==◌, contains, ==_refl, nat_eq, string_eq, pair_eq, arith, inl, inr, Bool-cases, some-injective,
}
use jmap_bridge.Base.Dict
use jmap_bridge.Base.Dict.{Dict, NodupKeys}
use jmap_bridge.IdRedirect.{AccountKey}
use jmap_bridge.Push.{subscribe, is_none_left}
use jmap_bridge.Push.Registry.{Registry, watcher_at, join_watcher}
use jmap_bridge.Push.Registry.Sessions.{
  Stream, same_stream, is_open, subscribers_at, Implements, Kept, subscribers-put,
  is_none_left-subscribe, contains-subscribe,
}

module _ (key : AccountKey) (w : ℕ) (r : Registry) (streams : List Stream)
    (at_key : Dict.get key r.by_key ≡ some w) (kept : Kept r)
    (are : (k : AccountKey) (v x : ℕ)
      → Dict.get k r.by_key ≡ some v
      → contains (subscribers_at v r) x ≡ is_open (k, (v, x)) streams)
    (current : (k : AccountKey) (v x : ℕ)
      → is_open (k, (v, x)) streams ≡ true
      → Dict.get k r.by_key ≡ some v)
    (used : (k : AccountKey) (v : ℕ)
      → k ≢ key
      → Dict.get k r.by_key ≡ some v
      → is_none_left (subscribers_at v r) ≡ false) where
  abbrev pub joined : Registry
  joined = (join_watcher w r).1

  subscribers-joined :
      (v : ℕ)
      → subscribers_at v joined ≡ (
          if v == w
          then (subscribe r.queues_made (watcher_at w r)).subscribers
          else subscribers_at v r)
  subscribers-joined v = subscribers-put r w v (subscribe r.queues_made (watcher_at w r))

  at_joined :
      (x : ℕ)
      → contains (subscribers_at w joined) x
        ≡ (x == r.queues_made || contains (subscribers_at w r) x)
  at_joined x =
      ap (λ l. contains l x) (subscribers-joined w)
      ∙ rw (==_refl w) (contains-subscribe r.queues_made x (watcher_at w r))

  at_other : (v : ℕ) → (v == w) ≡ false → subscribers_at v joined ≡ subscribers_at v r
  at_other v b = subscribers-joined v ∙ rw b refl

  same_key : (k : AccountKey) (v : ℕ) → Dict.get k r.by_key ≡ some v → v ≡ w → k ≡ key
  same_key k v e p = kept.separate k key w (e ∙ ap some p) at_key

  other_key : (k : AccountKey) (v : ℕ) → Dict.get k r.by_key ≡ some v → (v == w) ≡ false → k ≢ key
  other_key k v e b p =
      let same : v ≡ w = some-injective v w (sym e ∙ (ap (λ l. Dict.get l r.by_key) p ∙ at_key)) in
      ground arith

  joined_are :
      (k : AccountKey) (v x : ℕ)
      → Dict.get k r.by_key ≡ some v
      → contains (subscribers_at v joined) x
        ≡ is_open (k, (v, x)) ((key, (w, r.queues_made)) ∷ streams)
  joined_are k v x e = elim (Bool-cases (v == w)) [
    | inl b ↦
        let p : v ≡ w = ground arith in
        subst₂
          (λ l u.
            contains (subscribers_at u joined) x
            ≡ is_open (l, (u, x)) ((key, (w, r.queues_made)) ∷ streams))
          (sym (same_key k v e p)) (sym p)
          (at_joined x ∙ ground (arith, are key w x at_key, ==_refl key, ==_refl w))
    | inr b ↦ ap (λ l. contains l x) (at_other v b) ∙ ground (arith, are k v x e)
  ]

  joined_current :
      (k : AccountKey) (v x : ℕ)
      → is_open (k, (v, x)) ((key, (w, r.queues_made)) ∷ streams) ≡ true
      → Dict.get k r.by_key ≡ some v
  joined_current k v x h = elim (Bool-cases (same_stream (k, (v, x)) (key, (w, r.queues_made)))) [
    | inl b ↦ let p : k ≡ key = ground arith in let q : v ≡ w = ground arith in rw (p, q) at_key
    | inr b ↦ current k v x (ground arith)
  ]

  joined_used :
      (k : AccountKey) (v : ℕ)
      → Dict.get k r.by_key ≡ some v
      → is_none_left (subscribers_at v joined) ≡ false
  joined_used k v e = elim (Bool-cases (v == w)) [
    | inl b ↦
        ap is_none_left (subscribers-joined v)
        ∙ rw b (is_none_left-subscribe r.queues_made (watcher_at w r))
    | inr b ↦ ap is_none_left (at_other v b) ∙ used k v (λ p. other_key k v e b p) e
  ]

  pub joined-Implements : Implements joined ((key, (w, r.queues_made)) ∷ streams)
  joined-Implements = record {
    streams_are = joined_are;
    current = joined_current;
    used = joined_used;
  }

  joined_fresh :
      (x : ℕ)
      → (x == r.queues_made || contains (subscribers_at w r) x) ≡ true
      → x < suc r.queues_made
  joined_fresh x h = elim (Bool-cases (contains (subscribers_at w r) x)) [
    | inl b ↦ let old = kept.fresh w x b in omega arith
    | inr b ↦ let p : x ≡ r.queues_made = ground arith in omega arith
  ]

  pub joined-Kept : Kept joined
  joined-Kept = record {
    nodup = kept.nodup;
    made = kept.made;
    separate = kept.separate;
    fresh = λ v x h. elim (Bool-cases (v == w)) [
      | inl b ↦
          let p : v ≡ w = ground arith in
          joined_fresh x
            (sym (at_joined x) ∙ (ap (λ u. contains (subscribers_at u joined) x) (sym p) ∙ h))
      | inr b ↦
          let old = kept.fresh v x (sym (ap (λ l. contains l x) (at_other v b)) ∙ h) in omega arith
    ];
  }
