-- ===== src/Dispatch/CreationIds/Resolved.antt =====
-- After a substitution that succeeds no creation-id reference is left where ids are expected.
use jmap_bridge.Base.{String, ◌≡◌, some, arith, inl, inr, Bool-cases, Option-cases}
use jmap_bridge.Base.{contains, string_eq}
use jmap_bridge.Base.Dict
use jmap_bridge.Json.{Value, null, bool, num, str, arr, obj, Items, nil, cons, Fields, end, field}
use jmap_bridge.Json.Object.{put}
use jmap_bridge.Errors.{ok, map_ok, >>=-eq-ok, map_ok-eq-ok, ok-injective}
use jmap_bridge.Dispatch.Python.{Python}
use jmap_bridge.Dispatch.CreationIds.References.{
  NoRef, NoRefKeys, ResolvedProperty, Resolved, ResolvedItems, ResolvedFields, AreScalars,
  PlainProperty, HasPlainMaps, PlainItems, PlainFields, put-NoRefKeys, put-AreScalars,
  scalars-ResolvedFields,
}
use jmap_bridge.Dispatch.CreationIds.{
  CreatedIds, id_value_properties, id_keyed_map_properties, creation_ref, substitute_id_string,
  substitute_keys, substitute_property, substitute_created_ids, substitute_items, substitute_fields,
}

module _ (py : Python) (created_ids : CreatedIds)
    (assigned : (c id : String) → Dict.get c created_ids ≡ some id → NoRef id) where
  id_string-NoRef : (s t : String) → substitute_id_string py created_ids s ≡ ok t → NoRef t
  unfolding substitute_id_string
  id_string-NoRef s t h = elim (Option-cases (creation_ref s)) [
    | inl e ↦ let same = ok-injective s t (rw (e, substitute_id_string) at h) in rw (← same) e
    | inr (c, e) ↦ elim (Option-cases (Dict.get c created_ids)) [
      | inl n ↦ cc (e, n, h)
      | inr (id, g) ↦ assigned c t (ground arith)
    ]
  ]

  keys-NoRef :
      (fields out w : Fields)
      → AreScalars fields
      → NoRefKeys out × AreScalars out
      → substitute_keys py created_ids fields out ≡ ok w
      → NoRefKeys w × AreScalars w
  unfolding substitute_keys
  keys-NoRef end out w plain hs h = rw (← ok-injective out w h) hs
  keys-NoRef (field key value fields) out w (p, ps) (hs, scalars) h =
      let (id, e, rest) = >>=-eq-ok (substitute_id_string py created_ids key) _ h in
      keys-NoRef fields (put id value out) w ps
        (
          put-NoRefKeys id value out (id_string-NoRef key id e) hs,
          put-AreScalars id value out p scalars,
        )
        rest

  property_str :
      (key s : String) (w : Value)
      → substitute_property py created_ids key (str s) (ok (str s)) ≡ ok w
      → ResolvedProperty key w (Resolved w)
  unfolding substitute_property Resolved
  property_str key s w h = elim (Bool-cases (contains id_value_properties key)) [
    | inl b ↦
        let (t, e, same) = map_ok-eq-ok str (substitute_id_string py created_ids s) (rw b at h) in
        rw (← same) (rw b (id_string-NoRef s t e))
    | inr b ↦ rw (← ok-injective (str s) w (rw b at h)) (rw b tt)
  ]

  property_obj :
      (key : String) (fields : Fields) (w : Value)
      → PlainProperty key (obj fields) (PlainFields fields)
      → ((g : Fields)
          → PlainFields fields
          → substitute_fields py created_ids fields ≡ ok g
          → ResolvedFields g)
      → substitute_property py created_ids key
          (obj fields)
          (map_ok obj (substitute_fields py created_ids fields))
        ≡ ok w
      → ResolvedProperty key w (Resolved w)
  unfolding substitute_property Resolved
  property_obj key fields w plain below h =
      elim (Bool-cases (contains id_keyed_map_properties key)) [
        | inl b ↦
            let (g, e, same) =
              map_ok-eq-ok obj (substitute_keys py created_ids fields end) (rw b at h) in
            let (refs, scalars) = keys-NoRef fields end g (rw b at plain) (tt, tt) e in
            rw (← same) (rw b (refs, scalars-ResolvedFields g scalars))
        | inr b ↦
            let (g, e, same) =
              map_ok-eq-ok obj (substitute_fields py created_ids fields) (rw b at h) in
            rw (← same) (rw b (below g (rw b at plain) e))
      ]

  property_arr :
      (key : String) (items : Items) (w : Value)
      → ((g : Items) → substitute_items py created_ids items ≡ ok g → ResolvedItems g)
      → substitute_property py created_ids key
          (arr items)
          (map_ok arr (substitute_items py created_ids items))
        ≡ ok w
      → ResolvedProperty key w (Resolved w)
  unfolding substitute_property Resolved
  property_arr key items w below h =
      let (g, e, same) = map_ok-eq-ok arr (substitute_items py created_ids items) h in
      rw (← same) (below g e)

  mutual
    unfolding substitute_created_ids substitute_property Resolved HasPlainMaps

    resolves :
        (v w : Value) → HasPlainMaps v → substitute_created_ids py created_ids v ≡ ok w → Resolved w
    resolves (obj fields) w p h =
        let (g, e, same) = map_ok-eq-ok obj (substitute_fields py created_ids fields) h in
        rw (← same) (resolves_fields fields g p e)
    resolves (arr items) w p h =
        let (g, e, same) = map_ok-eq-ok arr (substitute_items py created_ids items) h in
        rw (← same) (resolves_items items g p e)
    resolves null w p h = rw (← ok-injective null w h) tt
    resolves (bool b) w p h = rw (← ok-injective (bool b) w h) tt
    resolves (num n) w p h = rw (← ok-injective (num n) w h) tt
    resolves (str s) w p h = rw (← ok-injective (str s) w h) tt

    resolves_items :
        (items w : Items)
        → PlainItems items
        → substitute_items py created_ids items ≡ ok w
        → ResolvedItems w
    resolves_items nil w p h = rw (← ok-injective nil w h) tt
    resolves_items (cons item items) w (p, ps) h =
        let (x, e, more) = >>=-eq-ok (substitute_created_ids py created_ids item) _ h in
        let (xs, es, last) = >>=-eq-ok (substitute_items py created_ids items) _ more in
        rw (← ok-injective (cons x xs) w last) (resolves item x p e, resolves_items items xs ps es)

    resolves_property :
        (key : String) (value w : Value)
        → PlainProperty key value (HasPlainMaps value)
        → substitute_property py created_ids key value (substitute_created_ids py created_ids value)
          ≡ ok w
        → ResolvedProperty key w (Resolved w)
    resolves_property key (obj fields) w p h =
        property_obj key fields w p (λ g q e. resolves_fields fields g q e) h
    resolves_property key (arr items) w p h =
        property_arr key items w (λ g e. resolves_items items g p e) h
    resolves_property key (str s) w p h = property_str key s w h
    resolves_property key null w p h = rw (← ok-injective null w h) tt
    resolves_property key (bool b) w p h = rw (← ok-injective (bool b) w h) tt
    resolves_property key (num n) w p h = rw (← ok-injective (num n) w h) tt

    resolves_fields :
        (fields w : Fields)
        → PlainFields fields
        → substitute_fields py created_ids fields ≡ ok w
        → ResolvedFields w
    resolves_fields end w p h = rw (← ok-injective end w h) tt
    resolves_fields (field key value fields) w (p, ps) h =
        let (x, e, more) =
          >>=-eq-ok
            (substitute_property py created_ids key value
              (substitute_created_ids py created_ids value))
            _ h in
        let (xs, es, last) = >>=-eq-ok (substitute_fields py created_ids fields) _ more in
        rw (← ok-injective (field key x xs) w last)
          (resolves_property key value x p e, resolves_fields fields xs ps es)

  -- If the substitution succeeds, the values of every id-keyed map are `null`, Booleans or
  -- numbers, and no id that the server assigned looks like a reference, then at no depth a
  -- `#creationId` is left in an id-typed property or as a key of an id-keyed map.
  pub substitute_created_ids-Resolved :
      (v w : Value) → HasPlainMaps v → substitute_created_ids py created_ids v ≡ ok w → Resolved w
  substitute_created_ids-Resolved v w plain h = resolves v w plain h
