-- ===== src/Dispatch/CreationIds/Laws.antt =====
-- What the substitution of creation ids leaves alone, and that it leaves no reference behind.
use jmap_bridge.Base.{String, ◌≡◌, refl, Bool, false, ◌||◌, arith}
use jmap_bridge.Base.{contains, string_eq}
use jmap_bridge.Json.{Value, null, bool, num, str, arr, obj, Items, nil, cons, Fields, end, field}
use jmap_bridge.Errors.{Result, ok}
use jmap_bridge.Dispatch.Python.{Python}
use jmap_bridge.Dispatch.CreationIds.{
  CreatedIds, id_value_properties, id_keyed_map_properties, id_list_properties, substitute_property,
  substitute_created_ids, substitute_items, substitute_fields,
}

-- A property that holds ids.
abbrev pub is_id_property : String → Bool
is_id_property key =
    contains id_value_properties key
    || contains id_keyed_map_properties key
    || contains id_list_properties key

-- No property of the value, at any depth, holds ids.
unfoldable mutual
  pub NoIds : Value → Type 0
  NoIds (obj fields) = NoIdsFields fields
  NoIds (arr items) = NoIdsItems items
  NoIds null = Unit
  NoIds (bool b) = Unit
  NoIds (num n) = Unit
  NoIds (str s) = Unit

  pub NoIdsItems : Items → Type 0
  NoIdsItems nil = Unit
  NoIdsItems (cons item items) = NoIds item × NoIdsItems items

  pub NoIdsFields : Fields → Type 0
  NoIdsFields end = Unit
  NoIdsFields (field key value fields) =
      (is_id_property key ≡ false) × NoIds value × NoIdsFields fields

module _ (py : Python) (created_ids : CreatedIds) where
  property_skips :
      (key : String) (value : Value) (deeper : Result Value)
      → is_id_property key ≡ false
      → substitute_property py created_ids key value deeper ≡ deeper
  unfolding substitute_property
  property_skips key (str s) deeper h = ground arith
  property_skips key (obj fields) deeper h = ground arith
  property_skips key (arr items) deeper h = ground arith
  property_skips key null deeper h = refl
  property_skips key (bool b) deeper h = refl
  property_skips key (num n) deeper h = refl

  mutual
    unfolding NoIds substitute_created_ids

    skips : (v : Value) → NoIds v → substitute_created_ids py created_ids v ≡ ok v
    skips (obj fields) h = rw (skips_fields fields h)
    skips (arr items) h = rw (skips_items items h)
    skips null h = refl
    skips (bool b) h = refl
    skips (num n) h = refl
    skips (str s) h = refl

    skips_items :
        (items : Items) → NoIdsItems items → substitute_items py created_ids items ≡ ok items
    skips_items nil h = refl
    skips_items (cons item items) h = rw (skips item h.0, skips_items items h.1)

    skips_fields :
        (fields : Fields) → NoIdsFields fields → substitute_fields py created_ids fields ≡ ok fields
    skips_fields end h = refl
    skips_fields (field key value fields) h = rw (
      property_skips key value (substitute_created_ids py created_ids value) h.0,
      skips value h.1,
      skips_fields fields h.2,
    )

  -- A value without id-typed properties passes unchanged, whatever texts it holds.
  pub substitute_created_ids-NoIds :
      (v : Value) → NoIds v → substitute_created_ids py created_ids v ≡ ok v
  substitute_created_ids-NoIds v h = skips v h
