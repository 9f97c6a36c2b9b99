-- ===== src/Dispatch/BackReferences.antt =====
-- `_resolve_path`, `resolve_backref` and `resolve_args`: the `#property` references to the results
-- of earlier calls.
pub mod Laws
use jmap_bridge.Base.{
  ℕ, String, ◌<>◌, Bool, true, false, Option, none, some, List, [], ◌∷◌, not, if◌then◌else◌,
}
use jmap_bridge.Base.{◌==◌, string_eq}
use jmap_bridge.Base.Text.{is_empty, after_char, split_on}
use jmap_bridge.Base.Dict
use jmap_bridge.Base.Dict.{Dict}
use jmap_bridge.Json.{
  Value, null, str, arr, obj, Items, nil, cons, append_items, Fields, end, field, type_name,
}
use jmap_bridge.Json.Object.{get, put}
use jmap_bridge.Errors.{Result, ok, err, raised, failed, invalid_result_reference, map_ok, ◌>>=◌}
use jmap_bridge.Dispatch.Python.{Python, Key, key_of, key_eq}

-- `results_by_tag[tag]`: the response's name and its arguments.
pub record Entry : Type 0 where
  pub name : String
  pub args : Value

abbrev pub Results : Type 0
Results = Dict Key Entry

abbrev pub bad_reference {ℓ} : {A : Type ℓ} → String → Result A
bad_reference message = err (raised (invalid_result_reference message))

-- `out.extend(resolved)` for a list, `out.append(resolved)` for anything else.
abbrev pub extend : Value → Items → Items
extend (arr xs) out = append_items xs out
extend v out = cons v out

module _ (py : Python) where
  -- The loop of `*` over the items.
  unfoldable pub resolve_each : (Value → Result Value) → Items → Result Items
  resolve_each resolve nil = ok nil
  resolve_each resolve (cons item items) = do
    resolved ← resolve item
    out ← resolve_each resolve items
    ok (extend resolved out)

  unfoldable pub resolve_star : (Value → Result Value) → Value → Result Value
  unfolding resolve_each
  resolve_star resolve (arr items) = map_ok arr (resolve_each resolve items)
  resolve_star resolve value = bad_reference ("'*' applied to non-array value: " <> py.repr value)

  unfoldable pub resolve_key : (Value → Result Value) → String → Value → Result Value
  resolve_key resolve seg (obj fields) = elim (get seg fields) [
    | none ↦ bad_reference ("path segment " <> (py.repr (str seg) <> " not found"))
    | some value ↦ resolve value
  ]
  resolve_key resolve seg value =
      bad_reference
        ("cannot resolve segment " <> (py.repr (str seg) <> (" into " <> type_name value)))

  -- The segments stand first, as the recursion is on them.
  unfoldable pub resolve_path : List String → Value → Result Value
  unfolding resolve_star resolve_key
  resolve_path [] value = ok value
  resolve_path (seg ∷ rest) value =
      if seg == "*"
      then resolve_star (resolve_path rest) value
      else resolve_key (resolve_path rest) seg value

  -- `[s for s in path.split("/") if s != ""]`
  abbrev pub nonempty : List String → List String
  nonempty [] = []
  nonempty (s ∷ ss) = let rest = nonempty ss in if is_empty s then rest else s ∷ rest

  abbrev pub resolve_segments : Value → Value → Result Value
  resolve_segments (str path) args = resolve_path (nonempty (split_on b'/' path)) args
  resolve_segments path args = err (failed (py.no_attribute path "split"))

  abbrev pub resolve_entry : Value → Value → Option Entry → Result Value
  resolve_entry result_of path none = bad_reference ("no prior result tagged " <> py.repr result_of)
  resolve_entry result_of path (some entry) =
      if entry.name == "error"
      then bad_reference ("referenced call " <> (py.repr result_of <> " returned an error"))
      else resolve_segments path entry.args

  unfoldable pub resolve_backref : Results → Value → Value → Result Value
  unfolding resolve_path
  resolve_backref results result_of path = elim (key_of result_of) [
    | none ↦ err (failed (py.unhashable result_of))
    | some key ↦ resolve_entry result_of path (Dict.get key results)
  ]

  abbrev pub with_path : Results → String → Option Value → Option Value → Result Value
  with_path results key (some result_of) (some path) = resolve_backref results result_of path
  with_path results key _ _ = bad_reference ("malformed result reference for " <> py.repr (str key))

  -- The value of a `#property` argument.
  unfoldable pub resolve_reference : Results → String → Value → Result Value
  unfolding resolve_backref
  resolve_reference results key (obj fields) =
      with_path results key (get "resultOf" fields) (get "path" fields)
  resolve_reference results key value =
      bad_reference ("malformed result reference for " <> py.repr (str key))

  -- The loop of `resolve_args`, with the dict that it fills.
  unfoldable pub resolve_fields : Results → Fields → Fields → Result Fields
  unfolding resolve_reference
  resolve_fields results end resolved = ok resolved
  resolve_fields results (field key value args) resolved = elim (after_char b'#' key) [
    | none ↦ resolve_fields results args (put key value resolved)
    | some out_key ↦ do
      v ← resolve_reference results key value
      resolve_fields results args (put out_key v resolved)
  ]

  unfoldable pub resolve_args : Value → Results → Result Fields
  unfolding resolve_fields
  resolve_args (obj args) results = resolve_fields results args end
  resolve_args args results = err (failed (py.no_attribute args "items"))
