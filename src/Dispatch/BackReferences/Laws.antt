-- ===== src/Dispatch/BackReferences/Laws.antt =====
-- How a back-reference's path is walked, and which arguments are left alone.
use mathlib.Core.Path.{fun_ext}
use jmap_bridge.Base.{
  String, ◌≡◌, refl, ◌∙◌, false, none, some, arith, inl, inr, List, [], ◌∷◌, ◌++◌, Option-cases,
  All,
}
use mathlib.Core.Path.{fun_ext}
use jmap_bridge.Base.{◌==◌, ==_refl, string_eq}
use jmap_bridge.Base.Text.{after_char}
use jmap_bridge.Json.{Value, null, bool, num, str, arr, obj, Items, nil, cons, Fields, end, field}
use jmap_bridge.Json.Object
use jmap_bridge.Json.Object.{get, put, Nodup}
use jmap_bridge.Errors.{Result, ok, ◌>>=◌}
use jmap_bridge.Dispatch.Python.{Python}
use jmap_bridge.Dispatch.BackReferences.{
  Results, resolve_path, resolve_key, resolve_each, resolve_fields, resolve_args, extend,
}

-- The arguments that are no reference are passed on as they are.
abbrev pub NoReference : Fields → Type 0
NoReference end = Unit
NoReference (field key value fields) = (after_char b'#' key ≡ none) × NoReference fields

-- Objects, each beside the value that it holds under the path's last segment.
abbrev pub Rows : Type 0
Rows = List (Fields × Value)

abbrev pub objects : Rows → Items
objects [] = nil
objects ((fields, v) ∷ rows) = cons (obj fields) (objects rows)

-- The values in order; those that are arrays give their items.
abbrev pub flat_values : Rows → Items
flat_values [] = nil
flat_values ((fields, v) ∷ rows) = extend v (flat_values rows)

abbrev pub Holds : String → Rows → Type 0
Holds seg = All (λ row. get seg row.0 ≡ some row.1)

module _ (py : Python) where
  key_then :
      (seg : String) (f g : Value → Result Value) (v : Value)
      → resolve_key py (λ w. f w >>= g) seg v ≡ (resolve_key py f seg v >>= g)
  unfolding resolve_key
  key_then seg f g (obj fields) = elim (Option-cases (get seg fields)) [
    | inl n ↦ rw (n, resolve_key)
    | inr (w, e) ↦ rw (e, resolve_key)
  ]
  key_then seg f g null = refl
  key_then seg f g (bool b) = refl
  key_then seg f g (num n) = refl
  key_then seg f g (str s) = refl
  key_then seg f g (arr items) = refl

  -- A path without `*` can be walked in two parts, the second from where the first one leads.
  pub resolve_path-append :
      (first rest : List String) (v : Value)
      → All (λ s. (s == "*") ≡ false) first
      → resolve_path py (first ++ rest) v ≡ (resolve_path py first v >>= resolve_path py rest)
  unfolding resolve_path
  resolve_path-append [] rest v h = refl
  resolve_path-append (seg ∷ first) rest v (plain, h) = rw plain (
      rw (fun_ext (λ w. resolve_path-append first rest w h))
        (key_then seg (resolve_path py first) (resolve_path py rest) v))

  -- None of the arguments' keys is in the dict.
  abbrev Fresh : Fields → Fields → Type 0
  Fresh end out = Unit
  Fresh (field key value fields) out = (get key out ≡ none) × Fresh fields out

  put-Fresh :
      (key : String) (value : Value) (fields out : Fields)
      → get key fields ≡ none
      → Fresh fields out
      → Fresh fields (put key value out)
  unfolding get
  put-Fresh key value end out n h = tt
  put-Fresh key value (field j w fields) out n (hj, hs) =
      ground (arith, Object.get-put j key value out, put-Fresh key value fields out)

  resolve_fields-NoReference :
      (results : Results) (args out : Fields)
      → NoReference args
      → Nodup args
      → Fresh args out
      → resolve_fields py results args out ≡ ok (Object.append out args)
  unfolding resolve_fields
  resolve_fields-NoReference results end out plain u h = rw (Object.append_end out)
  resolve_fields-NoReference results (field key value args) out (p, plain) (n, u) (f, h) =
      rw (p, resolve_fields)
        (resolve_fields-NoReference results args (put key value out) plain u
            (put-Fresh key value args out n h)
          ∙ rw (Object.put_absent key value out f, Object.append_assoc))

  -- Arguments without references are passed on as they are, in their order.
  pub resolve_args-NoReference :
      (results : Results) (args : Fields)
      → NoReference args
      → Nodup args
      → resolve_args py (obj args) results ≡ ok args
  unfolding resolve_args get
  resolve_args-NoReference results args plain u =
      resolve_fields-NoReference results args end plain u (fresh_end args)
    where
      fresh_end : (fields : Fields) → Fresh fields end
      fresh_end end = tt
      fresh_end (field key value fields) = (refl, fresh_end fields)

  resolve_each-objects :
      (seg : String) (rows : Rows)
      → Holds seg rows
      → resolve_each py (resolve_key py (λ v. ok v) seg) (objects rows) ≡ ok (flat_values rows)
  unfolding resolve_each resolve_key
  resolve_each-objects seg [] h = refl
  resolve_each-objects seg ((fields, v) ∷ rows) (e, h) =
      rw (e, resolve_key) (rw (resolve_each-objects seg rows h))

  -- A path `*`, then a property, over an array of objects collects that property of each, in
  -- order, and flattens one level.
  pub resolve_path-star :
      (seg : String) (rows : Rows)
      → (seg == "*") ≡ false
      → Holds seg rows
      → resolve_path py ("*" ∷ seg ∷ []) (arr (objects rows)) ≡ ok (arr (flat_values rows))
  unfolding resolve_path
  resolve_path-star seg rows plain h =
      simp (plain, ==_refl {A = String} "*", resolve_each-objects seg rows h)
