-- ===== src/Json.antt =====
-- The values of `json.loads` and of the handlers' dicts: what the source types as `Any` and
-- `dict[str, Any]`. Numbers are the integers: no modelled code makes or reads a fraction.
pub mod Object
use jmap_bridge.Base.{ℕ, String, Bool, true, false, List, [], ◌∷◌, not, Option, none, some}
use jmap_bridge.Base.Text.{is_empty}
use jmap_bridge.Base.Int.{ℤ, pos, negsuc}

mutual
  pub data Value : Type 0 where
    null : Value
    bool : Bool → Value
    str : String → Value
    num : ℤ → Value
    obj : Fields → Value
    arr : Items → Value

  -- A dict in insertion order.
  pub data Fields : Type 0 where
    end : Fields
    field : String → Value → Fields → Fields

  pub data Items : Type 0 where
    nil : Items
    cons : Value → Items → Items

-- `bool(value)`
unfoldable pub truthy : Value → Bool
truthy null = false
truthy (bool b) = b
truthy (num (pos ℕ.zero)) = false
truthy (num (pos (ℕ.suc n))) = true
truthy (num (negsuc n)) = true
truthy (str s) = not (is_empty s)
truthy (arr nil) = false
truthy (arr (cons x xs)) = true
truthy (obj end) = false
truthy (obj (field k v fs)) = true

-- `type(value).__name__`
abbrev pub type_name : Value → String
type_name null = "NoneType"
type_name (bool b) = "bool"
type_name (num n) = "int"
type_name (str s) = "str"
type_name (arr xs) = "list"
type_name (obj fs) = "dict"

abbrev pub append_items : Items → Items → Items
append_items nil ys = ys
append_items (cons x xs) ys = cons x (append_items xs ys)

-- A list of texts as a value.
abbrev pub texts : List String → Items
texts [] = nil
texts (s ∷ ss) = cons (str s) (texts ss)
