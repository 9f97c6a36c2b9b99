-- ===== src/Dispatch/Python.antt =====
-- What the dispatcher takes from the Python runtime: the texts of its errors, and hashing.
use jmap_bridge.Base.{String, true, false, Option, none, some, ap}
use jmap_bridge.Base.{Eq, string_eq}
use jmap_bridge.Base.Int.{ℤ, pos, int_eq}
use jmap_bridge.Json.{Value, null, bool, num, str, arr, obj}
use mathlib.Core.Logic.{dite}

-- The texts that the runtime makes; no behaviour depends on them.
pub record Python : Type 0 where
  -- `repr(value)`
  pub repr : Value → String
  -- the text of `TypeError: unhashable type`
  pub unhashable : Value → String
  -- the text of `AttributeError` for a value and an attribute
  pub no_attribute : Value → String → String

-- A hashable value as a dict's key. `True == 1` and `False == 0`, also as keys.
pub data Key : Type 0 where
  text : String → Key
  number : ℤ → Key
  nothing : Key

unfoldable pub key_of : Value → Option Key
key_of null = some nothing
key_of (bool true) = some (number (pos 1))
key_of (bool false) = some (number (pos 0))
key_of (num n) = some (number n)
key_of (str s) = some (text s)
key_of (arr xs) = none
key_of (obj fs) = none

unwrap_text : String → Key → String
unwrap_text d (text s) = s
unwrap_text d k = d

unwrap_number : ℤ → Key → ℤ
unwrap_number d (number n) = n
unwrap_number d k = d

key_dec : Discrete Key
unfolding unwrap_text unwrap_number
key_dec (text s) (text t) =
    dite (string_eq.dec s t) (λ p. yes (ap text p)) (λ n. no (λ p. n (ap (unwrap_text s) p)))
key_dec (text s) (number n) = no (λ p. cc)
key_dec (text s) nothing = no (λ p. cc)
key_dec (number m) (text t) = no (λ p. cc)
key_dec (number m) (number n) =
    dite (int_eq.dec m n) (λ p. yes (ap number p)) (λ x. no (λ p. x (ap (unwrap_number m) p)))
key_dec (number m) nothing = no (λ p. cc)
key_dec nothing (text t) = no (λ p. cc)
key_dec nothing (number n) = no (λ p. cc)
key_dec nothing nothing = yes (λ i. nothing)

instance unfoldable pub key_eq : Eq Key
unfolding key_dec
key_eq = record { dec = key_dec }
