-- ===== src/Base/Text.antt =====
-- Texts walked character by character.
use Prim.Native.Nat.{ℕ, ◌+◌}
use Prim.Native.Char.{Char, code}
use Prim.Native.String.{String, ◌++◌}
use Prim.Native.Nat.{suc}
use Prim.Native.String.append
use mathlib.Core.Path.{◌≡◌, refl, ap, ◌∙◌}
use native.Mathlib.Omega.{arith}
use mathlib.Core.Bool.{Bool, true, false, ◌||◌}
use mathlib.Core.Option.{Option, none, some}
use mathlib.Core.List.{List, [], ◌∷◌}
use jmap_bridge.Base.Tests.{eqb, if◌then◌else◌}
use jmap_bridge.Base.Equality.{◌==◌, ==_refl, string_eq}

-- The character test `ch == "…"`, by code point.
abbrev pub is_char : ℕ → Char → Bool
is_char n c = eqb (code c) n

abbrev pub is_empty : String → Bool
is_empty String.[] = true
is_empty (String.◌∷◌ _ _) = false

-- What follows the leading character, where the text starts with it.
unfoldable pub after_char : ℕ → String → Option String
after_char n String.[] = none
after_char n (String.◌∷◌ c s) = if is_char n c then some s else none

-- Adds a character to the first piece.
abbrev pub to_first : Char → List String → List String
to_first c [] = (String.◌∷◌ c String.[]) ∷ []
to_first c (p ∷ ps) = (String.◌∷◌ c p) ∷ ps

-- `s.split(sep)` for a separator of one character.
unfoldable pub split_on : ℕ → String → List String
split_on n String.[] = String.[] ∷ []
split_on n (String.◌∷◌ c s) =
    let rest = split_on n s in if is_char n c then String.[] ∷ rest else to_first c rest

-- `sep.join(pieces)`
unfoldable pub join : String → List String → String
join sep [] = ""
join sep (p ∷ []) = p
join sep (p ∷ q ∷ ps) = p ++ (sep ++ join sep (q ∷ ps))

-- `s.startswith(prefix)`, and then `s[len(prefix):]`.
unfoldable pub after_prefix : String → String → Option String
after_prefix String.[] s = some s
after_prefix (String.◌∷◌ p ps) String.[] = none
after_prefix (String.◌∷◌ p ps) (String.◌∷◌ c s) =
    let rest = after_prefix ps s in if String.◌∷◌ p "" == String.◌∷◌ c "" then rest else none

-- The character, by its code, is in the text.
abbrev pub holds : ℕ → String → Bool
holds n String.[] = false
holds n (String.◌∷◌ c s) = is_char n c || holds n s

-- `len(s)`
abbrev pub size : String → ℕ
size String.[] = 0
size (String.◌∷◌ c s) = suc (size s)

pub nil_append : (t : String) → "" ++ t ≡ t
nil_append t = λ i. append.nil t i

pub cons_append : (c : Char) (s t : String) → (String.◌∷◌ c s) ++ t ≡ String.◌∷◌ c (s ++ t)
cons_append c s t = λ i. append.cons c s t i

pub sep_append : (c : Char) (t : String) → (String.◌∷◌ c String.[]) ++ t ≡ String.◌∷◌ c t
sep_append c t = cons_append c String.[] t ∙ ap (String.◌∷◌ c) (nil_append t)

pub append_assoc : (s t u : String) → (s ++ t) ++ u ≡ s ++ (t ++ u)
append_assoc String.[] t u = rw (nil_append t, nil_append (t ++ u)) refl
append_assoc (String.◌∷◌ c s) t u =
    rw (cons_append c s t, cons_append c (s ++ t) u, cons_append c s (t ++ u))
      (ap (String.◌∷◌ c) (append_assoc s t u))

pub after_prefix-append : (p s : String) → after_prefix p (p ++ s) ≡ some s
unfolding after_prefix
after_prefix-append String.[] s = rw (nil_append s) refl
after_prefix-append (String.◌∷◌ c p) s =
    rw (cons_append c p s)
      (rw (after_prefix, ==_refl (String.◌∷◌ c ""), after_prefix-append p s) refl)

pub size-append : (s t : String) → size (s ++ t) ≡ size s + size t
size-append String.[] t = rw (nil_append t) (omega arith)
size-append (String.◌∷◌ c s) t = rw (cons_append c s t) (omega (arith, size-append s t))
