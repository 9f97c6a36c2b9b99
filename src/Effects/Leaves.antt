-- ===== src/Effects/Leaves.antt =====
-- What holds of the state that an action leaves, whether it returned or raised.
use jmap_bridge.Base.{List, [], ◌∷◌}
use jmap_bridge.Errors.{Result, ok, err}
use jmap_bridge.Effects.{Action, continue, ◌>>=◌, for_each}

-- What was returned and the state then, or the state after a raise.
abbrev pub Outcome : {S A : Type 0} → (A → S → Type 0) → (S → Type 0) → Result A × S → Type 0
Outcome Q E (ok a, s) = Q a s
Outcome Q E (err e, s) = E s

pub record Leaves {S A : Type 0} (Q : A → S → Type 0) (E : S → Type 0) (outcome : Result A × S)
    : Type 0 where
  pub left : Outcome Q E outcome

-- The state, where both outcomes say the same of it.
pub Leaves_state :
    {S A : Type 0} {E : S → Type 0} (outcome : Result A × S)
    → Leaves (λ _. E) E outcome
    → E outcome.1
Leaves_state (ok a, s) h = h.left
Leaves_state (err e, s) h = h.left

module _ {S A B : Type 0} {Q : B → S → Type 0} {E : S → Type 0} where
  continue-Leaves :
      {P : A → S → Type 0} (outcome : Result A × S) (next : A → Action S B)
      → Leaves P E outcome
      → ((a : A) (t : S) → P a t → Leaves Q E (next a t))
      → Leaves Q E (continue outcome next)
  continue-Leaves (ok a, s) next h k = k a s h.left
  continue-Leaves (err e, s) next h k = record { left = h.left }

  pub >>=-Leaves :
      {P : A → S → Type 0} (first : Action S A) (next : A → Action S B) (s : S)
      → Leaves P E (first s)
      → ((a : A) (t : S) → P a t → Leaves Q E (next a t))
      → Leaves Q E ((first >>= next) s)
  unfolding ◌>>=◌
  >>=-Leaves first next s h k = continue-Leaves (first s) next h k

-- A loop: what its body keeps, beside the rest of the list, holds at the end.
pub for_each-Leaves :
    {S A B : Type 0} (body : A → B → Action S A) (P : A → List B → S → Type 0) (E : S → Type 0)
    → ((a : A) (b : B) (bs : List B) (s : S)
        → P a (b ∷ bs) s
        → Leaves (λ a' t. P a' bs t) E (body a b s))
    → (a : A) (bs : List B) (s : S) → P a bs s
    → Leaves (λ a' t. P a' [] t) E (for_each body a bs s)
unfolding for_each
for_each-Leaves body P E step a [] s p = record { left = p }
for_each-Leaves body P E step a (b ∷ bs) s p =
    >>=-Leaves (body a b) (λ a'. for_each body a' bs) s (step a b bs s p)
      λ a' t q. for_each-Leaves body P E step a' bs t q
