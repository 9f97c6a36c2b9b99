-- ===== src/Effects/Keeps.antt =====
-- What holds of an action that returns, one rule for each way to build an action.
use jmap_bridge.Base.{List, [], ◌∷◌, ◌≡◌, refl}
use mathlib.Core.Path.{subst}
use jmap_bridge.Errors.{Result, ok, err, ok-injective, raised, imap_error, dav_error, failed}
use jmap_bridge.Effects.{
  Action, continue, ◌>>=◌, for_each, to_server_fail, or_server_fail, trying, caught,
}

abbrev pub Post : {S A : Type 0} → (A → S → Type 0) → Result A × S → Type 0
Post Q (ok a, s) = Q a s
Post Q (err e, s) = Unit

-- If the action returned, the predicate holds of what it returned and of the state that it left.
pub record Returns {S A : Type 0} (Q : A → S → Type 0) (outcome : Result A × S) : Type 0 where
  pub post : Post Q outcome

module _ {S A B : Type 0} {Q : B → S → Type 0} where
  continue-Returns :
      (p : Result A × S) (next : A → Action S B)
      → ((a : A) (t : S) → p ≡ (ok a, t) → Returns Q (next a t))
      → Returns Q (continue p next)
  continue-Returns (ok a, s) next h = h a s refl
  continue-Returns (err e, s) next h = record { post = tt }

  -- A block: its rest may use what its first action returned and left.
  pub >>=-Returns :
      (first : Action S A) (next : A → Action S B) (s : S)
      → ((a : A) (t : S) → first s ≡ (ok a, t) → Returns Q (next a t))
      → Returns Q ((first >>= next) s)
  unfolding ◌>>=◌
  >>=-Returns first next s h = continue-Returns (first s) next h

module _ {S A B : Type 0} (body : A → B → Action S A) (P : A → List B → Type 0)
    (step : (a : A) (b : B) (bs : List B) (s : S)
      → P a (b ∷ bs)
      → Returns (λ a' _. P a' bs) (body a b s)) where
  post_of :
      (a : A) (b : B) (bs : List B) (s t : S) (a' : A)
      → P a (b ∷ bs)
      → body a b s ≡ (ok a', t)
      → P a' bs
  post_of a b bs s t a' p e = let h = (step a b bs s p).post in rw e at h

  -- A loop: what its body keeps, beside the rest of the list, holds at the end.
  pub for_each-Returns :
      (a : A) (bs : List B) (s : S) → P a bs → Returns (λ a' _. P a' []) (for_each body a bs s)
  unfolding for_each
  for_each-Returns a [] s p = record { post = p }
  for_each-Returns a (b ∷ bs) s p =
      >>=-Returns (body a b) (λ a'. for_each body a' bs) s
        λ a' t e. for_each-Returns a' bs t (post_of a b bs s t a' p e)

-- A weaker predicate.
pub Returns-mono :
    {S A : Type 0} {P Q : A → S → Type 0} (outcome : Result A × S)
    → ((a : A) (s : S) → P a s → Q a s)
    → Returns P outcome
    → Returns Q outcome
Returns-mono (ok a, s) f h = record { post = f a s h.post }
Returns-mono (err e, s) f h = record { post = tt }

to_server_fail-Returns :
    {S A : Type 0} {Q : A → S → Type 0} (outcome : Result A × S)
    → Returns Q outcome
    → Returns Q (to_server_fail outcome.0, outcome.1)
to_server_fail-Returns (ok a, s) h = record { post = h.post }
to_server_fail-Returns (err (raised e), s) h = record { post = tt }
to_server_fail-Returns (err (imap_error m), s) h = record { post = tt }
to_server_fail-Returns (err (dav_error m), s) h = record { post = tt }
to_server_fail-Returns (err (failed m), s) h = record { post = tt }

-- A change of the error does not change what was returned.
pub or_server_fail-Returns :
    {S A : Type 0} {Q : A → S → Type 0} (body : Action S A) (s : S)
    → Returns Q (body s)
    → Returns Q (or_server_fail body s)
unfolding or_server_fail
or_server_fail-Returns body s h = to_server_fail-Returns (body s) h

-- A block whose first action is known to keep a predicate.
pub >>=-Returns_of :
    {S A B : Type 0} {P : A → S → Type 0} {Q : B → S → Type 0} (first : Action S A)
    (next : A → Action S B) (s : S)
    → Returns P (first s)
    → ((a : A) (t : S) → P a t → Returns Q (next a t))
    → Returns Q ((first >>= next) s)
>>=-Returns_of {S} {A} {B} {P} first next s h k =
    >>=-Returns first next s λ a t e. let p = h.post in k a t (rw e at p)

-- What holds of each outcome that an action can return.
pub Returns-by :
    {S A : Type 0} {Q : A → S → Type 0} (outcome : Result A × S)
    → ((a : A) (t : S) → outcome ≡ (ok a, t) → Q a t)
    → Returns Q outcome
Returns-by (ok a, s) h = record { post = h a s refl }
Returns-by (err e, s) h = record { post = tt }

-- A `try` whose outcome is looked at later.
pub trying-Returns :
    {S A : Type 0} {Q : A → S → Type 0} (body : Action S A) (s : S)
    → Returns Q (body s)
    → Returns (λ r t. (a : A) → r ≡ ok a → Q a t) (trying body s)
unfolding trying
trying-Returns {S} {A} {Q} body s h = both (body s) h
  where
    both : (p : Result A × S) → Returns Q p → Returns (λ r t. (a : A) → r ≡ ok a → Q a t) (caught p)
    both (ok a, t) h = record { post = λ a' e. subst (λ x. Q x t) (ok-injective a a' e) h.post }
    both (err x, t) h = record { post = λ a' e. cc }
