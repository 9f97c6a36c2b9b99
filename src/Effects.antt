-- ===== src/Effects.antt =====
-- What a handler does: it reads and changes a state, and returns or raises. What was changed before
-- a raise stays changed.
pub mod Keeps
pub mod Leaves
use jmap_bridge.Base.{◌≡◌, refl, String, List, [], ◌∷◌}
use jmap_bridge.Errors.{Exn, raised, imap_error, dav_error, failed, Result, ok, err, server_fail}

abbrev pub Action : Type 0 → Type 0 → Type 0
Action S A = S → Result A × S

module _ {S A : Type 0} where
  abbrev pub pure : A → Action S A
  pure a s = (ok a, s)

  abbrev pub raise : Exn → Action S A
  raise e s = (err e, s)

  abbrev pub lift : Result A → Action S A
  lift r s = (r, s)

  abbrev pub gets : (S → A) → Action S A
  gets f s = (ok (f s), s)

  -- The body of a `try`: what it returned or raised, as a value.
  abbrev pub caught : Result A × S → Result (Result A) × S
  caught (r, s) = (ok r, s)

  unfoldable pub trying : Action S A → Action S (Result A)
  trying body s = caught (body s)

abbrev pub modify : {S : Type 0} → (S → S) → Action S Unit
modify f s = (ok tt, f s)

module _ {S A B : Type 0} where
  abbrev pub continue : Result A × S → (A → Action S B) → Result B × S
  continue (ok a, s) next = next a s
  continue (err e, s) next = (err e, s)

  infixl 10 ◌>>=◌ ◌>>◌
  unfoldable pub ◌>>=◌ : Action S A → (A → Action S B) → Action S B
  first >>= next = λ s. continue (first s) next

  abbrev pub ◌>>◌ : Action S A → Action S B → Action S B
  first >> next = first >>= λ _. next

-- `raise ServerFail(str(exc)) from exc`, for the error of a backend.
abbrev pub to_server_fail : {A : Type 0} → Result A → Result A
to_server_fail (err (imap_error message)) = err (raised (server_fail message))
to_server_fail (err (dav_error message)) = err (raised (server_fail message))
to_server_fail r = r

-- `except ImapError as exc: raise ServerFail(str(exc)) from exc`, around a handler's body.
unfoldable pub or_server_fail : {S A : Type 0} → Action S A → Action S A
or_server_fail body s = let (r, s') = body s in (to_server_fail r, s')

-- `[await work(x) for x in xs]`
unfoldable pub traverse : {S A B : Type 0} → (A → Action S B) → List A → Action S (List B)
unfolding ◌>>=◌
traverse work [] = pure []
traverse work (x ∷ xs) = do y ← work x; ys ← traverse work xs; pure (y ∷ ys)

-- `for x in xs: …`, with the variables that the body assigns.
unfoldable pub for_each : {S A B : Type 0} → (A → B → Action S A) → A → List B → Action S A
unfolding ◌>>=◌
for_each body a [] = pure a
for_each body a (b ∷ bs) = body a b >>= λ a'. for_each body a' bs
