-- ===== src/Snapshots/Destroys.antt =====
-- Why equal counts show that no message was destroyed.
use jmap_bridge.Base.{
  ℕ, ◌+◌, ◌≤◌, ◌≡◌, ◌↔◌, refl, ap, sym, ◌∙◌, Bool, true, List, [], ◌∷◌, ◌++◌, if◌then◌else◌, length,
  length-append, arith, inl, inr, Bool-cases,
}
use jmap_bridge.Base.{◌==◌, nat_eq, All}
use jmap_bridge.Base.Int.{pos, pos_part, ◌+ℤ◌, int_eq}
use jmap_bridge.Snapshots.Mail.{MailboxCursor, verify_no_missing_destroys}

-- The old messages that are still there, where the test says which those are.
abbrev pub surviving : (ℕ → Bool) → List ℕ → List ℕ
surviving is_kept [] = []
surviving is_kept (uid ∷ uids) =
    let rest = surviving is_kept uids in if is_kept uid then uid ∷ rest else rest

abbrev pub NothingDestroyed : (ℕ → Bool) → List ℕ → Type 0
NothingDestroyed is_kept = All (λ uid. is_kept uid ≡ true)

pub length-surviving : (p : ℕ → Bool) (uids : List ℕ) → length (surviving p uids) ≤ length uids
length-surviving p [] = omega arith
length-surviving p (uid ∷ uids) = ground (arith, length-surviving p uids)

all_survive :
    (p : ℕ → Bool) (uids : List ℕ)
    → length (surviving p uids) ≡ length uids
    → NothingDestroyed p uids
all_survive p [] h = tt
all_survive p (uid ∷ uids) h = elim (Bool-cases (p uid)) [
  | inl b ↦ (b, all_survive p uids (ground arith))
  | inr b ↦ absurd (ground (arith, length-surviving p uids))
]

survivors_all :
    (p : ℕ → Bool) (uids : List ℕ)
    → NothingDestroyed p uids
    → length (surviving p uids) ≡ length uids
survivors_all p [] h = refl
survivors_all p (uid ∷ uids) (b, h) = ground (arith, survivors_all p uids h)

add_pos : (m k : ℕ) → pos m +ℤ pos k ≡ pos (m + k)
unfolding ◌+ℤ◌
add_pos m k = ground arith

pub verify_iff :
    (old new : MailboxCursor) (m n k : ℕ)
    → old.exists ≡ pos m
    → new.exists ≡ pos n
    → (verify_no_missing_destroys old new (pos k) ≡ true) ↔ (n ≡ m + k)
unfolding verify_no_missing_destroys
verify_iff old new m n k p q =
    (λ h. omega (arith, ap pos_part (equal h)), λ e. ground (arith, same e))
  where
    equal : (new.exists == old.exists +ℤ pos k) ≡ true → pos n ≡ pos (m + k)
    equal h = ground (arith, add_pos m k)

    same : n ≡ m + k → new.exists ≡ old.exists +ℤ pos k
    same e = q ∙ ap pos e ∙ sym (ap (λ z. z +ℤ pos k) p ∙ add_pos m k)

-- A server keeps a mailbox in the order of its UIDs and gives a message that arrives the next one,
-- so a mailbox is what survived of it, then what arrived. The check passes, for the count of the
-- messages that arrived, exactly if no message was destroyed.
pub verify_no_missing_destroys-NothingDestroyed :
    (old new : MailboxCursor) (before arrived : List ℕ) (is_kept : ℕ → Bool)
    → old.exists ≡ pos (length before)
    → new.exists ≡ pos (length (surviving is_kept before ++ arrived))
    → (verify_no_missing_destroys old new (pos (length arrived)) ≡ true)
      ↔ NothingDestroyed is_kept before
verify_no_missing_destroys-NothingDestroyed old new before arrived is_kept p q =
    let (to, from) =
      verify_iff old new (length before) (length (surviving is_kept before ++ arrived))
        (length arrived) p q in
    let size = length-append (surviving is_kept before) arrived in
    (
      λ h. all_survive is_kept before (omega (arith, to h)),
      λ h. from (omega (arith, survivors_all is_kept before h)),
    )
