-- ===== src/Emails/Update/Events.antt =====
-- What an update of `Email/set` does on the server that can lose a message, as a log.
use jmap_bridge.Base.{
  String, ◌≡◌, ◌≢◌, Bool, true, false, Option, none, some, List, [], ◌∷◌, ◌&&◌, ◌||◌, ◌==◌,
  contains, string_eq, inl, inr, Bool-cases,
}
use jmap_bridge.Base.Dict.{Dict}
use jmap_bridge.Base.Int.{ℤ, int_eq}
use jmap_bridge.Json.{Value, Fields, truthy}
use jmap_bridge.Errors.{Result, ok, err}
use jmap_bridge.Effects.{Action, ◌>>=◌}
use jmap_bridge.Effects.Leaves.{Leaves, >>=-Leaves, for_each-Leaves}
use jmap_bridge.Requests.{Request, Ctx, on_server, put_server}
use jmap_bridge.Emails.Filter.{flag_of}
use jmap_bridge.Emails.Update.{
  Messages, keywords_to_flags, set_keywords, patch_keyword, apply_keywords, update_keywords,
  items_of, patches, check_fresh, open_mailbox,
}
use jmap_bridge.Json.Object.{get}

-- A copy that succeeded, and an attempt to expunge.
pub data Event : Type 0 where
  copied : String → ℤ → Event
  expunging : ℤ → Event

-- The newest event first.
abbrev pub Log : Type 0
Log = List Event

module _ {W A : Type 0} where
  abbrev pub quiet : Action W A → Action (W × Log) A
  quiet act (w, log) = let (r, w') = act w in (r, (w', log))

  abbrev pub note : Event → Result A × W → Log → Result A × (W × Log)
  note e (ok a, w) log = (ok a, (w, e ∷ log))
  note e (err x, w) log = (err x, (w, log))

-- A connection that notes what it does, whatever its operations answer and do.
abbrev pub watched : {W : Type 0} → Messages W → Messages (W × Log)
watched m = record {
  select_for_update = λ name. quiet (m.select_for_update name);
  set_flags = λ uid flags. quiet (m.set_flags uid flags);
  add_flags = λ uid flags. quiet (m.add_flags uid flags);
  remove_flags = λ uid flags. quiet (m.remove_flags uid flags);
  copy = λ uid name (w, log). note (copied name uid) (m.copy uid name w) log;
  expunge = λ uid (w, log). quiet (m.expunge uid) (w, expunging uid ∷ log);
}

abbrev pub was_copied : String → ℤ → Log → Bool
was_copied name uid [] = false
was_copied name uid (copied n u ∷ log) = (name == n && uid == u) || was_copied name uid log
was_copied name uid (expunging u ∷ log) = was_copied name uid log

-- The wanted mailboxes are known, at least one, without the message's own, and each has a copy.
pub record IsCopied (mailbox : String) (goal : Result (Option (List String))) (uid : ℤ) (log : Log)
    : Type 0 where
  pub names : List String
  pub is_goal : goal ≡ ok (some names)
  pub nonempty : names ≢ []
  pub leaves : contains names mailbox ≡ false
  pub copies : (name : String) → contains names name ≡ true → was_copied name uid log ≡ true

-- Every attempt to expunge came after the copies.
abbrev pub OnlyAfterCopies : String → Result (Option (List String)) → Log → Type 0
OnlyAfterCopies mailbox goal [] = Unit
OnlyAfterCopies mailbox goal (copied n u ∷ log) = OnlyAfterCopies mailbox goal log
OnlyAfterCopies mailbox goal (expunging u ∷ log) =
    IsCopied mailbox goal u log × OnlyAfterCopies mailbox goal log

-- An operation that notes nothing leaves the log.
pub quiet-Leaves :
    {W A : Type 0} (P E : Log → Type 0) (act : Action W A) (s : W × Log)
    → P s.1
    → E s.1
    → Leaves {S = W × Log} {A = A} (λ _ t. P t.1) (λ t. E t.1) (quiet act s)
quiet-Leaves {W} {A} P E act (w, log) p e = both (act w)
  where
    both :
        (o : Result A × W)
        → Leaves {S = W × Log} {A = A} (λ _ t. P t.1) (λ t. E t.1) (o.0, (o.1, log))
    both (ok a, v) = record { left = p }
    both (err x, v) = record { left = e }

module _ {W : Type 0} (E : Log → Type 0) where
  abbrev pub Keeps : {A : Type 0} → Action (W × Log) A → Type 0
  Keeps {A} act = (s : W × Log) → E s.1 → Leaves (λ (_ : A) t. E t.1) (λ t. E t.1) (act s)

  module _ {A : Type 0} where
    quiet-Keeps : (act : Action W A) → Keeps (quiet act)
    quiet-Keeps act s h = quiet-Leaves E E act s h h

    Keeps->>= :
        {B : Type 0} (first : Action (W × Log) B) (next : B → Action (W × Log) A)
        → Keeps first
        → ((b : B) → Keeps (next b))
        → Keeps (first >>= next)
    Keeps->>= first next h k s e = >>=-Leaves first next s (h s e) λ b t p. k b t p

  module _ (m : Messages W) (req : Request (W × Log)) (str_of : Value → String) (uid : ℤ) where
    patch_keyword-Keeps :
        (u : Unit {0}) (p : String × Value) → Keeps (patch_keyword req (watched m) str_of uid u p)
    unfolding patch_keyword
    patch_keyword-Keeps u (k, v) = elim (Bool-cases (truthy v)) [
      | inl b ↦ rw b (quiet-Keeps (m.add_flags uid (flag_of k ∷ [])))
      | inr b ↦ rw b (quiet-Keeps (m.remove_flags uid (flag_of k ∷ [])))
    ]

    set_keywords-Keeps :
        (keywords : Result Fields) → Keeps (set_keywords req (watched m) str_of uid keywords)
    set_keywords-Keeps (ok keywords) = quiet-Keeps (m.set_flags uid (keywords_to_flags keywords))
    set_keywords-Keeps (err e) = λ s h. record { left = h }

    apply_keywords-Keeps :
        (v : Option Value) (ps : Dict String Value)
        → Keeps (apply_keywords req (watched m) str_of uid v ps)
    apply_keywords-Keeps (some v) ps = set_keywords-Keeps (items_of v)
    apply_keywords-Keeps none ps = λ s h.
        for_each-Leaves (patch_keyword req (watched m) str_of uid) (λ _ _ t. E t.1) (λ t. E t.1)
          (λ u p _ t e. patch_keyword-Keeps u p t e) tt ps s h

    pub update_keywords-Keeps :
        (patch : Fields) → Keeps (update_keywords req (watched m) str_of uid patch)
    unfolding update_keywords
    update_keywords-Keeps patch =
        apply_keywords-Keeps (get "keywords" patch) (patches "keywords/" patch)

    pub open_mailbox-Keeps :
        (mailbox : String) (uidvalidity : ℤ)
        → Keeps (open_mailbox req (watched m) str_of mailbox uidvalidity)
    unfolding open_mailbox
    open_mailbox-Keeps mailbox uidvalidity =
        Keeps->>= (quiet (m.select_for_update mailbox))
          (check_fresh req (watched m) str_of uidvalidity)
          (quiet-Keeps (m.select_for_update mailbox))
          λ status s h. elim (Bool-cases (status.uidvalidity == uidvalidity)) [
            | inl b ↦ rw b (record { left = h })
            | inr b ↦ rw b (record { left = h })
          ]

-- An action on the server leaves of the context's server what it leaves of the server.
pub on_server-Leaves :
    {S A : Type 0} {P : A → S → Type 0} {E : S → Type 0} (act : Action S A) (c : Ctx S)
    → Leaves P E (act c.server)
    → Leaves (λ a t. P a t.server) (λ t. E t.server) (on_server act c)
unfolding on_server
on_server-Leaves {S} {A} {P} {E} act c h = both (act c.server) h
  where
    both :
        (p : Result A × S)
        → Leaves P E p
        → Leaves (λ a (t : Ctx S). P a t.server) (λ t. E t.server) (put_server c p)
    both (ok a, s) h = record { left = h.left }
    both (err e, s) h = record { left = h.left }
