-- ===== src/Emails/Update/NoLoss.antt =====
-- An update of `Email/set` expunges a message only after it has copied it.
use mathlib.Core.Path.{subst⁻¹}
use jmap_bridge.Base.{
  String, ◌≡◌, refl, ◌≢◌, true, false, Option, none, some, List, [], ◌∷◌, ◌||◌, contains, string_eq,
  arith, inl, inr, Bool-cases,
}
use jmap_bridge.Base.Dict
use jmap_bridge.Base.Dict.{Dict}
use jmap_bridge.Base.Int.{ℤ, int_eq}
use jmap_bridge.Json.{Value, Fields}
use jmap_bridge.Errors.{Result, ok, err}
use jmap_bridge.Effects.{◌>>=◌, lift, for_each}
use jmap_bridge.Effects.Leaves.{Leaves, Leaves_state, >>=-Leaves, for_each-Leaves}
use jmap_bridge.Requests.{Request, Ctx, on_server}
use jmap_bridge.Snapshots.Reports.{Enumerates}
use jmap_bridge.Emails.Update.{
  Messages, discard_name, target_names, update_keywords, copy_one, redirect_moved, remove_message,
  leave_mailbox, move_to, redirect_to, open_mailbox, update_at, apply_email_update, locate,
}
use jmap_bridge.Emails.Update.Events.{
  Log, copied, expunging, note, watched, was_copied, IsCopied, OnlyAfterCopies, quiet-Leaves,
  on_server-Leaves, update_keywords-Keeps, open_mailbox-Keeps,
}

discard_absent :
    (mailbox : String) (names : List String)
    → contains names mailbox ≡ false
    → discard_name mailbox names ≡ names
unfolding discard_name
discard_absent mailbox [] h = refl
discard_absent mailbox (n ∷ names) h = ground (arith, discard_absent mailbox names)

module _ {W : Type 0} (m : Messages W) (req : Request (W × Log)) (str_of : Value → String)
    (members : Enumerates req.enumerate_set) (email_id mailbox : String) (uid : ℤ)
    (goal : Result (Option (List String))) where
  abbrev Safe : Log → Type 0
  Safe = OnlyAfterCopies mailbox goal

  abbrev SafeCtx : Ctx (W × Log) → Type 0
  SafeCtx c = Safe c.server.1

  -- In the loop: each wanted name is still in the list, or has its copy.
  abbrev InLoop : List String → List String → Ctx (W × Log) → Type 0
  InLoop names bs c =
      SafeCtx c
      × ((name : String)
          → contains names name ≡ true
          → (contains bs name || was_copied name uid c.server.1) ≡ true)

  note-Leaves :
      (names : List String) (b : String) (bs : List String) (log : Log)
      (outcome : Result (Option (ℤ × ℤ)) × W)
      → Safe log
      → ((name : String)
          → contains names name ≡ true
          → (contains (b ∷ bs) name || was_copied name uid log) ≡ true)
      → Leaves {S = W × Log} {A = Option (ℤ × ℤ)}
          (λ _ t.
            Safe t.1
            × ((name : String)
                → contains names name ≡ true
                → (contains bs name || was_copied name uid t.1) ≡ true))
          (λ t. Safe t.1)
          (note (copied b uid) outcome log)
  note-Leaves names b bs log (err e, w) safe h = record { left = safe }
  note-Leaves names b bs log (ok a, w) safe h = record {
    left = (safe, λ name wanted. ground (arith, h name wanted));
  }

  copy_one-Leaves :
      (names : List String) (locations : Dict String (ℤ × ℤ)) (b : String) (bs : List String)
      (c : Ctx (W × Log))
      → InLoop names (b ∷ bs) c
      → Leaves
          (λ _ t. InLoop names bs t)
          SafeCtx
          (copy_one req (watched m) str_of uid locations b c)
  unfolding copy_one
  copy_one-Leaves names locations b bs c (safe, h) =
      >>=-Leaves (on_server ((watched m).copy uid b)) _ c
        (on_server-Leaves ((watched m).copy uid b) c
          (note-Leaves names b bs c.server.1 (m.copy uid b c.server.0) safe h))
        λ result t p. record { left = p }

  remove_message-Leaves :
      (s : W × Log)
      → Safe s.1
      → IsCopied mailbox goal uid s.1
      → Leaves {S = W × Log} {A = Unit}
          (λ _ t. Safe t.1)
          (λ t. Safe t.1)
          (remove_message req (watched m) str_of uid s)
  unfolding remove_message
  remove_message-Leaves s safe done =
      >>=-Leaves ((watched m).set_flags uid ("\\Deleted" ∷ [])) (λ _. (watched m).expunge uid) s
        (quiet-Leaves (λ log. Safe log × IsCopied mailbox goal uid log) Safe
          (m.set_flags uid ("\\Deleted" ∷ [])) s (safe, done) safe)
        λ _ t (safe', done').
          quiet-Leaves Safe Safe (m.expunge uid) (t.0, expunging uid ∷ t.1) (done', safe')
            (done', safe')

  server-redirect_to :
      (extra : String) (location : Option (ℤ × ℤ)) (c : Ctx (W × Log))
      → (redirect_to req (watched m) str_of email_id extra location c).server ≡ c.server
  server-redirect_to extra none c = refl
  server-redirect_to extra (some (v, u)) c = refl

  server-redirect_moved :
      (names : List String) (locations : Dict String (ℤ × ℤ)) (c : Ctx (W × Log))
      → (redirect_moved req (watched m) str_of email_id names locations c).server ≡ c.server
  server-redirect_moved [] locations c = refl
  server-redirect_moved (extra ∷ []) locations c =
      server-redirect_to extra (Dict.get extra locations) c
  server-redirect_moved (extra ∷ more ∷ names) locations c = refl

  all-IsCopied :
      (names : List String) (c : Ctx (W × Log))
      → goal ≡ ok (some names)
      → names ≢ []
      → contains names mailbox ≡ false
      → InLoop (discard_name mailbox names) [] c
      → IsCopied mailbox goal uid c.server.1
  all-IsCopied names c is_goal nonempty leaves (safe, h) = record {
    names = names;
    is_goal = is_goal;
    nonempty = nonempty;
    leaves = leaves;
    copies = λ name wanted. h name (rw (discard_absent mailbox names leaves) wanted);
  }

  leave_mailbox-Leaves :
      (n : String) (names : List String) (locations : Dict String (ℤ × ℤ)) (c : Ctx (W × Log))
      → goal ≡ ok (some (n ∷ names))
      → InLoop (discard_name mailbox (n ∷ names)) [] c
      → Leaves
          (λ _ t. SafeCtx t)
          SafeCtx
          (leave_mailbox req (watched m) str_of email_id mailbox uid (n ∷ names) locations c)
  unfolding leave_mailbox ◌>>=◌
  leave_mailbox-Leaves n names locations c is_goal (safe, h) =
      elim (Bool-cases (contains (n ∷ names) mailbox)) [
        | inl b ↦ rw b (record { left = safe })
        | inr b ↦
            let c' =
              redirect_moved req (watched m) str_of email_id (discard_name mailbox (n ∷ names))
                locations c in
            let server = server-redirect_moved (discard_name mailbox (n ∷ names)) locations c in
            rw b (
              on_server-Leaves (remove_message req (watched m) str_of uid) c' (
                remove_message-Leaves c'.server (subst⁻¹ (λ s. Safe s.1) server safe) (
                  subst⁻¹ (λ s. IsCopied mailbox goal uid s.1) server
                    (all-IsCopied (n ∷ names) c is_goal (λ e. cc) b (safe, h)))))
      ]

  move_to-Leaves :
      (names : Option (List String)) (c : Ctx (W × Log))
      → goal ≡ ok names
      → SafeCtx c
      → Leaves
          (λ _ t. SafeCtx t)
          SafeCtx
          (move_to req (watched m) str_of email_id mailbox uid names c)
  move_to-Leaves none c is_goal safe = record { left = safe }
  move_to-Leaves (some []) c is_goal safe = record { left = safe }
  move_to-Leaves (some (n ∷ names)) c is_goal safe =
      >>=-Leaves
        (for_each (copy_one req (watched m) str_of uid) []
          (req.enumerate_set (discard_name mailbox (n ∷ names))))
        (leave_mailbox req (watched m) str_of email_id mailbox uid (n ∷ names)) c
        (for_each-Leaves (copy_one req (watched m) str_of uid)
          (λ _ bs t. InLoop (discard_name mailbox (n ∷ names)) bs t) SafeCtx
          (λ locations b bs t p.
            copy_one-Leaves (discard_name mailbox (n ∷ names)) locations b bs t p)
          [] (req.enumerate_set (discard_name mailbox (n ∷ names))) c
          (safe, λ name wanted. ground (arith, members (discard_name mailbox (n ∷ names)) name)))
        λ locations t p. leave_mailbox-Leaves n names locations t is_goal p

  lift_move-Leaves :
      (names : Result (Option (List String))) (c : Ctx (W × Log))
      → goal ≡ names
      → SafeCtx c
      → Leaves
          (λ _ t. SafeCtx t)
          SafeCtx
          ((lift names >>= move_to req (watched m) str_of email_id mailbox uid) c)
  unfolding ◌>>=◌
  lift_move-Leaves (ok names) c is_goal safe = move_to-Leaves names c is_goal safe
  lift_move-Leaves (err e) c is_goal safe = record { left = safe }

module _ {W : Type 0} (m : Messages W) (req : Request (W × Log)) (str_of : Value → String)
    (members : Enumerates req.enumerate_set) (email_id : String) (patch : Fields) where
  update_at-Leaves :
      (mailbox : String) (uidvalidity uid : ℤ) (c : Ctx (W × Log))
      → OnlyAfterCopies mailbox (target_names req mailbox patch) c.server.1
      → Leaves
          (λ _ t. OnlyAfterCopies mailbox (target_names req mailbox patch) t.server.1)
          (λ t. OnlyAfterCopies mailbox (target_names req mailbox patch) t.server.1)
          (update_at req (watched m) str_of email_id patch (mailbox, uidvalidity, uid) c)
  unfolding update_at
  update_at-Leaves mailbox uidvalidity uid c safe =
      let E = OnlyAfterCopies mailbox (target_names req mailbox patch) in
      let open_it = open_mailbox req (watched m) str_of mailbox uidvalidity in
      let mark = update_keywords req (watched m) str_of uid patch in
      >>=-Leaves (on_server open_it) _ c
        (on_server-Leaves open_it c
          (open_mailbox-Keeps E m req str_of uid mailbox uidvalidity c.server safe))
        λ _ t p.
          >>=-Leaves (on_server mark) _ t
            (on_server-Leaves mark t (update_keywords-Keeps E m req str_of uid patch t.server p))
            λ _ t' p'.
              lift_move-Leaves m req str_of members email_id mailbox uid
                (target_names req mailbox patch) (target_names req mailbox patch) t' refl p'

  -- However an update of a message ends, and whatever the server answers: where it has tried to
  -- expunge the message, the mailboxes that the patch wants are known, at least one, without the
  -- mailbox that the message is in, and each of them had got a copy of it before.
  pub apply_email_update-OnlyAfterCopies :
      (c : Ctx (W × Log)) (mailbox : String) (uidvalidity uid : ℤ)
      → c.server.1 ≡ []
      → locate req (watched m) str_of email_id c ≡ some (mailbox, uidvalidity, uid)
      → OnlyAfterCopies mailbox
          (target_names req mailbox patch)
          (apply_email_update req (watched m) str_of email_id patch c).1.server.1
  unfolding apply_email_update
  apply_email_update-OnlyAfterCopies c mailbox uidvalidity uid fresh found =
      let safe = subst⁻¹ (OnlyAfterCopies mailbox (target_names req mailbox patch)) fresh tt in
      rw found (
        Leaves_state (update_at req (watched m) str_of email_id patch (mailbox, uidvalidity, uid) c)
          (update_at-Leaves mailbox uidvalidity uid c safe))
