-- ===== src/Emails/Update/Moved.antt =====
-- A message that an update of `Email/set` has moved is still found under its old id.
use jmap_bridge.Base.{
  ◌<◌, String, ◌≡◌, refl, ◌≢◌, sym, ap, ◌∙◌, false, Option, none, some, [], ◌∷◌, ◌==◌, string_eq,
  arith,
}
use jmap_bridge.Base.Dict
use jmap_bridge.Base.Dict.{Dict}
use jmap_bridge.Base.Int.{ℤ}
use jmap_bridge.Json.{Value, Fields}
use jmap_bridge.Errors.{Result, ok, err, ok-injective}
use jmap_bridge.Effects.{Action, ◌>>=◌, lift, for_each}
use jmap_bridge.Effects.Keeps.{Returns, >>=-Returns_of, Returns-mono}
use jmap_bridge.IdRedirect.{table_of, record', resolve}
use jmap_bridge.IdRedirect.Record.{IsValid, resolve-record'}
use jmap_bridge.Requests.{Request, Ctx, on_server, put_server, resolve_id}
use jmap_bridge.Emails.Ids.{
  EmailId, email_id_value, encode_email_id, decode_email_id, IsReversible, decode-encode_email_id,
}
use jmap_bridge.Emails.Update.{
  Messages, discard_name, target_names, update_keywords, copy_one, remove_message, leave_mailbox,
  move_to, redirect_to, open_mailbox, update_at, apply_email_update, located, locate,
}

-- An action on the server leaves the redirects.
redirects-on_server :
    {S A : Type 0} (act : Action S A) (c : Ctx S)
    → Returns (λ _ t. t.redirects ≡ c.redirects) (on_server act c)
unfolding on_server
redirects-on_server {S} {A} act c = both (act c.server)
  where
    both :
        (p : Result A × S) → Returns (λ _ (t : Ctx S). t.redirects ≡ c.redirects) (put_server c p)
    both (ok a, s) = record { post = refl }
    both (err e, s) = record { post = tt }

module _ {σ : Type 0} (req : Request σ) (messages : Messages σ) (str_of : Value → String)
    (email_id mailbox other : String) (uid new_uidvalidity new_uid : ℤ) (differ : mailbox ≢ other)
    (alone : req.enumerate_set (other ∷ []) ≡ other ∷ [])
    (reported : (s : σ)
      → (messages.copy uid other s).0 ≡ ok (some (new_uidvalidity, new_uid))) where
  abbrev new_id : String
  new_id = encode_email_id req.lib other new_uidvalidity new_uid

  -- The redirects with the move's.
  abbrev Recorded : Ctx σ → Ctx σ → Type 0
  Recorded c t = t.redirects ≡ record' req.redirect_key email_id new_id c.redirects

  Recorded-of : (c t t' : Ctx σ) → t.redirects ≡ c.redirects → Recorded t t' → Recorded c t'
  Recorded-of c t t' r p = p ∙ ap (record' req.redirect_key email_id new_id) r

  abbrev HasCopy : Ctx σ → Dict String (ℤ × ℤ) → Ctx σ → Type 0
  HasCopy c locations t =
      (Dict.get other locations ≡ some (new_uidvalidity, new_uid)) × (t.redirects ≡ c.redirects)

  copy-HasCopy :
      (c : Ctx σ)
      → Returns
          (λ result t. (result ≡ some (new_uidvalidity, new_uid)) × (t.redirects ≡ c.redirects))
          (on_server (messages.copy uid other) c)
  unfolding on_server
  copy-HasCopy c = copy_answered (messages.copy uid other c.server) (reported c.server)
    where
      copy_answered :
          (p : Result (Option (ℤ × ℤ)) × σ)
          → p.0 ≡ ok (some (new_uidvalidity, new_uid))
          → Returns
              (λ result (t : Ctx σ).
                (result ≡ some (new_uidvalidity, new_uid)) × (t.redirects ≡ c.redirects))
              (put_server c p)
      copy_answered (ok a, s) e = record { post = (ok-injective a _ e, refl) }
      copy_answered (err x, s) e = record { post = tt }

  copy_one-HasCopy : (c : Ctx σ) → Returns (HasCopy c) (copy_one req messages str_of uid [] other c)
  unfolding copy_one
  copy_one-HasCopy c =
      >>=-Returns_of (on_server (messages.copy uid other)) _ c (copy-HasCopy c) λ result t (q, r).
        rw q (record { post = (Dict.get-put_self other (new_uidvalidity, new_uid) [], r) })

  leave_mailbox-Recorded :
      (locations : Dict String (ℤ × ℤ)) (c : Ctx σ)
      → Dict.get other locations ≡ some (new_uidvalidity, new_uid)
      → Returns
          (λ _ t. Recorded c t)
          (leave_mailbox req messages str_of email_id mailbox uid (other ∷ []) locations c)
  unfolding leave_mailbox ◌>>=◌ discard_name
  leave_mailbox-Recorded locations c e =
      let apart : (mailbox == other) ≡ false = ground arith in
      rw (apart, e)
        (redirects-on_server (remove_message req messages str_of uid)
          (redirect_to req messages str_of email_id other (some (new_uidvalidity, new_uid)) c))

  move_to-Recorded :
      (c : Ctx σ)
      → Returns
          (λ _ t. Recorded c t)
          (move_to req messages str_of email_id mailbox uid (some (other ∷ [])) c)
  unfolding discard_name for_each
  move_to-Recorded c =
      let apart : (mailbox == other) ≡ false = ground arith in
      rw (apart, alone)
        (>>=-Returns_of {P = HasCopy c}
          (for_each (copy_one req messages str_of uid) [] (other ∷ []))
          (leave_mailbox req messages str_of email_id mailbox uid (other ∷ [])) c
          (>>=-Returns_of (λ t. copy_one req messages str_of uid [] other t) _ c
            (copy_one-HasCopy c) λ locations t p. record { post = p })
          λ locations t (e, r).
            Returns-mono
              (leave_mailbox req messages str_of email_id mailbox uid (other ∷ []) locations t)
              (λ _ t'. Recorded-of c t t' r) (leave_mailbox-Recorded locations t e))

  lift-Recorded :
      (c t : Ctx σ)
      → t.redirects ≡ c.redirects
      → Returns
          (λ _ t'. Recorded c t')
          ((lift (ok (some (other ∷ []))) >>= move_to req messages str_of email_id mailbox uid) t)
  unfolding ◌>>=◌
  lift-Recorded c t r =
      Returns-mono (move_to req messages str_of email_id mailbox uid (some (other ∷ [])) t)
        (λ _ t'. Recorded-of c t t' r) (move_to-Recorded t)

  update_at-Recorded :
      (patch : Fields) (uidvalidity : ℤ) (c : Ctx σ)
      → target_names req mailbox patch ≡ ok (some (other ∷ []))
      → Returns
          (λ _ t. Recorded c t)
          (update_at req messages str_of email_id patch (mailbox, uidvalidity, uid) c)
  unfolding update_at
  update_at-Recorded patch uidvalidity c wanted =
      let open_it = open_mailbox req messages str_of mailbox uidvalidity in
      let mark = update_keywords req messages str_of uid patch in
      >>=-Returns_of (on_server open_it) _ c (redirects-on_server open_it c) λ _ t r.
        >>=-Returns_of (on_server mark) _ t (redirects-on_server mark t)
          λ _ t' r'. rw wanted (lift-Recorded c t' (r' ∙ r))

  -- Where the old id leads to a new id, it is located where the new id says.
  located_at :
      (direct : EmailId)
      → new_id ≢ email_id
      → IsReversible req.lib (email_id_value other new_uidvalidity new_uid)
      → located req messages str_of email_id (some direct) new_id
        ≡ some (other, new_uidvalidity, new_uid)
  located_at direct ne r =
      let decoded = decode-encode_email_id req.lib str_of other new_uidvalidity new_uid r in
      let apart : (new_id == email_id) ≡ false = ground arith in rw (apart, decoded) refl

  decoded_of :
      (o : Option EmailId) (resolved : String) (location : EmailId)
      → located req messages str_of email_id o resolved ≡ some location
      → (direct : EmailId) × (o ≡ some direct)
  decoded_of none resolved location h = cc
  decoded_of (some direct) resolved location h = (direct, refl)

  locate-Recorded :
      (location : EmailId) (c t : Ctx σ)
      → new_id ≢ email_id
      → IsReversible req.lib (email_id_value other new_uidvalidity new_uid)
      → locate req messages str_of email_id c ≡ some location
      → resolve req.redirect_key email_id t.redirects ≡ new_id
      → locate req messages str_of email_id t ≡ some (other, new_uidvalidity, new_uid)
  unfolding locate
  locate-Recorded location c t ne reversible found leads =
      let (direct, e) =
        decoded_of (decode_email_id req.lib str_of email_id) (resolve_id req c email_id) location
          found in
      rw (leads, e) (located_at direct ne reversible)

  -- If an update that moves a message to one other mailbox returns, and the server reports where
  -- the copy is, then the old id is located there. The account's redirects are valid and have
  -- room, the new id has none of its own, and ids can be decoded.
  pub apply_email_update-locate :
      (patch : Fields) (uidvalidity : ℤ) (c : Ctx σ)
      → IsValid c.redirects
      → 0 < c.redirects.max_entries
      → email_id ≢ new_id
      → Dict.get new_id (table_of req.redirect_key c.redirects) ≡ none
      → IsReversible req.lib (email_id_value other new_uidvalidity new_uid)
      → locate req messages str_of email_id c ≡ some (mailbox, uidvalidity, uid)
      → target_names req mailbox patch ≡ ok (some (other ∷ []))
      → Returns
          (λ _ t. locate req messages str_of email_id t ≡ some (other, new_uidvalidity, new_uid))
          (apply_email_update req messages str_of email_id patch c)
  unfolding apply_email_update
  apply_email_update-locate patch uidvalidity c valid room ne last reversible found wanted =
      rw found (
        Returns-mono (update_at req messages str_of email_id patch (mailbox, uidvalidity, uid) c)
          (λ _ t r.
            locate-Recorded (mailbox, uidvalidity, uid) c t (λ p. ne (sym p)) reversible found
              (ap (resolve req.redirect_key email_id) r
                ∙ resolve-record' req.redirect_key email_id new_id c.redirects valid room ne last))
          (update_at-Recorded patch uidvalidity c wanted))
