-- ===== src/Imap/Keeps.antt =====
-- What holds of each result of a sweep over several connections.
use jmap_bridge.Base.{List, [], ◌∷◌, All, All-append}
use jmap_bridge.Effects.{Action, traverse}
use jmap_bridge.Effects.Keeps.{Returns, >>=-Returns, >>=-Returns_of}
use jmap_bridge.Imap.{ImapServer, run_chunks}

-- A list of actions on several connections: what holds of each result.
module _ {S A B : Type 0} (imap : ImapServer S) (work : A → Action S B) (Q : B → Type 0)
    (each : (a : A) (s : S) → Returns (λ b _. Q b) (work a s)) where
  traverse-All : (xs : List A) (s : S) → Returns (λ bs _. All Q bs) (traverse work xs s)
  unfolding traverse
  traverse-All [] s = record { post = tt }
  traverse-All (x ∷ xs) s = >>=-Returns_of (work x) _ s (each x s) λ b t q.
      >>=-Returns_of (traverse work xs) _ t (traverse-All xs t) λ bs u qs. record { post = (q, qs) }

  pub run_chunks-All :
      (chunks : List (List A)) (s : S) → Returns (λ bs _. All Q bs) (run_chunks imap work chunks s)
  unfolding run_chunks
  run_chunks-All [] s = record { post = tt }
  run_chunks-All (chunk ∷ chunks) s = >>=-Returns imap.connect _ s λ _ t _.
      >>=-Returns_of (traverse work chunk) _ t (traverse-All chunk t) λ out u q.
        >>=-Returns_of (run_chunks imap work chunks) _ u (run_chunks-All chunks u)
          λ rest v q'. record { post = All-append Q out rest q q' }
