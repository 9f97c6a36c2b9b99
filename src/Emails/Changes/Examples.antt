-- ===== src/Emails/Changes/Examples.antt =====
-- A mailbox in which the messages 9 and 10 have arrived.
use jmap_bridge.Base.{ℕ, ◌≡◌, ◌⊎◌, refl, ap, sym, true, [], ◌∷◌}
use jmap_bridge.Base.Int.{pos}
use jmap_bridge.Errors.{ok-injective}
use jmap_bridge.Effects.{pure}
use jmap_bridge.Effects.Keeps.{Returns}
use jmap_bridge.Snapshots.Mail.{MailboxCursor}
use jmap_bridge.Requests.Sample.{request}
use jmap_bridge.Emails.Changes.{Arrivals, Reported, compare_mailbox}
use jmap_bridge.Emails.Changes.Arrived.{IsHistory, IsExact, compare_mailbox-IsExact}

abbrev arrivals : Arrivals (Unit {0})
arrivals = record {
  search_from = λ n. pure (pos 9 ∷ pos 10 ∷ []);
  fetch_changed_since = λ n. pure (pos 2 ∷ pos 9 ∷ []);
}

abbrev cursor : ℕ → ℕ → ℕ → MailboxCursor
cursor highestmodseq uidnext exists = record {
  uidvalidity = pos 1;
  highestmodseq = pos highestmodseq;
  uidnext = pos uidnext;
  exists = pos exists;
}

abbrev nothing_yet : Reported
nothing_yet = record { created = []; updated = [] }

history : IsHistory (cursor 3 9 2) (cursor 8 11 4) (1 ∷ 2 ∷ []) (9 ∷ 10 ∷ []) (λ uid. true)
history = record { was = refl; now = refl; no_arrival = λ h. cc }

compare_mailbox-IsExact_example :
    Returns
      (λ r _.
        ((pos 3 ≡ pos 8) × (r ≡ nothing_yet))
        ⊎ IsExact request arrivals "A"
            (cursor 3 9 2)
            (cursor 8 11 4)
            nothing_yet
            (1 ∷ 2 ∷ [])
            (9 ∷ 10 ∷ [])
            (λ uid. true)
            (pos 2 ∷ pos 9 ∷ [])
            r)
      (compare_mailbox request arrivals "A" (cursor 3 9 2) (cursor 8 11 4) nothing_yet tt)
compare_mailbox-IsExact_example =
    compare_mailbox-IsExact request arrivals "A" (cursor 3 9 2) (cursor 8 11 4) nothing_yet
      (1 ∷ 2 ∷ []) (9 ∷ 10 ∷ []) (λ uid. true) (pos 2 ∷ pos 9 ∷ []) history
      (λ s t found e. sym (ok-injective _ found (ap (λ p. p.0) e)))
      (λ s t changed e. sym (ok-injective _ changed (ap (λ p. p.0) e))) tt
