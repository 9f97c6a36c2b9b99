-- ===== src/Requests/Keeps.antt =====
-- What holds of an action on the server, in a context.
use jmap_bridge.Errors.{Result, ok, err}
use jmap_bridge.Effects.{Action}
use jmap_bridge.Effects.Keeps.{Returns}
use jmap_bridge.Requests.{Ctx, on_server, put_server}

pub on_server-Returns :
    {S A : Type 0} {Q : A → Type 0} (act : Action S A) (c : Ctx S)
    → Returns (λ a _. Q a) (act c.server)
    → Returns (λ a _. Q a) (on_server act c)
unfolding on_server
on_server-Returns {S} {A} {Q} act c h = both (act c.server) h
  where
    both : (p : Result A × S) → Returns (λ a _. Q a) p → Returns (λ a _. Q a) (put_server c p)
    both (ok a, s) h = record { post = h.post }
    both (err e, s) h = record { post = tt }
