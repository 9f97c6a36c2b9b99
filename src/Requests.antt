-- ===== src/Requests.antt =====
-- context.py: what a handler is given, the request cache, and `require_account`.
pub mod Keeps
pub mod Sample
use jmap_bridge.Base.{ℕ, String, ◌<>◌, Option, none, some, List, if◌then◌else◌, ◌==◌, string_eq}
use jmap_bridge.Base.Dict.{Dict}
use jmap_bridge.Errors.{Result, ok, raised, account_not_found}
use jmap_bridge.Effects.{Action, pure, raise, modify, ◌>>=◌, ◌>>◌}
use jmap_bridge.Base.Int.{ℤ}
use jmap_bridge.State.{Reason}
use jmap_bridge.Encoding.{Libraries}
use jmap_bridge.IdRedirect.{IdRedirectCache, AccountKey, resolve}
use jmap_bridge.Imap.{ImapServer, ImapMailboxEntry, MailboxStatus}

-- What does not change during a request: the server, the libraries, the account, and the parts of
-- Python that the handlers use. `upper` is `str.upper`, `repr` and `repr_list` are `repr` of a text
-- and of a list of texts, `show` is `str` of an int, `describe` the text of an `InvalidStateToken`,
-- and `enumerate_set` the order of a set of texts.
pub record Request (σ : Type 0) : Type 0 where
  pub imap : ImapServer σ
  pub lib : Libraries
  pub account_id : String
  pub redirect_key : AccountKey
  pub pool_max : ℕ
  pub upper : String → String
  pub repr : String → String
  pub repr_list : List String → String
  pub show : ℤ → String
  pub describe : Reason → String
  pub enumerate_set : List String → List String

-- What `_cached_mail_sweep` keeps: the mailboxes and their statuses.
abbrev pub Sweep : Type 0
Sweep = List ImapMailboxEntry × Dict String MailboxStatus

-- The server, the redirects that requests share, and what the request cache has under `mail_sweep`,
-- the one key that is used.
pub record Ctx (σ : Type 0) : Type 0 where
  pub server : σ
  pub redirects : IdRedirectCache
  pub mail_sweep : Option Sweep

module _ {σ A : Type 0} where
  abbrev pub put_server : Ctx σ → Result A × σ → Result A × Ctx σ
  put_server c (r, s) = (r, record c { server = s })

  unfoldable pub on_server : Action σ A → Action (Ctx σ) A
  on_server body c = put_server c (body c.server)

module _ {σ : Type 0} where
  -- `get_or_compute`: the calls of a request run one after the other, so the lock is free.
  unfoldable pub get_or_compute : Action (Ctx σ) Sweep → Action (Ctx σ) Sweep
  unfolding ◌>>=◌
  get_or_compute compute c = elim c.mail_sweep [
    | some sweep ↦ (ok sweep, c)
    | none ↦ (do sweep ← compute; modify (λ c. record c { mail_sweep = some sweep }); pure sweep) c
  ]

  -- `invalidate_cache`
  unfoldable pub invalidate_cache : Ctx σ → Ctx σ
  invalidate_cache c = record c { mail_sweep = none }

  abbrev pub or_own : Request σ → Option String → String
  or_own req none = req.account_id
  or_own req (some account_id) = account_id

  -- `account_id = args.get("accountId", ctx.account_id)`, then `require_account`.
  unfoldable pub require_account : Request σ → Option String → Action (Ctx σ) String
  require_account req given =
      if or_own req given == req.account_id
      then pure (or_own req given)
      else raise (raised (account_not_found ("unknown account " <> req.repr (or_own req given))))

  -- `ctx.id_redirects.resolve(ctx.id_redirect_key, id)`
  abbrev pub resolve_id : Request σ → Ctx σ → String → String
  resolve_id req c id = resolve req.redirect_key id c.redirects
