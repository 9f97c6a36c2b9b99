-- ===== src/Imap.antt =====
-- The IMAP server as the handlers see it, through backends/imap/client.py, and a sweep of mailboxes
-- over several connections.
pub mod Keeps
use jmap_bridge.Base.{ℕ, String, Option, none, List, [], ◌∷◌, ◌++◌}
use jmap_bridge.Base.{string_eq}
use jmap_bridge.Base.Int.{ℤ}
use jmap_bridge.Effects.{Action, pure, ◌>>=◌, ◌>>◌, traverse}
use jmap_bridge.Context.{connection_chunks}

-- mailbox_map.py: one line of a LIST response. `flags` enumerates a frozenset.
pub record ImapMailboxEntry : Type 0 where
  pub flags : List String
  pub delimiter : String
  pub name : String

-- client.py: what SELECT reports.
pub record MailboxStatus : Type 0 where
  pub uidvalidity : ℤ
  pub uidnext : ℤ
  pub highestmodseq : Option ℤ
  pub exists : ℤ
  pub unseen : ℤ

-- A connection's operations, over the state of the server and of the connection. Each of them may
-- raise an `ImapError`, and `list_mailboxes` the errors of the IMAP library as they are; `connect`
-- is the checkout of a connection from the pool.
pub record ImapServer (σ : Type 0) : Type 0 where
  pub connect : Action σ Unit
  pub list_mailboxes : Action σ (List ImapMailboxEntry)
  pub select : String → Action σ MailboxStatus
  pub search_unseen : Action σ (List ℤ)
  pub create_folder : String → Action σ Unit
  pub rename_folder : String → String → Action σ Unit
  pub delete_folder : String → Action σ Unit

module _ {σ A B : Type 0} (imap : ImapServer σ) (work : A → Action σ B) where
  -- Each chunk takes a connection of its own. Their interleaving is left out: the work selects a
  -- mailbox and reads.
  unfoldable pub run_chunks : List (List A) → Action σ (List B)
  unfolding ◌>>=◌ traverse
  run_chunks [] = pure []
  run_chunks (chunk ∷ chunks) = do
    imap.connect
    out ← traverse work chunk
    rest ← run_chunks chunks
    pure (out ++ rest)

  -- `imap_parallel_map` with the default concurrency.
  unfoldable pub parallel_map : ℕ → List A → Action σ (List B)
  unfolding run_chunks
  parallel_map pool_max entries = run_chunks (connection_chunks pool_max none entries)
