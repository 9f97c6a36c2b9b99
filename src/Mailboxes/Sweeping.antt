-- ===== src/Mailboxes/Sweeping.antt =====
-- types/mailbox.py: the list of the mailboxes, and the sweep of their statuses.
use jmap_bridge.Base.{
  ℕ, String, Option, none, some, List, [], ◌∷◌, map, length, if◌then◌else◌, string_eq,
}
use jmap_bridge.Base.Dict
use jmap_bridge.Base.Dict.{Dict}
use jmap_bridge.Base.Int.{ℤ, pos}
use jmap_bridge.Effects.{Action, pure, ◌>>=◌}
use jmap_bridge.Imap.{ImapMailboxEntry, MailboxStatus, parallel_map}
use jmap_bridge.Mailboxes.Mapping.{is_no_select}
use jmap_bridge.Requests.{Request, Sweep, Ctx, on_server, get_or_compute}
use jmap_bridge.Snapshots.Mail.{MailboxCursor}

unfoldable pub selectable : (String → String) → List ImapMailboxEntry → List ImapMailboxEntry
unfolding is_no_select
selectable upper [] = []
selectable upper (e ∷ entries) =
    let rest = selectable upper entries in if is_no_select upper e.flags then rest else e ∷ rest

-- `dict(pairs)`
unfoldable pub dict_of : {V : Type 0} → List (String × V) → Dict String V → Dict String V
dict_of [] d = d
dict_of ((k, v) ∷ pairs) d = dict_of pairs (Dict.put k v d)

abbrev pub or_zero : Option ℤ → ℤ
or_zero none = pos 0
or_zero (some n) = n

abbrev pub cursor_of : MailboxStatus → MailboxCursor
cursor_of s = record {
  uidvalidity = s.uidvalidity;
  highestmodseq = or_zero s.highestmodseq;
  uidnext = s.uidnext;
  exists = s.exists;
}

unfoldable pub cursors_from_statuses : Dict String MailboxStatus → Dict String MailboxCursor
cursors_from_statuses = map (λ (name, s). (name, cursor_of s))

module _ {σ : Type 0} (req : Request σ) where
  unfoldable pub list_selectable_mailboxes : Action σ (List ImapMailboxEntry)
  unfolding ◌>>=◌ selectable
  list_selectable_mailboxes = do
    entries ← req.imap.list_mailboxes
    pure (selectable req.upper entries)

  unfoldable pub select_one : ImapMailboxEntry → Action σ (String × MailboxStatus)
  unfolding ◌>>=◌
  select_one e = do status ← req.imap.select e.name; pure (e.name, status)

  unfoldable pub status_map : List ImapMailboxEntry → Action σ (Dict String MailboxStatus)
  unfolding ◌>>=◌ parallel_map select_one dict_of
  status_map entries = do
    results ← parallel_map req.imap select_one req.pool_max entries
    pure (dict_of results [])

  unfoldable pub select_and_search : ImapMailboxEntry → Action σ (String × MailboxStatus × ℕ)
  unfolding ◌>>=◌
  select_and_search e = do
    status ← req.imap.select e.name
    unseen ← req.imap.search_unseen
    pure (e.name, status, length unseen)

  unfoldable pub status_and_unseen_map :
      List ImapMailboxEntry → Action σ (Dict String MailboxStatus × Dict String ℕ)
  unfolding ◌>>=◌ parallel_map select_and_search dict_of
  status_and_unseen_map entries = do
    results ← parallel_map req.imap select_and_search req.pool_max entries
    pure (
      dict_of (map (λ (name, status, _). (name, status)) results) [],
      dict_of (map (λ (name, _, unseen). (name, unseen)) results) [],
    )

  unfoldable pub cached_mail_sweep : Action (Ctx σ) Sweep
  unfolding ◌>>=◌ get_or_compute on_server list_selectable_mailboxes status_map
  cached_mail_sweep = get_or_compute (
      on_server (do
        entries ← list_selectable_mailboxes
        statuses ← status_map entries
        pure (entries, statuses)))
