-- ===== src/Mailboxes/Query.antt =====
-- `Mailbox/query`.
use jmap_bridge.Base.{
  ℕ, String, Bool, true, false, Option, none, some, List, [], ◌∷◌, map, length, if◌then◌else◌, ◌==◌,
  string_eq,
}
use jmap_bridge.Json.{Value, null, str, Fields, end}
use jmap_bridge.Json.Object.{get}
use jmap_bridge.Effects.{Action, pure, or_server_fail, ◌>>=◌}
use jmap_bridge.State.{encode_mail_state}
use jmap_bridge.Mailboxes.Mapping.{Mailbox, imap_list_to_jmap_mailboxes}
use jmap_bridge.Mailboxes.Sweeping.{cursors_from_statuses}
use jmap_bridge.Mailboxes.Changes.{checkout_and_sweep}
use jmap_bridge.Requests.{Request, Ctx, require_account}

pub record QueryArgs : Type 0 where
  pub account_id : Option String
  pub filter : Option Fields

-- `canCalculateChanges` is always false, and `position` 0.
pub record QueryResponse : Type 0 where
  pub account_id : String
  pub query_state : String
  pub ids : List String
  pub total : ℕ

-- `value == wanted`, for a value that is a text or `None`.
abbrev pub is_value : Option String → Value → Bool
is_value none null = true
is_value (some s) (str t) = s == t
is_value _ _ = false

-- The condition on `parentId`: the text "__unset__" is read as none.
abbrev pub in_parent : Option Value → Mailbox → Bool
in_parent none m = true
in_parent (some (str t)) m = if t == "__unset__" then true else is_value m.parent_id (str t)
in_parent (some v) m = is_value m.parent_id v

abbrev pub in_role : Option Value → Mailbox → Bool
in_role none m = true
in_role (some v) m = is_value m.role v

-- `[m for m in mailboxes if test(m)]`
unfoldable pub keep : (Mailbox → Bool) → List Mailbox → List Mailbox
keep test [] = []
keep test (m ∷ mailboxes) = let rest = keep test mailboxes in if test m then m ∷ rest else rest

-- `args.get("filter") or {}`
abbrev pub or_end : Option Fields → Fields
or_end none = end
or_end (some f) = f

unfoldable pub filter_mailboxes : Fields → List Mailbox → List Mailbox
unfolding keep get
filter_mailboxes filter mailboxes =
    keep (in_role (get "role" filter)) (keep (in_parent (get "parentId" filter)) mailboxes)

module _ {σ : Type 0} (req : Request σ) where
  unfoldable pub mailbox_query : QueryArgs → Action (Ctx σ) QueryResponse
  unfolding ◌>>=◌ require_account or_server_fail checkout_and_sweep encode_mail_state
      cursors_from_statuses imap_list_to_jmap_mailboxes filter_mailboxes
  mailbox_query args = do
    account_id ← require_account req args.account_id
    (entries, statuses) ← or_server_fail (checkout_and_sweep req)
    let ids =
        map (λ m. m.id)
          (filter_mailboxes (or_end args.filter)
            (imap_list_to_jmap_mailboxes req.lib req.upper entries))
    pure (record {
      account_id = account_id;
      query_state = encode_mail_state req.lib (cursors_from_statuses statuses);
      ids = ids;
      total = length ids;
    })
