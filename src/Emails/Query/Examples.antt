-- ===== src/Emails/Query/Examples.antt =====
-- A mailbox in which the messages 1, 2 and 3 are found.
use jmap_bridge.Base.{
  ℕ, ◌≡◌, ◌≤◌, refl, String, none, some, [], ◌∷◌, ◌++◌, length, leb, if◌then◌else◌, arith,
}
use jmap_bridge.Base.Int.{pos, negsuc, int_eq}
use jmap_bridge.Base.Dict
use jmap_bridge.Base.{string_eq, nat_eq, ◌==◌}
use jmap_bridge.Context.{connection_chunks}
use jmap_bridge.Errors.{ok, imap_error}
use jmap_bridge.Effects.{pure, raise}
use jmap_bridge.Requests.{Request, Ctx}
use jmap_bridge.Json.{Value, num, arr, cons}
use jmap_bridge.Encoding.{Bytes, rstrip_padding}
use jmap_bridge.Requests.Sample.{libraries, request, imap, ctx_of}
use jmap_bridge.Emails.Filter.{Texts}
use jmap_bridge.Emails.Sort.{Ordered}
use jmap_bridge.Emails.Query.{
  SortValues, Searches, Row, QueryArgs, QueryResponse, page, email_query,
}
use jmap_bridge.Emails.Query.Pages.{paged, email_query-pages}

abbrev numbers : Ordered ℕ
numbers = record { leb = leb; total = λ a b. ground arith; transitive = λ a b c p q. ground arith }

abbrev values : SortValues ℕ
values = record { ordered = numbers; bit = λ b. if b then 1 else 0 }

abbrev row_dated : ℕ → Row ℕ
row_dated n = record { internal_date = some n; subject = none; size = none; flags = [] }

abbrev searches : Searches (Unit {0}) ℕ
searches = record {
  search = λ criteria. pure (pos 1 ∷ pos 2 ∷ pos 3 ∷ []);
  sort = λ keys criteria. raise (imap_error "no SORT");
  fetch =
      λ uids items. pure ((pos 1, row_dated 5) ∷ (pos 2, row_dated 9) ∷ (pos 3, row_dated 7) ∷ []);
}

abbrev texts : Texts
texts = record { split = λ s. s ∷ []; search_date = λ s. none; repr = λ s. s; repr_list = λ ss. "" }

-- The UID in an id.
abbrev uid_in : Value → Bytes
uid_in (arr (cons name (cons uidvalidity (cons (num (pos uid)) rest)))) = uid ∷ []
uid_in v = []

abbrev digit : Bytes → String
digit [] = "S"
digit (n ∷ _) = if n == 1 then "1" else if n == 2 then "2" else "3"

-- A server with the one mailbox `A` and no SORT.
abbrev one_mailbox : Request (Unit {0})
one_mailbox = record request {
  lib = record libraries { b64encode = digit; dumps = uid_in };
  imap = record imap {
    list_mailboxes = pure (record { flags = []; delimiter = "/"; name = "A" } ∷ []);
  };
}

abbrev args : QueryArgs
args = record { account_id = none; filter = none; sort = none; position = none; limit = none }

-- A negative limit drops the last ids.
page_runs : page ("a" ∷ "b" ∷ "c" ∷ []) 0 (some (negsuc 0)) ≡ "a" ∷ "b" ∷ []
unfolding page
page_runs = refl

abbrev state_after : Ctx (Unit {0})
state_after = record (ctx_of tt) {
  mail_sweep = some (
    record { flags = []; delimiter = "/"; name = "A" } ∷ [],
    (
      "A",
      record {
        uidvalidity = pos 1;
        uidnext = pos 6;
        highestmodseq = none;
        exists = pos 1;
        unseen = pos 0;
      },
    )
        ∷ [],
  );
}

-- The newest message first.
abbrev response : QueryResponse
response = record {
  account_id = "Aalice";
  query_state = "S";
  position = 0;
  ids = "E2" ∷ "E3" ∷ "E1" ∷ [];
  total = 3;
}

query_runs :
    email_query one_mailbox texts values searches (paged args 0 3) (ctx_of tt)
    ≡ (ok response, state_after)
unfolding email_query string_eq connection_chunks int_eq Dict.put rstrip_padding nat_eq
query_runs = refl

email_query-pages_example :
    (first : QueryResponse) × (second : QueryResponse) × (email_query one_mailbox texts values
        searches
        (paged args 0 2)
        (ctx_of tt)
      ≡ (ok first, state_after))
    × (email_query one_mailbox texts values searches (paged args 2 1) (ctx_of tt)
        ≡ (ok second, state_after))
    × (first.ids ++ second.ids ≡ "E2" ∷ "E3" ∷ "E1" ∷ [])
    × (length first.ids ≤ 2)
    × (length second.ids ≤ 1)
    × (first.total ≡ 3)
    × (second.total ≡ 3)
email_query-pages_example =
    email_query-pages one_mailbox texts values searches args 0 2 1 (ctx_of tt) state_after response
      query_runs
