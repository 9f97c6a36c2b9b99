-- ===== src/Emails/Examples.antt =====
-- Filters and the criteria that they become.
use jmap_bridge.Base.{
  ◌≡◌, ◌≢◌, refl, inl, inr, String, true, false, none, some, [], ◌∷◌, ◌==◌, string_eq,
}
use jmap_bridge.Base.Dict
use jmap_bridge.Base.Text.{split_on}
use jmap_bridge.Errors.{ok}
use jmap_bridge.Emails.Filter.{
  Criteria, Criterion, nil, cons, token, group, tokens, Condition, Filter, condition, operation,
  none_left, next, Texts, translate_filter, build_search_criteria, find_in_mailbox,
}
use jmap_bridge.Emails.Filter.Server.{Message}
use jmap_bridge.Emails.Filter.Meaning.{matches, IsSearchable}
use jmap_bridge.Emails.Filter.Scope.{IsScoped, finds}
use jmap_bridge.Emails.Filter.Translated.{
  build_search_criteria-search, build_search_criteria-or_blank,
}

abbrev py : Texts
py = record {
  split = split_on b' ';
  search_date = λ value. some "15-Jan-2024";
  repr = λ s. s;
  repr_list = λ ss. "";
}

abbrev anything : Condition
anything = record {
  in_mailbox = none;
  has_keyword = none;
  not_keyword = none;
  subject = none;
  text = none;
  body = none;
  sender = none;
  to = none;
  cc = none;
  bcc = none;
  header = [];
  before = none;
  after = none;
  others = [];
}

abbrev in_mailbox : String → Filter
in_mailbox id = condition (record anything { in_mailbox = some id })

abbrev seen : Filter
seen = condition (record anything { has_keyword = some "$seen" })

abbrev words : Filter
words = condition (record anything { text = some "meet* notes" })

-- In one mailbox: seen, or without the two words.
abbrev filter : Filter
filter = operation (some "AND") (
    next (in_mailbox "MAQ") (
      next
        (operation (some "OR")
          (next seen (next (operation (some "NOT") (next words none_left)) none_left)))
        none_left))

abbrev criteria : Criteria
criteria = cons (token "OR") (
    cons (group (tokens ("SEEN" ∷ []))) (
      cons
        (group (
          cons (token "NOT") (cons (group (tokens ("TEXT" ∷ "meet" ∷ "TEXT" ∷ "notes" ∷ []))) nil)))
        nil))

abbrev message : Message
message = record {
  flag = λ key. key == "SEEN";
  keyword = λ k. false;
  holds = λ field word. true;
  header = λ name value. false;
  before = λ date. false;
  since = λ date. false;
}

ok_cons_ne : (c : Criterion) (cs : Criteria) → ok (cons c cs) ≢ ok nil
ok_cons_ne c cs p = cc

filter_runs : build_search_criteria py filter ≡ ok criteria
unfolding build_search_criteria string_eq Dict.get split_on
filter_runs = refl

filter-IsSearchable : IsSearchable py filter
unfolding IsSearchable translate_filter string_eq Dict.get split_on
filter-IsSearchable = (
  tt,
  tt,
  (
    (
      tt,
      ok_cons_ne (token "SEEN") nil,
      (
        (tt, ok_cons_ne (token "TEXT") (tokens ("meet" ∷ "TEXT" ∷ "notes" ∷ [])), tt),
        ok_cons_ne (token "NOT") _,
        tt,
      ),
    ),
    tt,
    tt,
  ),
)

filter-IsScoped : IsScoped (find_in_mailbox filter) filter
unfolding IsScoped find_in_mailbox string_eq
filter-IsScoped = (inr refl, ((inl refl, ((inl refl, tt), tt)), tt))

build_search_criteria-search_example :
    finds (find_in_mailbox filter) "MAQ" message criteria ≡ some (matches py message "MAQ" filter)
build_search_criteria-search_example =
    build_search_criteria-search py message "MAQ" filter criteria filter_runs filter-IsSearchable
      filter-IsScoped

-- Only the first mailbox of two is kept, and no criteria stand for the other.
two_mailboxes : Filter
two_mailboxes = operation (some "AND") (next (in_mailbox "MAQ") (next (in_mailbox "MAg") none_left))

first_mailbox_runs : find_in_mailbox two_mailboxes ≡ some "MAQ"
unfolding two_mailboxes find_in_mailbox string_eq
first_mailbox_runs = refl

second_mailbox_runs : build_search_criteria py two_mailboxes ≡ ok (tokens ("ALL" ∷ []))
unfolding two_mailboxes build_search_criteria string_eq
second_mailbox_runs = refl

build_search_criteria-or_blank_example :
    build_search_criteria py
      (operation (some "OR") (next (condition anything) (next seen none_left)))
    ≡ build_search_criteria py seen
unfolding translate_filter string_eq Dict.get
build_search_criteria-or_blank_example =
    build_search_criteria-or_blank py (condition anything) seen (token "SEEN") nil refl refl
