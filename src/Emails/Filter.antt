-- ===== src/Emails/Filter.antt =====
-- types/email.py: the filter of `Email/query`, and the IMAP search criteria that it is made into.
pub mod Server
pub mod Pieces
pub mod Keywords
pub mod Conditions
pub mod Meaning
pub mod Scope
pub mod Translated
use Prim.Native.String
use jmap_bridge.Base.{
  ℕ, String, ◌<>◌, Bool, true, false, ◌||◌, Option, none, some, List, [], ◌∷◌, map, if◌then◌else◌,
  contains, string_eq, ◌==◌,
}
use jmap_bridge.Base.Dict
use jmap_bridge.Base.Dict.{Dict}
use jmap_bridge.Base.Text.{is_char, is_empty}
use jmap_bridge.Errors.{Result, ok, err, raised, invalid_arguments, unsupported_filter}

mutual
  -- IMAP search criteria: a list of texts and of lists.
  pub data Criteria : Type 0 where
    nil : Criteria
    cons : Criterion → Criteria → Criteria

  pub data Criterion : Type 0 where
    token : String → Criterion
    group : Criteria → Criterion

abbrev pub append : Criteria → Criteria → Criteria
append nil ys = ys
append (cons x xs) ys = cons x (append xs ys)

abbrev pub tokens : List String → Criteria
tokens [] = nil
tokens (t ∷ ts) = cons (token t) (tokens ts)

-- A FilterCondition by its known keys; `others` is the sorted list of its other keys.
pub record Condition : Type 0 where
  pub in_mailbox : Option String
  pub has_keyword : Option String
  pub not_keyword : Option String
  pub subject : Option String
  pub text : Option String
  pub body : Option String
  pub sender : Option String
  pub to : Option String
  pub cc : Option String
  pub bcc : Option String
  pub header : List String
  pub before : Option String
  pub after : Option String
  pub others : List String

mutual
  pub data Filter : Type 0 where
    condition : Condition → Filter
    operation : Option String → Filters → Filter

  pub data Filters : Type 0 where
    none_left : Filters
    next : Filter → Filters → Filters

-- email_map.py
abbrev pub keyword_to_flag : Dict String String
keyword_to_flag =
    ("$seen", "\\Seen")
    ∷ ("$flagged", "\\Flagged")
    ∷ ("$answered", "\\Answered")
    ∷ ("$draft", "\\Draft")
    ∷ []

abbrev pub standard_search_flags : Dict String String
standard_search_flags =
    ("\\Seen", "SEEN")
    ∷ ("\\Flagged", "FLAGGED")
    ∷ ("\\Answered", "ANSWERED")
    ∷ ("\\Draft", "DRAFT")
    ∷ ("\\Deleted", "DELETED")
    ∷ []

-- `keywords_to_flags({keyword: True})[0]`
unfoldable pub flag_of : String → String
flag_of keyword = elim (Dict.get keyword keyword_to_flag) [ none ↦ keyword | some flag ↦ flag ]

unfoldable pub keyword_search_term : String → Bool → Criteria
unfolding flag_of
keyword_search_term keyword negate = elim (Dict.get (flag_of keyword) standard_search_flags) [
  | some standard ↦ if negate then tokens ("NOT" ∷ standard ∷ []) else tokens (standard ∷ [])
  | none ↦
      if negate
      then tokens ("UNKEYWORD" ∷ flag_of keyword ∷ [])
      else tokens ("KEYWORD" ∷ flag_of keyword ∷ [])
]

-- `word[:-1] if word.endswith("*") else word`
unfoldable pub without_star : String → String
without_star String.[] = String.[]
without_star (String.◌∷◌ c s) =
    let rest = without_star s in
    if is_char b'*' c
    then (if is_empty s then String.[] else String.◌∷◌ c rest)
    else String.◌∷◌ c rest

-- The calls of Python: `str.split()`, and the `fromisoformat` and `strftime` of `_imap_search_date`,
-- where `none` is a `ValueError`. `repr` and `repr_list` are those of a text and of a list of texts.
pub record Texts : Type 0 where
  pub split : String → List String
  pub search_date : String → Option String
  pub repr : String → String
  pub repr_list : List String → String

-- `[field, word]` for each word.
unfoldable pub word_terms : String → List String → Criteria
unfolding without_star
word_terms field [] = nil
word_terms field (w ∷ words) =
    append (tokens (field ∷ without_star w ∷ [])) (word_terms field words)

abbrev pub concat : Result Criteria → Result Criteria → Result Criteria
concat (err e) _ = err e
concat (ok xs) (err e) = err e
concat (ok xs) (ok ys) = ok (append xs ys)

module _ (py : Texts) where
  unfoldable pub search_terms : String → String → Criteria
  unfolding word_terms
  search_terms field value = word_terms field (py.split value)

  -- `if cond.get(key): criteria.extend(_search_terms(field, cond[key]))`
  abbrev pub text_terms : String → Option String → Criteria
  text_terms field none = nil
  text_terms field (some value) = if is_empty value then nil else search_terms field value

  abbrev pub keyword_terms : Bool → Option String → Criteria
  keyword_terms negate none = nil
  keyword_terms negate (some keyword) = keyword_search_term keyword negate

  abbrev pub header_terms : List String → Criteria
  header_terms [] = nil
  header_terms (name ∷ []) = tokens ("HEADER" ∷ name ∷ "" ∷ [])
  header_terms (name ∷ value ∷ _) = tokens ("HEADER" ∷ name ∷ value ∷ [])

  -- `[key, _imap_search_date(value, field)]`
  abbrev pub dated : String → String → String → Option String → Result Criteria
  dated key field value none =
      err (raised (invalid_arguments ("invalid " <> field <> " date: " <> py.repr value) []))
  dated key field value (some date) = ok (tokens (key ∷ date ∷ []))

  abbrev pub date_terms : String → String → Option String → Result Criteria
  date_terms key field none = ok nil
  date_terms key field (some value) =
      if is_empty value then ok nil else dated key field value (py.search_date value)

  -- The criteria of a condition but for the dates.
  abbrev pub plain_terms : Condition → Criteria
  plain_terms c = append (keyword_terms false c.has_keyword) (
      append (keyword_terms true c.not_keyword) (
        append (text_terms "SUBJECT" c.subject) (
          append (text_terms "TEXT" c.text) (
            append (text_terms "BODY" c.body) (
              append (text_terms "FROM" c.sender) (
                append (text_terms "TO" c.to) (
                  append (text_terms "CC" c.cc)
                    (append (text_terms "BCC" c.bcc) (header_terms c.header)))))))))

  abbrev pub supported_condition : Condition → List String → Result Criteria
  supported_condition c [] =
      concat (ok (plain_terms c))
        (concat (date_terms "BEFORE" "before" c.before) (date_terms "SINCE" "after" c.after))
  supported_condition c (o ∷ os) =
      err (raised (unsupported_filter ("unsupported filter properties: " <> py.repr_list (o ∷ os))))

  unfoldable pub translate_condition : Condition → Result Criteria
  unfolding search_terms keyword_search_term
  translate_condition c = supported_condition c c.others

-- `if filter_.get("inMailbox")`
abbrev pub given : Option String → Option String
given none = none
given (some s) = if is_empty s then none else some s

abbrev pub or_else : Option String → Option String → Option String
or_else none second = second
or_else (some s) second = some s

abbrev pub is_and : Option String → Bool
is_and none = false
is_and (some s) = s == "AND"

-- `inMailbox` is a key of conditions: an operator has none of its own.
unfoldable mutual
  pub find_in_mailbox : Filter → Option String
  find_in_mailbox (condition c) = given c.in_mailbox
  find_in_mailbox (operation op fs) =
      let found = find_in_conditions fs in if is_and op then found else none

  pub find_in_conditions : Filters → Option String
  find_in_conditions none_left = none
  find_in_conditions (next f fs) = or_else (find_in_mailbox f) (find_in_conditions fs)

abbrev pub is_given : Option String → Bool
is_given none = false
is_given (some s) = true

unfoldable mutual
  pub has_any_in_mailbox : Filter → Bool
  has_any_in_mailbox (condition c) = is_given (given c.in_mailbox)
  has_any_in_mailbox (operation op fs) = has_any_among fs

  pub has_any_among : Filters → Bool
  has_any_among none_left = false
  has_any_among (next f fs) = has_any_in_mailbox f || has_any_among fs

abbrev pub scope_text : String
scope_text =
    "inMailbox must be in the condition itself, or inside a top-level AND - using it inside an OR/NOT is not supported (IMAP SEARCH can't scope to a mailbox per-branch in one command)"

abbrev pub scope_if : Bool → Result (Option String)
scope_if true = err (raised (invalid_arguments scope_text []))
scope_if false = ok none

-- The mailbox that `Email/query` selects, where the filter names one. `decode` is
-- `decode_mailbox_id`, whose text is not kept in the error.
unfoldable pub query_scope : (String → Option String) → Filter → Result (Option String)
unfolding find_in_mailbox has_any_in_mailbox
query_scope decode f = elim (find_in_mailbox f) [
  | none ↦ scope_if (has_any_in_mailbox f)
  | some id ↦ elim (decode id) [
    | none ↦ err (raised (invalid_arguments "invalid inMailbox id" []))
    | some name ↦ ok (some name)
  ]
]

-- The groups of a filter operator; an empty group is left out.
abbrev pub cons_group : Criteria → List Criteria → List Criteria
cons_group nil groups = groups
cons_group (cons x xs) groups = cons x xs ∷ groups

abbrev pub add_group : Result Criteria → Result (List Criteria) → Result (List Criteria)
add_group (err e) _ = err e
add_group (ok g) (err e) = err e
add_group (ok g) (ok groups) = ok (cons_group g groups)

unfoldable pub and_groups : List Criteria → Criteria
and_groups [] = nil
and_groups (g ∷ groups) = append g (and_groups groups)

unfoldable pub not_groups : List Criteria → Criteria
not_groups [] = nil
not_groups (g ∷ groups) = cons (token "NOT") (cons (group g) (not_groups groups))

-- The right fold of the binary OR.
unfoldable pub or_groups : List Criteria → Criteria
or_groups [] = nil
or_groups (g ∷ []) = g
or_groups (g ∷ h ∷ groups) =
    cons (token "OR") (cons (group g) (cons (group (or_groups (h ∷ groups))) nil))

pub data Operator : Type 0 where
  all_of : Operator
  any_of : Operator
  none_of : Operator

abbrev pub operator_of : Option String → Option Operator
operator_of none = none
operator_of (some s) =
    if s == "AND"
    then some all_of
    else if s == "OR"
    then some any_of
    else if s == "NOT"
    then some none_of
    else none

abbrev pub combine : Operator → List Criteria → Criteria
combine all_of groups = and_groups groups
combine any_of groups = or_groups groups
combine none_of groups = not_groups groups

abbrev pub combine_all : Operator → Result (List Criteria) → Result Criteria
combine_all op (err e) = err e
combine_all op (ok groups) = ok (combine op groups)

module _ (py : Texts) where
  abbrev pub repr_operator : Option String → String
  repr_operator none = "None"
  repr_operator (some s) = py.repr s

  -- `_translate_operator`, given the groups of the conditions.
  abbrev pub translate_operator :
      Option String → Option Operator → Filters → Result (List Criteria) → Result Criteria
  translate_operator given none conditions groups =
      err (raised (unsupported_filter ("unsupported filter operator: " <> repr_operator given)))
  translate_operator given (some op) none_left groups =
      err (raised (invalid_arguments "filter operator requires at least one condition" []))
  translate_operator given (some op) (next f fs) groups = combine_all op groups

  unfoldable mutual
    unfolding translate_condition and_groups or_groups not_groups

    pub translate_filter : Filter → Result Criteria
    translate_filter (condition c) = translate_condition py c
    translate_filter (operation given conditions) =
        translate_operator given (operator_of given) conditions (translate_all conditions)

    pub translate_all : Filters → Result (List Criteria)
    translate_all none_left = ok []
    translate_all (next f fs) = add_group (translate_filter f) (translate_all fs)

  abbrev pub or_all : Result Criteria → Result Criteria
  or_all (err e) = err e
  or_all (ok nil) = ok (tokens ("ALL" ∷ []))
  or_all (ok (cons x xs)) = ok (cons x xs)

  unfoldable pub build_search_criteria : Filter → Result Criteria
  unfolding translate_filter
  build_search_criteria f = or_all (translate_filter f)
