-- ===== src/Emails/Filter/Server.antt =====
-- What an IMAP server makes of search criteria (RFC 3501, 6.4.4): a list of keys is their
-- conjunction, and NOT and OR take one key and two, a list in parentheses being one. A message is
-- described by the answers to the questions of a search.
use jmap_bridge.Base.{
  String, Bool, true, false, ◌&&◌, ◌||◌, not, Option, none, some, List, [], ◌∷◌, if◌then◌else◌,
  ◌==◌, contains, string_eq,
}
use jmap_bridge.Base.Dict
use jmap_bridge.Base.Dict.{Dict}
use jmap_bridge.Emails.Filter.{Criteria, nil, cons, Criterion, token, group}

-- `holds field text` is the substring test of one of the text keys, `header` that of HEADER, and
-- the dates are those of BEFORE and SINCE. `flag` is a system flag by its search key, and `keyword`
-- any other.
pub record Message : Type 0 where
  pub flag : String → Bool
  pub keyword : String → Bool
  pub holds : String → String → Bool
  pub header : String → String → Bool
  pub before : String → Bool
  pub since : String → Bool

-- A key that is not complete: what the next texts are read as.
pub data Pending : Type 0 where
  negation : Pending
  first_of_two : Pending
  second_of_two : Bool → Pending
  has_flag : Bool → Pending
  in_field : String → Pending
  header_name : Pending
  header_value : String → Pending
  before_date : Pending
  since_date : Pending

-- What the keys so far have given, and the keys that are not complete, the innermost first.
pub record Search : Type 0 where
  pub result : Bool
  pub pending : List Pending

abbrev pub search_start : Search
search_start = record { result = true; pending = [] }

-- A key is complete, with its value; `none` is a syntax error.
unfoldable pub complete : Bool → Bool → List Pending → Option Search
complete b result [] = some (record { result = result && b; pending = [] })
complete b result (negation ∷ ps) = complete (not b) result ps
complete b result (first_of_two ∷ ps) =
    some (record { result = result; pending = second_of_two b ∷ ps })
complete b result (second_of_two a ∷ ps) = complete (a || b) result ps
complete b result (_ ∷ ps) = none

abbrev pub finish_key : Bool → Search → Option Search
finish_key b s = complete b s.result s.pending

abbrev pub wait : Pending → Search → Option Search
wait p s = some (record s { pending = p ∷ s.pending })

-- The keys without arguments that test a flag, and those that test a text field.
abbrev pub flag_keys : List String
flag_keys = "SEEN" ∷ "FLAGGED" ∷ "ANSWERED" ∷ "DRAFT" ∷ "DELETED" ∷ []

abbrev pub operators : Dict String Pending
operators =
    ("NOT", negation)
    ∷ ("OR", first_of_two)
    ∷ ("KEYWORD", has_flag true)
    ∷ ("UNKEYWORD", has_flag false)
    ∷ ("SUBJECT", in_field "SUBJECT")
    ∷ ("TEXT", in_field "TEXT")
    ∷ ("BODY", in_field "BODY")
    ∷ ("FROM", in_field "FROM")
    ∷ ("TO", in_field "TO")
    ∷ ("CC", in_field "CC")
    ∷ ("BCC", in_field "BCC")
    ∷ ("HEADER", header_name)
    ∷ ("BEFORE", before_date)
    ∷ ("SINCE", since_date)
    ∷ []

-- The list in parentheses is complete where nothing is pending.
abbrev pub closed : Search → Bool → List Pending → Option Search
closed s b [] = finish_key b s
closed s b (p ∷ ps) = none

abbrev pub close : Search → Option Search → Option Search
close s none = none
close s (some inner) = closed s inner.result inner.pending

abbrev pub and_then : Option Search → (Search → Option Search) → Option Search
and_then none next = none
and_then (some s) next = next s

-- Whether the message is found; `none` is a syntax error.
abbrev pub found_if : Bool → List Pending → Option Bool
found_if b [] = some b
found_if b (p ∷ ps) = none

abbrev pub found : Option Search → Option Bool
found none = none
found (some s) = found_if s.result s.pending

module _ (m : Message) where
  -- A text where a key is expected.
  unfoldable pub read_key : String → Search → Option Search
  unfolding complete
  read_key t s =
      if t == "ALL"
      then finish_key true s
      else if contains flag_keys t
      then finish_key (m.flag t) s
      else (elim (Dict.get t operators) [ none ↦ none | some p ↦ wait p s ])

  -- A text, by what is pending.
  unfoldable pub read_pending : String → Bool → List Pending → Option Search
  unfolding complete read_key
  read_pending t result (has_flag true ∷ ps) = complete (m.keyword t) result ps
  read_pending t result (has_flag false ∷ ps) = complete (not (m.keyword t)) result ps
  read_pending t result (in_field field ∷ ps) = complete (m.holds field t) result ps
  read_pending t result (header_name ∷ ps) =
      some (record { result = result; pending = header_value t ∷ ps })
  read_pending t result (header_value name ∷ ps) = complete (m.header name t) result ps
  read_pending t result (before_date ∷ ps) = complete (m.before t) result ps
  read_pending t result (since_date ∷ ps) = complete (m.since t) result ps
  read_pending t result ps = read_key t (record { result = result; pending = ps })

  unfoldable mutual
    unfolding read_pending complete

    pub read : Criteria → Search → Option Search
    read nil s = some s
    read (cons c cs) s = and_then (read_one c s) (read cs)

    pub read_one : Criterion → Search → Option Search
    read_one (token t) s = read_pending t s.result s.pending
    read_one (group g) s = close s (read g search_start)

  unfoldable pub search : Criteria → Option Bool
  unfolding read
  search criteria = found (read criteria search_start)
