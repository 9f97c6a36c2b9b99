-- ===== src/Emails/Filter/Keywords.antt =====
-- What a server makes of the search term of a keyword.
use jmap_bridge.Base.{
  ℕ, zero, suc, Option-cases, ◌≡◌, ◌≢◌, refl, ◌∙◌, String, Bool, true, false, not, Option, none,
  some, [], ◌∷◌, if◌then◌else◌, string_eq, inl, inr,
}
use jmap_bridge.Base.Dict
use jmap_bridge.Base.Dict.{Dict, get-ne, get-nil}
use jmap_bridge.Emails.Filter.{
  Criteria, tokens, flag_of, keyword_search_term, standard_search_flags, keyword_to_flag,
}
use jmap_bridge.Emails.Filter.Server.{Message, read, read_pending, read_key, complete}
use jmap_bridge.Emails.Filter.Pieces.{Adds}

-- The flag of the message that a keyword of JMAP stands for.
abbrev pub system_keywords : Dict String String
system_keywords =
    ("$seen", "SEEN")
    ∷ ("$flagged", "FLAGGED")
    ∷ ("$answered", "ANSWERED")
    ∷ ("$draft", "DRAFT")
    ∷ standard_search_flags

unfoldable pub has_keyword : Message → String → Bool
has_keyword m keyword = elim (Dict.get keyword system_keywords) [
  | none ↦ m.keyword keyword
  | some key ↦ m.flag key
]

abbrev drop_entries : ℕ → Dict String String → Dict String String
drop_entries zero d = d
drop_entries (suc n) [] = []
drop_entries (suc n) (e ∷ d) = drop_entries n d

module _ (m : Message) where
  -- A flag by its IMAP name.
  unfoldable has_flag_named : String → Bool
  has_flag_named flag = elim (Dict.get flag standard_search_flags) [
    | none ↦ m.keyword flag
    | some key ↦ m.flag key
  ]

  -- A keyword that is none of the four is looked up among the rest.
  skip_four :
      (k a b c d : String) (rest : Dict String String)
      → k ≢ "$seen"
      → k ≢ "$flagged"
      → k ≢ "$answered"
      → k ≢ "$draft"
      → Dict.get k (("$seen", a) ∷ ("$flagged", b) ∷ ("$answered", c) ∷ ("$draft", d) ∷ rest)
        ≡ Dict.get k rest
  skip_four k a b c d rest n₁ n₂ n₃ n₄ =
      get-ne k "$seen" a (("$flagged", b) ∷ ("$answered", c) ∷ ("$draft", d) ∷ rest) n₁
      ∙ get-ne k "$flagged" b (("$answered", c) ∷ ("$draft", d) ∷ rest) n₂
      ∙ get-ne k "$answered" c (("$draft", d) ∷ rest) n₃
      ∙ get-ne k "$draft" d rest n₄

  other_keyword :
      (k : String)
      → k ≢ "$seen"
      → k ≢ "$flagged"
      → k ≢ "$answered"
      → k ≢ "$draft"
      → has_keyword m k ≡ has_flag_named (flag_of k)
  unfolding has_keyword has_flag_named flag_of
  other_keyword k n₁ n₂ n₃ n₄ =
      let same : Dict.get k system_keywords ≡ Dict.get k standard_search_flags =
        skip_four k "SEEN" "FLAGGED" "ANSWERED" "DRAFT" standard_search_flags n₁ n₂ n₃ n₄ in
      let gone : Dict.get k keyword_to_flag ≡ none =
        skip_four k "\\Seen" "\\Flagged" "\\Answered" "\\Draft" [] n₁ n₂ n₃ n₄ ∙ get-nil k in
      let own : flag_of k ≡ k = rw (flag_of, gone) refl in
      rw own (rw (has_keyword, has_flag_named, same) refl)

  has_keyword_lem : (k : String) → has_keyword m k ≡ has_flag_named (flag_of k)
  unfolding has_keyword has_flag_named flag_of Dict.get string_eq
  has_keyword_lem k = elim (string_eq.dec k "$seen") [
    | yes p ↦ rw p refl
    | no n₁ ↦ elim (string_eq.dec k "$flagged") [
      | yes p ↦ rw p refl
      | no n₂ ↦ elim (string_eq.dec k "$answered") [
        | yes p ↦ rw p refl
        | no n₃ ↦ elim (string_eq.dec k "$draft") [
          | yes p ↦ rw p refl
          | no n₄ ↦ other_keyword k n₁ n₂ n₃ n₄
        ]
      ]
    ]
  ]

  -- `_keyword_search_term`, from the flag on.
  abbrev flag_term : String → Bool → Option String → Criteria
  flag_term flag negate none =
      if negate then tokens ("UNKEYWORD" ∷ flag ∷ []) else tokens ("KEYWORD" ∷ flag ∷ [])
  flag_term flag negate (some standard) =
      if negate then tokens ("NOT" ∷ standard ∷ []) else tokens (standard ∷ [])

  abbrev flag_value : Bool → Bool → Bool
  flag_value true b = not b
  flag_value false b = b

  FlagAdds : String → Bool → Type 0
  FlagAdds flag negate =
      Adds m (flag_term flag negate (Dict.get flag standard_search_flags))
        (flag_value negate (has_flag_named flag))

  other_flag :
      (flag : String) (negate : Bool)
      → Dict.get flag standard_search_flags ≡ none
      → FlagAdds flag negate
  unfolding FlagAdds has_flag_named read read_pending read_key complete Dict.get string_eq
  other_flag flag true gone r = rw (has_flag_named, gone) refl
  other_flag flag false gone r = rw (has_flag_named, gone) refl

  seen_flag : (negate : Bool) → FlagAdds "\\Seen" negate
  unfolding FlagAdds has_flag_named read read_pending read_key complete Dict.get string_eq
  seen_flag true r = refl
  seen_flag false r = refl

  flagged_flag : (negate : Bool) → FlagAdds "\\Flagged" negate
  unfolding FlagAdds has_flag_named read read_pending read_key complete Dict.get string_eq
  flagged_flag true r = refl
  flagged_flag false r = refl

  answered_flag : (negate : Bool) → FlagAdds "\\Answered" negate
  unfolding FlagAdds has_flag_named read read_pending read_key complete Dict.get string_eq
  answered_flag true r = refl
  answered_flag false r = refl

  draft_flag : (negate : Bool) → FlagAdds "\\Draft" negate
  unfolding FlagAdds has_flag_named read read_pending read_key complete Dict.get string_eq
  draft_flag true r = refl
  draft_flag false r = refl

  deleted_flag : (negate : Bool) → FlagAdds "\\Deleted" negate
  unfolding FlagAdds has_flag_named read read_pending read_key complete Dict.get string_eq
  deleted_flag true r = refl
  deleted_flag false r = refl

  flag_term-Adds : (flag : String) (negate : Bool) → FlagAdds flag negate
  flag_term-Adds flag negate = elim (string_eq.dec flag "\\Seen") [
    | yes p ↦ rw p (seen_flag negate)
    | no n₁ ↦ elim (string_eq.dec flag "\\Flagged") [
      | yes p ↦ rw p (flagged_flag negate)
      | no n₂ ↦ elim (string_eq.dec flag "\\Answered") [
        | yes p ↦ rw p (answered_flag negate)
        | no n₃ ↦ elim (string_eq.dec flag "\\Draft") [
          | yes p ↦ rw p (draft_flag negate)
          | no n₄ ↦ elim (string_eq.dec flag "\\Deleted") [
            | yes p ↦ rw p (deleted_flag negate)
            | no n₅ ↦ other_flag flag negate (
                get-ne flag "\\Seen" "SEEN" (drop_entries 1 standard_search_flags) n₁
                ∙ get-ne flag "\\Flagged" "FLAGGED" (drop_entries 2 standard_search_flags) n₂
                ∙ get-ne flag "\\Answered" "ANSWERED" (drop_entries 3 standard_search_flags) n₃
                ∙ get-ne flag "\\Draft" "DRAFT" (drop_entries 4 standard_search_flags) n₄
                ∙ get-ne flag "\\Deleted" "DELETED" [] n₅
                ∙ get-nil flag)
          ]
        ]
      ]
    ]
  ]

  -- The search term of a keyword finds the messages that have it, or those that do not.
  pub keyword_search_term-Adds :
      (k : String) (negate : Bool)
      → Adds m (keyword_search_term k negate) (flag_value negate (has_keyword m k))
  unfolding keyword_search_term FlagAdds
  keyword_search_term-Adds k negate =
      let t = flag_term-Adds (flag_of k) negate in
      elim (Option-cases (Dict.get (flag_of k) standard_search_flags)) [
        | inl gone ↦ rw (has_keyword_lem k) (rw (keyword_search_term, gone) (rw gone at t))
        | inr (key, here) ↦ rw (has_keyword_lem k) (rw (keyword_search_term, here) (rw here at t))
      ]
