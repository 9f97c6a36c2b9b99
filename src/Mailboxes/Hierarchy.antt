-- ===== src/Mailboxes/Hierarchy.antt =====
-- What the mapping of a LIST response says about the hierarchy of mailboxes.
use jmap_bridge.Base.{
  ℕ, ◌≡◌, refl, sym, ap, ◌∙◌, String, ◌<>◌, true, false, Option, none, some, some-injective, List,
  [], ◌∷◌, arith, contains, string_eq, inl, inr, Bool-cases,
}
use jmap_bridge.Base.Text.{is_empty, join}
use jmap_bridge.Encoding.{Libraries, encode_mailbox_id}
use jmap_bridge.Imap.{ImapMailboxEntry}
use jmap_bridge.Mailboxes.Mapping.{
  split_text, last_piece, segments_of, parent_of, parent_id_of, to_mailbox,
}
use jmap_bridge.Mailboxes.Split.{join-split_from, but_last-last_piece}

-- The name of the parent, and the id that is given for it.
pub record IsChild (lib : Libraries) (by_name : List String) (e : ImapMailboxEntry)
    (display_name parent_id : String) : Type 0 where
  pub parent_name : String
  pub is_listed : contains by_name parent_name ≡ true
  pub is_id : parent_id ≡ encode_mailbox_id lib parent_name
  pub is_path : e.name ≡ parent_name <> (e.delimiter <> display_name)

-- A parent's name, the delimiter and the last segment are the name.
parent_path :
    (delimiter name : String) (segments : List String) (parent : String)
    → join delimiter segments ≡ name
    → parent_of delimiter segments ≡ some parent
    → name ≡ parent <> (delimiter <> last_piece segments)
parent_path delimiter name [] parent h p = absurd (ground arith)
parent_path delimiter name (q ∷ []) parent h p = absurd (ground arith)
parent_path delimiter name (q ∷ r ∷ rest) parent h p =
    sym h
    ∙ sym (but_last-last_piece delimiter q (r ∷ rest) tt)
    ∙ ap (λ t. t <> (delimiter <> last_piece (q ∷ r ∷ rest))) (some-injective _ _ p)

pub split_path :
    (delimiter name parent : String)
    → is_empty delimiter ≡ false
    → parent_of delimiter (split_text delimiter name) ≡ some parent
    → name ≡ parent <> (delimiter <> last_piece (split_text delimiter name))
split_path String.[] name parent h p = absurd (ground arith)
split_path (String.◌∷◌ d ds) name parent h p =
    parent_path (String.◌∷◌ d ds) name (split_text (String.◌∷◌ d ds) name) parent
      (join-split_from d ds ℕ.zero name) p

segments_path :
    (e : ImapMailboxEntry) (parent : String)
    → parent_of e.delimiter (segments_of e) ≡ some parent
    → e.name ≡ parent <> (e.delimiter <> last_piece (segments_of e))
segments_path e parent p = elim (Bool-cases (is_empty e.delimiter)) [
  | inl b ↦ absurd (no_parent e parent b p)
  | inr b ↦ rw b (split_path e.delimiter e.name parent b (rw b at p))
]
  where
    no_parent :
        (e : ImapMailboxEntry) (parent : String)
        → is_empty e.delimiter ≡ true
        → parent_of e.delimiter (segments_of e) ≡ some parent
        → ⊥
    no_parent e parent b p = ground (arith, rw b at p)

parent_listed :
    (lib : Libraries) (by_name : List String) (parent : Option String) (id : String)
    → parent_id_of lib by_name parent ≡ some id
    → (name : String) × (parent ≡ some name)
      × (contains by_name name ≡ true)
      × (id ≡ encode_mailbox_id lib name)
parent_listed lib by_name none id h = absurd (ground arith)
parent_listed lib by_name (some name) id h = elim (Bool-cases (is_empty name)) [
  | inl b ↦ absurd (ground arith)
  | inr b ↦ elim (Bool-cases (contains by_name name)) [
    | inl c ↦ (name, refl, c, some-injective id (encode_mailbox_id lib name) (ground arith))
    | inr c ↦ absurd (ground arith)
  ]
]

-- A mailbox that is given a parent has a name that is the parent's name, the delimiter and its own
-- display name; the parent is listed, and the id given is the parent's.
pub to_mailbox-IsChild :
    (lib : Libraries) (upper : String → String) (by_name : List String) (e : ImapMailboxEntry)
    (id : String)
    → (to_mailbox lib upper by_name e).parent_id ≡ some id
    → IsChild lib by_name e (to_mailbox lib upper by_name e).name id
unfolding to_mailbox
to_mailbox-IsChild lib upper by_name e id h =
    let (name, p, listed, is_id) =
      parent_listed lib by_name (parent_of e.delimiter (segments_of e)) id h in
    record {
      parent_name = name;
      is_listed = listed;
      is_id = is_id;
      is_path = segments_path e name p;
    }
