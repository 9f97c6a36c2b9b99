-- ===== src/Threads/Examples.antt =====
-- Conversations, their ids and searches.
use jmap_bridge.Base.{
  ◌≡◌, refl, String, true, false, none, some, [], ◌∷◌, ◌==◌, string_eq, All, arith, if◌then◌else◌,
}
use jmap_bridge.Base.Int.{ℤ, pos}
use jmap_bridge.Base.Text.{holds}
use jmap_bridge.Errors.{ok}
use jmap_bridge.Effects.{pure}
use jmap_bridge.Effects.Keeps.{Returns}
use jmap_bridge.Encoding.{Bytes, Libraries, padding, rstrip_padding}
use jmap_bridge.Requests.Sample.{request, ctx_of}
use jmap_bridge.Emails.Filter.{Criteria}
use jmap_bridge.Emails.Filter.Server.{Message, search}
use jmap_bridge.Threads.{
  ThreadHeaders, root_of, in_headers, parse_message_ids, scan_ids, derive_thread_id,
  decode_thread_id, location_of, fallback_of,
}
use jmap_bridge.Threads.Ids.{IsCarried, decode-derive_thread_id, IsInt, location_of-fallback_of}
use jmap_bridge.Threads.Criteria.{build_or_criteria, mentions, build_or_criteria-search}
use jmap_bridge.Threads.Get.{ThreadServer, ThreadGetArgs, thread_get}
use jmap_bridge.Threads.Get.Members.{IsMember}
use jmap_bridge.Threads.Get.Found.{IsHonest, thread_get-AreMembers}

-- A reply: the first of its references is the root.
abbrev reply : ThreadHeaders
reply = record {
  references = some "<a@x> <b@x>";
  in_reply_to = some "<b@x>";
  message_id = some "<c@x>";
}

reply_root : root_of reply ≡ some "<a@x>"
unfolding root_of parse_message_ids scan_ids
reply_root = refl

-- Libraries that know the text `<a@x>`, whose base64 is `PGFAeD4=`.
abbrev libraries : Libraries
libraries = record {
  b64encode = λ raw. "PGFAeD4=";
  b64decode = λ text. some (60 ∷ []);
  utf8 = λ text. 60 ∷ [];
  utf8_decode = λ raw. some "<a@x>";
  dumps = λ v. [];
  loads = λ raw. none;
  int_of_text = λ s. none;
}

root-IsCarried : IsCarried libraries "<a@x>"
unfolding padding rstrip_padding
root-IsCarried = record {
  is_readable = record {
    is_padded = record {
      body = "PGFAeD4";
      count = 1;
      split = refl;
      clean = refl;
      at_most_two = omega arith;
      whole = refl;
    };
    b64_inverse = refl;
    utf8_inverse = refl;
  };
  nonempty = refl;
}

decode-derive_thread_id_example :
    decode_thread_id libraries (derive_thread_id libraries reply "A:1:5")
    ≡ some (in_headers "<a@x>")
unfolding root_of parse_message_ids scan_ids
decode-derive_thread_id_example = decode-derive_thread_id libraries reply "A:1:5" root-IsCarried

-- A message that only mentions the root in its In-Reply-To.
abbrev message : Message
message = record {
  flag = λ f. false;
  keyword = λ k. false;
  holds = λ field text. false;
  header = λ name text. name == "In-Reply-To";
  before = λ d. false;
  since = λ d. false;
}

build_or_criteria-search_example :
    (criteria : Criteria) × (build_or_criteria ("<z@x>" ∷ "<a@x>" ∷ []) ≡ ok criteria)
    × (search message criteria ≡ some (mentions message ("<z@x>" ∷ "<a@x>" ∷ [])))
build_or_criteria-search_example = build_or_criteria-search message "<z@x>" ("<a@x>" ∷ [])

abbrev threads : ThreadServer (Unit {0})
threads = record {
  search = λ criteria. pure (pos 5 ∷ []);
  fetch_headers = λ uids. pure ((pos 5, some (1 ∷ [])) ∷ []);
}

-- Every message has the header block `1`.
abbrev Stored : String → ℤ → ℤ → Bytes → Type 0
Stored mailbox uidvalidity uid raw = raw ≡ 1 ∷ []

threads-IsHonest : IsHonest request threads Stored (λ mailbox uidvalidity s. uidvalidity ≡ pos 1)
threads-IsHonest = record {
  selects = λ name s. record { post = refl };
  searches = λ criteria name uidvalidity s here. record { post = here };
  fetches = λ uids name uidvalidity s here. record { post = (refl, tt) };
}

abbrev get_args : ThreadGetArgs
get_args = record { account_id = none; ids = some ("THAQ" ∷ "gone" ∷ []) }

thread_get-AreMembers_example :
    Returns
      (λ r _.
        All
          (λ (id, emails). All (IsMember request threads (λ raw. reply) Stored id) emails)
          r.threads)
      (thread_get request threads (λ raw. reply) get_args (ctx_of tt))
thread_get-AreMembers_example =
    thread_get-AreMembers request threads (λ raw. reply) Stored
      (λ mailbox uidvalidity s. uidvalidity ≡ pos 1) threads-IsHonest get_args (ctx_of tt)

-- Libraries that know the number 5.
abbrev show_five : ℤ → String
show_five n = "5"

abbrev libraries_five : Libraries
libraries_five = record libraries { int_of_text = λ s. if s == "5" then some (pos 5) else none }

five-IsInt : IsInt libraries_five show_five (pos 5) (pos 5)
unfolding string_eq
five-IsInt = record {
  reads_uidvalidity = refl;
  reads_uid = refl;
  digits = refl;
  refuses = λ text h. elim (string_eq.dec text "5") [
    | yes p ↦ absurd (let impossible : holds b':' "5" ≡ true = rw p at h in cc)
    | no p ↦ ground arith
  ];
}

location_of-fallback_of_example :
    location_of libraries_five (fallback_of show_five "a:b" (pos 5) (pos 5)) ≡ none
location_of-fallback_of_example =
    location_of-fallback_of libraries_five show_five (pos 5) (pos 5) five-IsInt "a:b"
