-- ===== src/Mailboxes/Examples.antt =====
-- A server with two mailboxes, and the theorems about its requests.
use jmap_bridge.Base.{
  ◌≢◌, refl, ne_of_compare, String, Option, none, some, List, [], ◌∷◌, ◌++◌, map, ◌==◌, string_eq,
  nat_eq, if◌then◌else◌, arith,
}
use jmap_bridge.Base.Dict
use jmap_bridge.Base.Dict.{Dict, NodupKeys}
use jmap_bridge.Base.Int.{pos}
use jmap_bridge.Base.Text.{after_prefix, join}
use jmap_bridge.Errors.{err, imap_error}
use jmap_bridge.Effects.{pure, gets, modify}
use jmap_bridge.Effects.Keeps.{Returns}
use jmap_bridge.Encoding.{Bytes, Libraries, decode_name, encode_name, pad, padding, rstrip_padding}
use jmap_bridge.IdRedirect.{new_cache, resolve, follow}
use jmap_bridge.Imap.{ImapServer, ImapMailboxEntry}
use jmap_bridge.Requests.{Request, Ctx}
use jmap_bridge.Mailboxes.Mapping.{split_from, but_last}
use jmap_bridge.Mailboxes.Get.{GetArgs, mailbox_get}
use jmap_bridge.Mailboxes.Get.Partition.{IsAnswered, mailbox_get-IsAnswered}
use jmap_bridge.Mailboxes.Set.{
  SetArgs, mailbox_set, update_one, nothing_done, renamed_path, unsupported_among,
}
use jmap_bridge.Mailboxes.Set.Answered.{IsAnswering, mailbox_set-IsAnswering}
use jmap_bridge.Mailboxes.Set.Rename.{IsRename, IsRedirected, update_one-IsRedirected}

-- The names that the libraries know, with a byte for each and its base64.
abbrev code_of : Dict String Bytes
code_of = ("A", 1 ∷ []) ∷ ("A/B", 2 ∷ []) ∷ ("A/C", 3 ∷ []) ∷ []

abbrev or_nothing : Option Bytes → Bytes
or_nothing none = []
or_nothing (some raw) = raw

abbrev base64 : Bytes → String
base64 [] = ""
base64 (n ∷ _) = if n == 1 then "AQ==" else if n == 2 then "Ag==" else "Aw=="

abbrev unbase64 : Dict String Bytes
unbase64 = ("AQ==", 1 ∷ []) ∷ ("Ag==", 2 ∷ []) ∷ ("Aw==", 3 ∷ []) ∷ []

abbrev name_of : Bytes → Option String
name_of [] = none
name_of (n ∷ _) =
    if n == 1 then some "A" else if n == 2 then some "A/B" else if n == 3 then some "A/C" else none

abbrev libraries : Libraries
libraries = record {
  b64encode = base64;
  b64decode = λ text. Dict.get text unbase64;
  utf8 = λ text. or_nothing (Dict.get text code_of);
  utf8_decode = name_of;
  dumps = λ v. [];
  loads = λ raw. none;
  int_of_text = λ s. none;
}

abbrev folder : String → ImapMailboxEntry
folder name = record { flags = []; delimiter = "/"; name = name }

abbrev folders : List ImapMailboxEntry
folders = folder "A" ∷ folder "A/B" ∷ []

abbrev renamed_folder : String → String → ImapMailboxEntry → ImapMailboxEntry
renamed_folder old new e = if e.name == old then folder new else e

-- The server's state is the list of its mailboxes.
abbrev imap : ImapServer (List ImapMailboxEntry)
imap = record {
  connect = pure tt;
  list_mailboxes = gets (λ s. s);
  select = λ name. pure (record {
    uidvalidity = pos 1;
    uidnext = pos 5;
    highestmodseq = some (pos 9);
    exists = pos 3;
    unseen = pos 0;
  });
  search_unseen = pure (pos 4 ∷ []);
  create_folder = λ name. modify (λ s. s ++ (folder name ∷ []));
  rename_folder = λ old new. modify (map (renamed_folder old new));
  delete_folder = λ name s. (err (imap_error "NO"), s);
}

abbrev request : Request (List ImapMailboxEntry)
request = record {
  imap = imap;
  lib = libraries;
  account_id = "Aalice";
  redirect_key = ("example.com", "alice");
  pool_max = 4;
  upper = λ s. s;
  repr = λ s. s;
  repr_list = join ", ";
  show = λ n. "";
  describe = λ r. "";
  enumerate_set = λ names. names;
}

abbrev ctx : Ctx (List ImapMailboxEntry)
ctx = record { server = folders; redirects = new_cache 10; mail_sweep = none }

abbrev get_args : GetArgs
get_args = record {
  account_id = none;
  ids = some ("MAg" ∷ "Mgone" ∷ []);
  properties = some ("name" ∷ []);
}

abbrev set_args : SetArgs
set_args = record {
  account_id = none;
  create = ("c1", record { name = some "C"; parent_id = some "MAQ" }) ∷ [];
  update = ("MAg", record { given = "name" ∷ []; name = some "C" }) ∷ [];
  destroy = "MAQ" ∷ [];
}

mailbox_get-IsAnswered_example :
    Returns (IsAnswered request get_args ctx) (mailbox_get request get_args ctx)
mailbox_get-IsAnswered_example = mailbox_get-IsAnswered request get_args ctx

mailbox_set-IsAnswering_example :
    Returns (λ r _. IsAnswering set_args r) (mailbox_set request set_args ctx)
unfolding Dict.get
mailbox_set-IsAnswering_example = mailbox_set-IsAnswering request set_args ctx (refl, tt) (refl, tt)

is_rename :
    IsRename request "/" [] "MAg" (record { given = "name" ∷ []; name = some "C" }) ctx "A/C"
unfolding decode_name pad padding resolve follow unsupported_among renamed_path split_from but_last
    join Dict.get string_eq nat_eq after_prefix
is_rename = record {
  old_name = "A/B";
  display_name = "C";
  server = folder "A" ∷ folder "A/C" ∷ [];
  is_decoded = refl;
  is_supported = refl;
  is_named = refl;
  is_renamed = refl;
  is_done = refl;
}

new_id_differs : ◌≢◌ {A = String} "MAg" (encode_name libraries "M" "A/C")
unfolding encode_name rstrip_padding Dict.get string_eq nat_eq
new_id_differs = ne_of_compare "MAg" "MAw" refl

update_one-IsRedirected_example : IsRedirected request nothing_done "MAg" "A/C" (
    update_one request "/" [] nothing_done
      ("MAg", record { given = "name" ∷ []; name = some "C" })
      ctx)
unfolding Dict.get
update_one-IsRedirected_example =
    update_one-IsRedirected request "/" [] nothing_done "MAg"
      (record { given = "name" ∷ []; name = some "C" }) ctx "A/C" is_rename
      (record { nodup = λ k. tt; bounded = λ k. omega arith }) (omega arith) new_id_differs refl
