-- ===== src/Requests/Sample.antt =====
-- A request to a server with the mailboxes `A` and `B` for the tests, and libraries that know them.
use jmap_bridge.Base.{ℕ, String, none, some, [], ◌∷◌, ◌==◌, string_eq, nat_eq, if◌then◌else◌}
use jmap_bridge.Base.Int.{pos}
use jmap_bridge.Json.{Value, str, arr, cons}
use jmap_bridge.Effects.{pure}
use jmap_bridge.Encoding.{Bytes, Libraries}
use jmap_bridge.IdRedirect.{new_cache}
use jmap_bridge.Imap.{ImapServer}
use jmap_bridge.Requests.{Request, Ctx}
use jmap_bridge.Emails.Ids.{email_id_value}

-- The byte of a name, and its base64.
abbrev pub code_of : String → Bytes
code_of name = if name == "A" then 1 ∷ [] else 2 ∷ []

abbrev pub name_value : Value → String
name_value (arr (cons (str name) rest)) = name
name_value v = ""

abbrev pub base64 : Bytes → String
base64 [] = ""
base64 (n ∷ _) = if n == 1 then "AQ==" else "Ag=="

abbrev pub first_or : ℕ → Bytes → ℕ
first_or d [] = d
first_or d (n ∷ _) = n

abbrev pub libraries : Libraries
libraries = record {
  b64encode = base64;
  b64decode = λ text. some (if text == "AQ==" then 1 ∷ [] else 2 ∷ []);
  utf8 = code_of;
  utf8_decode = λ raw. some (if first_or 0 raw == 1 then "A" else "B");
  dumps = λ v. code_of (name_value v);
  loads = λ raw. some (
      if first_or 0 raw == 1
      then email_id_value "A" (pos 1) (pos 5)
      else email_id_value "B" (pos 1) (pos 9));
  int_of_text = λ s. none;
}

abbrev pub imap : {σ : Type 0} → ImapServer σ
imap = record {
  connect = pure tt;
  list_mailboxes = pure [];
  select = λ name. pure (record {
    uidvalidity = pos 1;
    uidnext = pos 6;
    highestmodseq = none;
    exists = pos 1;
    unseen = pos 0;
  });
  search_unseen = pure [];
  create_folder = λ name. pure tt;
  rename_folder = λ old new. pure tt;
  delete_folder = λ name. pure tt;
}

abbrev pub request : {σ : Type 0} → Request σ
request = record {
  imap = imap;
  lib = libraries;
  account_id = "Aalice";
  redirect_key = ("example.com", "alice");
  pool_max = 4;
  upper = λ s. s;
  repr = λ s. s;
  repr_list = λ ss. "";
  show = λ n. "";
  describe = λ r. "";
  enumerate_set = λ names. names;
}

abbrev pub ctx_of : {σ : Type 0} → σ → Ctx σ
ctx_of s = record { server = s; redirects = new_cache 10; mail_sweep = none }
