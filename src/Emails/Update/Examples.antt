-- ===== src/Emails/Update/Examples.antt =====
-- A message that is moved from the mailbox `A` to the mailbox `B`.
use jmap_bridge.Base.{ne_of_compare, ◌≡◌, refl, some, [], string_eq, nat_eq, arith, true}
use jmap_bridge.Base.Dict
use jmap_bridge.Base.Dict.{Dict}
use jmap_bridge.Base.Int.{pos}
use jmap_bridge.Base.Text.{after_prefix}
use jmap_bridge.Json.{bool, obj, Fields, end, field, truthy}
use jmap_bridge.Json.Object.{get}
use jmap_bridge.Effects.{pure}
use jmap_bridge.Effects.Keeps.{Returns}
use jmap_bridge.Encoding.{decode_name, pad, padding, rstrip_padding}
use jmap_bridge.IdRedirect.{new_cache, resolve, follow}
use jmap_bridge.IdRedirect.Record.{IsValid}
use jmap_bridge.Requests.Sample.{libraries, imap, request, ctx_of}
use jmap_bridge.Emails.Ids.{email_id_value, encode_email_id, decode_email_id, IsReversible}
use jmap_bridge.Emails.Update.{
  Messages, target_names, patches, kept_names, apply_email_update, locate,
}
use jmap_bridge.Emails.Update.Events.{Log, watched, OnlyAfterCopies}
use jmap_bridge.Emails.Update.NoLoss.{apply_email_update-OnlyAfterCopies}
use jmap_bridge.Emails.Update.Moved.{apply_email_update-locate}

abbrev messages : Messages (Unit {0})
messages = record {
  select_for_update = λ name. imap.select name;
  set_flags = λ uid flags. pure tt;
  add_flags = λ uid flags. pure tt;
  remove_flags = λ uid flags. pure tt;
  copy = λ uid name. pure (some (pos 1, pos 9));
  expunge = λ uid. pure tt;
}

abbrev patch : Fields
patch = field "mailboxIds" (obj (field "MAg" (bool true) end)) end

apply_email_update-OnlyAfterCopies_example :
    OnlyAfterCopies "A"
      (target_names (request {σ = Unit × Log}) "A" patch)
      (apply_email_update request
        (watched messages)
        (λ v. "")
        "EAQ"
        patch
        (ctx_of (tt, []))).1.server.1
unfolding locate decode_email_id resolve follow pad padding after_prefix string_eq nat_eq Dict.get
apply_email_update-OnlyAfterCopies_example =
    apply_email_update-OnlyAfterCopies messages request (λ v. "") (λ names x. refl) "EAQ" patch
      (ctx_of (tt, [])) "A" (pos 1) (pos 5) refl refl

b_id-IsReversible : IsReversible libraries (email_id_value "B" (pos 1) (pos 9))
unfolding padding string_eq nat_eq
b_id-IsReversible = record {
  is_padded = record {
    body = "Ag";
    count = 2;
    split = refl;
    clean = refl;
    at_most_two = omega arith;
    whole = refl;
  };
  b64_inverse = refl;
  json_inverse = refl;
}

no_redirects-IsValid : IsValid (new_cache 10)
unfolding Dict.get
no_redirects-IsValid = record { nodup = λ key. tt; bounded = λ key. omega arith }

apply_email_update-locate_example :
    Returns
      (λ _ t. locate request messages (λ v. "") "EAQ" t ≡ some ("B", pos 1, pos 9))
      (apply_email_update request messages (λ v. "") "EAQ" patch (ctx_of tt))
unfolding locate decode_email_id resolve follow pad padding after_prefix string_eq nat_eq Dict.get
    encode_email_id rstrip_padding target_names get patches kept_names decode_name truthy
apply_email_update-locate_example =
    apply_email_update-locate request messages (λ v. "") "EAQ" "A" "B" (pos 5) (pos 1) (pos 9)
      (ne_of_compare "A" "B" refl) refl (λ s. refl) patch (pos 1) (ctx_of tt) no_redirects-IsValid
      (omega arith) (ne_of_compare "EAQ" "EAg" refl) refl b_id-IsReversible refl refl
