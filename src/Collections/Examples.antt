-- ===== src/Collections/Examples.antt =====
-- A server with one calendar.
use jmap_bridge.Base.{◌≡◌, refl, String, true, none, some, [], ◌∷◌, string_eq, nat_eq}
use jmap_bridge.Base.Dict
use jmap_bridge.Errors.{err, dav_error}
use jmap_bridge.Effects.{pure}
use jmap_bridge.Effects.Keeps.{Returns}
use jmap_bridge.Requests.Sample.{libraries, request, ctx_of}
use jmap_bridge.Collections.{
  DavServer, CollectionSetArgs, ends_with_slash, canonicalize_collection_href, collection_set,
}
use jmap_bridge.Collections.Objects.{calendar_kind}
use jmap_bridge.Collections.Answered.{IsAnsweringAll, collection_set-IsAnsweringAll}

abbrev href_path : String → String
href_path href = href

abbrev dav : DavServer (Unit {0})
dav = record {
  is_configured = true;
  connect = pure tt;
  list_collections =
      pure (record { href = "/alice/work/"; display_name = some "Work"; sync_token = none } ∷ []);
  create_collection = λ name. pure "/alice/home";
  rename_collection = λ href name. pure tt;
  delete_collection = λ href s. (err (dav_error "403"), s);
}

slash_added :
    canonicalize_collection_href libraries href_path calendar_kind "/alice/home" ≡ "/alice/home/"
unfolding canonicalize_collection_href ends_with_slash
slash_added = refl

-- A creation, an update of an id that is none, and a refused destruction.
abbrev args : CollectionSetArgs
args = record {
  account_id = none;
  create = ("c1", some "Home") ∷ [];
  update = ("nonsense", some "New") ∷ [];
  destroy = "CAQ" ∷ [];
}

collection_set-IsAnsweringAll_example :
    Returns
      (λ r _. IsAnsweringAll args r)
      (collection_set libraries href_path calendar_kind request dav args (ctx_of tt))
unfolding Dict.get
collection_set-IsAnsweringAll_example =
    collection_set-IsAnsweringAll libraries href_path calendar_kind request dav args (ctx_of tt)
      (refl, tt) (refl, tt)
