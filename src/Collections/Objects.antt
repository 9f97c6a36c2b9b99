-- ===== src/Collections/Objects.antt =====
-- The two kinds of collections, and the methods of each.
use jmap_bridge.Base.{String}
use jmap_bridge.Base.Int.{pos}
use jmap_bridge.Json.{null, bool, str, num, obj, Fields, end, field}
use jmap_bridge.Base.{true, false}
use jmap_bridge.Effects.{Action}
use jmap_bridge.Requests.{Request, Ctx}
use jmap_bridge.Mailboxes.Get.{GetArgs, GetResponse}
use jmap_bridge.Collections.{
  CollectionKind, DavServer, CollectionSetArgs, CollectionSetResponse, collection_get,
  collection_set,
}

abbrev pub calendar_rights : Fields
calendar_rights = field "mayReadFreeBusy" (bool true) (
    field "mayReadItems" (bool true) (
      field "mayWriteAll" (bool true) (
        field "mayWriteOwn" (bool true) (
          field "mayUpdatePrivate" (bool true) (
            field "mayRSVP" (bool true)
              (field "mayShare" (bool false) (field "mayDelete" (bool true) end)))))))

-- `build_jmap_calendar`
abbrev pub calendar_object : String → String → Fields
calendar_object id name = field "id" (str id) (
    field "name" (str name) (
      field "description" null (
        field "color" null (
          field "sortOrder" (num (pos 0)) (
            field "isSubscribed" (bool true) (
              field "isVisible" (bool true) (
                field "isDefault" (bool false) (
                  field "includeInAvailability" (str "all") (
                    field "defaultAlertsWithTime" null (
                      field "defaultAlertsWithoutTime" null (
                        field "timeZone" null (
                          field "shareWith" null
                            (field "myRights" (obj calendar_rights) end)))))))))))))

abbrev pub calendar_kind : CollectionKind
calendar_kind = record {
  prefix = "C";
  state_kind = "calendarstate";
  payload_key = "calendars";
  object_of = calendar_object;
  not_configured = "this domain has no CalDAV server configured";
}

abbrev pub addressbook_rights : Fields
addressbook_rights = field "mayRead" (bool true) (
    field "mayWrite" (bool true)
      (field "mayShare" (bool false) (field "mayDelete" (bool true) end)))

-- `build_jmap_addressbook`
abbrev pub addressbook_object : String → String → Fields
addressbook_object id name = field "id" (str id) (
    field "name" (str name) (
      field "description" null (
        field "sortOrder" (num (pos 0)) (
          field "isDefault" (bool false) (
            field "isSubscribed" (bool true)
              (field "shareWith" null (field "myRights" (obj addressbook_rights) end)))))))

abbrev pub address_books : CollectionKind
address_books = record {
  prefix = "D";
  state_kind = "addressbookstate";
  payload_key = "addressbooks";
  object_of = addressbook_object;
  not_configured = "this domain has no CardDAV server configured";
}

module _ {σ : Type 0} (req : Request σ) (href_path : String → String) (dav : DavServer σ) where
  unfoldable pub calendar_get : GetArgs → Action (Ctx σ) GetResponse
  unfolding collection_get
  calendar_get = collection_get req.lib href_path calendar_kind req dav

  unfoldable pub calendar_set : CollectionSetArgs → Action (Ctx σ) CollectionSetResponse
  unfolding collection_set
  calendar_set = collection_set req.lib href_path calendar_kind req dav

  unfoldable pub address_book_get : GetArgs → Action (Ctx σ) GetResponse
  unfolding collection_get
  address_book_get = collection_get req.lib href_path address_books req dav

  unfoldable pub address_book_set : CollectionSetArgs → Action (Ctx σ) CollectionSetResponse
  unfolding collection_set
  address_book_set = collection_set req.lib href_path address_books req dav
