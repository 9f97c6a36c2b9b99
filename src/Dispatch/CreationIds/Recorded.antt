-- ===== src/Dispatch/CreationIds/Recorded.antt =====
-- What `_record_created_ids` remembers, and what a later reference to it becomes.
use jmap_bridge.Base.{
  String, ◌≡◌, refl, ◌≢◌, Bool, true, false, Option, none, some, arith, if◌then◌else◌,
}
use jmap_bridge.Base.{◌==◌, string_eq}
use jmap_bridge.Base.Dict
use jmap_bridge.Base.Dict.{get-put}
use jmap_bridge.Base.Text.{is_char, is_empty, after_char}
use jmap_bridge.Json.{Value, null, bool, num, str, arr, obj, Fields, end, field}
use jmap_bridge.Json.Object.{get, Nodup}
use jmap_bridge.Errors.{ok}
use jmap_bridge.Dispatch.Python.{Python}
use jmap_bridge.Dispatch.CreationIds.{
  CreatedIds, created_id, remember, record_value, record_ids, record_created_ids, creation_ref,
  line, substitute_id_string,
}

-- The id that a `created` object reports under a creation id.
abbrev pub reported : String → Fields → Option String
reported cid fields = elim (get cid fields) [ none ↦ none | some v ↦ created_id v ]

abbrev pub or_old : Option String → Option String → Option String
or_old none old = old
or_old (some id) old = some id

get-remember :
    (j cid : String) (o : Option String) (created : CreatedIds)
    → Dict.get j (remember cid o created)
      ≡ (if j == cid then or_old o (Dict.get j created) else Dict.get j created)
get-remember j cid none created = ground arith
get-remember j cid (some id) created = ground (arith, get-put j cid id created)

reported-cons :
    (cid key : String) (value : Value) (fields : Fields)
    → reported cid (field key value fields)
      ≡ (if cid == key then created_id value else reported cid fields)
unfolding get
reported-cons cid key value fields = ground arith

merge_cases :
    (b : Bool) (rest new old : Option String)
    → (b ≡ true → rest ≡ none)
    → or_old rest (if b then or_old new old else old) ≡ or_old (if b then new else rest) old
merge_cases true rest new old h = rw (h refl)
merge_cases false rest new old h = refl

reported_fresh :
    (cid key : String) (fields : Fields)
    → get key fields ≡ none
    → (cid == key) ≡ true
    → reported cid fields ≡ none
reported_fresh cid key fields fresh same = ground arith

get-record_ids :
    (cid : String) (fields : Fields) (created : CreatedIds)
    → Nodup fields
    → Dict.get cid (record_ids fields created) ≡ or_old (reported cid fields) (Dict.get cid created)
unfolding record_ids get
get-record_ids cid end created u = refl
get-record_ids cid (field key value fields) created (fresh, u) =
    rw
      (
        get-record_ids cid fields (remember key (created_id value) created) u,
        get-remember cid key (created_id value) created,
        reported-cons cid key value fields,
      )
      (merge_cases (cid == key) (reported cid fields) (created_id value) (Dict.get cid created)
        (reported_fresh cid key fields fresh))

-- Nothing that was known is forgotten.
kept-record_ids :
    (cid : String) (fields : Fields) (created : CreatedIds)
    → Dict.get cid created ≢ none
    → Dict.get cid (record_ids fields created) ≢ none
unfolding record_ids
kept-record_ids cid end created h = h
kept-record_ids cid (field key value fields) created h =
    kept-record_ids cid fields (remember key (created_id value) created)
      (ground (arith, get-remember cid key (created_id value) created))

kept-record_value :
    (cid : String) (value : Option Value) (created : CreatedIds)
    → Dict.get cid created ≢ none
    → Dict.get cid (record_value value created) ≢ none
kept-record_value cid (some (obj fields)) created h = kept-record_ids cid fields created h
kept-record_value cid (some null) created h = h
kept-record_value cid (some (bool b)) created h = h
kept-record_value cid (some (num n)) created h = h
kept-record_value cid (some (str s)) created h = h
kept-record_value cid (some (arr xs)) created h = h
kept-record_value cid none created h = h

pub kept-record_created_ids :
    (cid : String) (result : Fields) (created : CreatedIds)
    → Dict.get cid created ≢ none
    → Dict.get cid (record_created_ids result created) ≢ none
unfolding record_created_ids
kept-record_created_ids cid result created h =
    kept-record_value cid (get "created" result) created h

-- No newline in the text.
abbrev pub OneLine : String → Type 0
OneLine String.[] = Unit
OneLine (String.◌∷◌ c s) = (is_char 10 c ≡ false) × OneLine s

line-OneLine : (s : String) → OneLine s → line s ≡ some s
unfolding line
line-OneLine String.[] h = refl
line-OneLine (String.◌∷◌ c s) h = rw (h.0, line) (rw (line-OneLine s h.1, line))

-- `"#" + cid`
abbrev pub reference : String → String
reference cid = String.◌∷◌ "#" cid

creation_ref-reference :
    (cid : String) → OneLine cid → is_empty cid ≡ false → creation_ref (reference cid) ≡ some cid
unfolding creation_ref after_char
creation_ref-reference cid h ne = rw (line-OneLine cid h) (rw ne)

substitute_known :
    (py : Python) (created : CreatedIds) (s cid id : String)
    → creation_ref s ≡ some cid
    → Dict.get cid created ≡ some id
    → substitute_id_string py created s ≡ ok id
unfolding substitute_id_string
substitute_known py created s cid id e g = rw (e, substitute_id_string) (rw g)

-- An object that a `/set` result reports as created is remembered: from then on a reference to its
-- creation id is replaced by the id that the server assigned, whatever was known before.
pub substitute-record_created_ids :
    (py : Python) (cid id : String) (result created_objects : Fields) (created : CreatedIds)
    → get "created" result ≡ some (obj created_objects)
    → Nodup created_objects
    → reported cid created_objects ≡ some id
    → OneLine cid
    → is_empty cid ≡ false
    → substitute_id_string py (record_created_ids result created) (reference cid) ≡ ok id
unfolding record_created_ids
substitute-record_created_ids py cid id result objects created e u r h ne =
    substitute_known py (record_created_ids result created) (reference cid) cid id
      (creation_ref-reference cid h ne)
      (rw (e, record_created_ids) (rw (get-record_ids cid objects created u, r)))
