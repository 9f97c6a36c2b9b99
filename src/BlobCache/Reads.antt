-- ===== src/BlobCache/Reads.antt =====
-- What a `get` returns: a blob exactly until it expires.
use jmap_bridge.Base.{
  ℕ, ◌+◌, String, ◌<>◌, ◌≡◌, refl, sym, ◌∙◌, ap, Bool, true, false, Option, none, some,
  some-injective, List, [], ◌∷◌, arith, ltb, length, if◌then◌else◌, Bool-cases, inl, inr,
}
use jmap_bridge.Base.{contains, string_eq}
use jmap_bridge.Base.Dict
use jmap_bridge.Base.Dict.{Dict, NodupKeys, pop-NodupKeys, get-pop}
use jmap_bridge.BlobCache.{
  Bytes, BlobEntry, BlobCache, is_expired, expired_ids, drop_blob, drop_blobs, sweep_expired, put,
  get, blob_of,
}
use jmap_bridge.BlobCache.Bounds.{IsValid, sweep_expired-IsValid, put_swept-IsValid}

abbrev has_expired : ℕ → Option BlobEntry → Bool
has_expired now none = false
has_expired now (some e) = is_expired now e

-- An entry that has not expired.
abbrev pub live : ℕ → Option BlobEntry → Option BlobEntry
live now none = none
live now (some e) = if is_expired now e then none else some e

contains-expired_ids :
    (now : ℕ) (entries : Dict String BlobEntry) (id : String)
    → NodupKeys entries
    → contains (expired_ids now entries) id ≡ has_expired now (Dict.get id entries)
unfolding expired_ids Dict.get
contains-expired_ids now [] id u = refl
contains-expired_ids now ((k, e) ∷ entries) id (fresh, u) =
    ground (arith, contains-expired_ids now entries id u)

get-drop_blobs :
    (ids : List String) (c : BlobCache) (id : String)
    → NodupKeys c.entries
    → Dict.get id (drop_blobs ids c).entries
      ≡ (if contains ids id then none else Dict.get id c.entries)
unfolding drop_blobs
get-drop_blobs [] c id u = refl
get-drop_blobs (k ∷ ids) c id u =
    rw (get-drop_blobs ids (drop_blob k c) id (unfold drop_blob in pop-NodupKeys k c.entries u))
      (unfold drop_blob in ground (arith, get-pop id k c.entries u))

-- The sweep removes exactly the entries that have expired.
get-sweep_expired :
    (now : ℕ) (c : BlobCache) (id : String)
    → IsValid c
    → Dict.get id (sweep_expired now c).entries ≡ live now (Dict.get id c.entries)
unfolding sweep_expired
get-sweep_expired now c id v =
    rw
      (
        get-drop_blobs (expired_ids now c.entries) c id v.nodup,
        contains-expired_ids now c.entries id v.nodup,
      )
      (ground arith)

-- A `get` returns the blob that the cache holds, and nothing for one that has expired.
pub get_lem :
    (now : ℕ) (id : String) (c : BlobCache)
    → IsValid c
    → (get now id c).0 ≡ blob_of (live now (Dict.get id c.entries))
unfolding get
get_lem now id c v = ap blob_of (get-sweep_expired now c id v)

ttl-drop_blobs : (ids : List String) (c : BlobCache) → (drop_blobs ids c).ttl ≡ c.ttl
unfolding drop_blobs
ttl-drop_blobs [] c = refl
ttl-drop_blobs (id ∷ ids) c = ttl-drop_blobs ids (drop_blob id c)

ttl-sweep_expired : (now : ℕ) (c : BlobCache) → (sweep_expired now c).ttl ≡ c.ttl
unfolding sweep_expired
ttl-sweep_expired now c = ttl-drop_blobs (expired_ids now c.entries) c

module _ (now later : ℕ) (token : String) (content : Bytes) (content_type : String)
    (c : BlobCache) where
  abbrev over_cap : Bool
  over_cap = let s = sweep_expired now c in ltb s.max_total_bytes (s.total_bytes + length content)

  abbrev stored : BlobEntry
  stored = record { content = content; content_type = content_type; expires_at = later + c.ttl }

  rejected : over_cap ≡ true → (put now later token content content_type c).0 ≡ none
  unfolding put
  rejected full = rw (full, put)

  held_at :
      over_cap ≡ false
      → ((put now later token content content_type c).0 ≡ some ("U" <> token))
        × (Dict.get ("U" <> token) (put now later token content content_type c).1.entries
            ≡ some stored)
  unfolding put
  held_at room =
      let s = sweep_expired now c in
      (
        rw (room, put),
        rw (room, put) (rw (Dict.get-put_self ("U" <> token) _ s.entries, ttl-sweep_expired now c)),
      )

module _ (now later : ℕ) (token id : String) (content : Bytes) (content_type : String)
    (c : BlobCache) (accepted : (put now later token content content_type c).0 ≡ some id) where
  entry-put :
      Dict.get id (put now later token content content_type c).1.entries
      ≡ some (stored now later token content content_type c)
  entry-put = elim (Bool-cases (over_cap now later token content content_type c)) [
    | inl full ↦ cc (rejected now later token content content_type c full, accepted)
    | inr room ↦
        let (same, held) = held_at now later token content content_type c room in
        rw (← some-injective ("U" <> token) id (sym same ∙ accepted)) held
  ]

  -- A blob that `put` accepted is returned, whole and with its type, until its time to live is over
  -- and not from then on.
  pub get-put :
      (at : ℕ)
      → IsValid c
      → Dict.get ("U" <> token) (sweep_expired now c).entries ≡ none
      → (get at id (put now later token content content_type c).1).0
        ≡ (if ltb at (later + c.ttl) then some (content, content_type) else none)
  get-put at v fresh =
      let w =
        put_swept-IsValid now later token content content_type c (sweep_expired-IsValid now c v)
          fresh in
      rw (get_lem at id (put now later token content content_type c).1 w, entry-put) (ground arith)
