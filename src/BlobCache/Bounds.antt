-- ===== src/BlobCache/Bounds.antt =====
-- The byte count of the cache is exact, and stays within the cap.
use jmap_bridge.Base.{
  ℕ, ◌+◌, ◌≤◌, String, ◌<>◌, ◌≡◌, none, List, [], ◌∷◌, arith, ltb, length, Bool-cases, inl, inr,
}
use jmap_bridge.Base.{string_eq}
use jmap_bridge.Base.Dict
use jmap_bridge.Base.Dict.{Dict, NodupKeys, pop-NodupKeys, put-NodupKeys}
use jmap_bridge.BlobCache.{
  Bytes, BlobEntry, BlobCache, expired_ids, size_of, drop_blob, drop_blobs, sweep_expired, put, get,
}

-- The bytes that the entries hold.
abbrev pub bytes_held : Dict String BlobEntry → ℕ
bytes_held [] = 0
bytes_held ((_, e) ∷ entries) = length e.content + bytes_held entries

pub record IsValid (c : BlobCache) : Type 0 where
  pub nodup : NodupKeys c.entries
  pub counted : c.total_bytes ≡ bytes_held c.entries
  pub within : c.total_bytes ≤ c.max_total_bytes

bytes_held-pop :
    (id : String) (entries : Dict String BlobEntry)
    → size_of (Dict.get id entries) + bytes_held (Dict.pop id entries) ≡ bytes_held entries
unfolding Dict.get Dict.pop
bytes_held-pop id [] = omega arith
bytes_held-pop id ((j, e) ∷ entries) = ground (arith, bytes_held-pop id entries)

bytes_held-put :
    (id : String) (e : BlobEntry) (entries : Dict String BlobEntry)
    → bytes_held (Dict.put id e entries) + size_of (Dict.get id entries)
      ≡ length e.content + bytes_held entries
unfolding Dict.get Dict.put
bytes_held-put id e [] = omega arith
bytes_held-put id e ((j, w) ∷ entries) = ground (arith, bytes_held-put id e entries)

bytes_held-put-none :
    (id : String) (e : BlobEntry) (entries : Dict String BlobEntry)
    → Dict.get id entries ≡ none
    → bytes_held (Dict.put id e entries) ≡ length e.content + bytes_held entries
bytes_held-put-none id e entries h = ground (arith, bytes_held-put id e entries)

drop_blob-IsValid : (id : String) (c : BlobCache) → IsValid c → IsValid (drop_blob id c)
unfolding drop_blob
drop_blob-IsValid id c v = record {
  nodup = pop-NodupKeys id c.entries v.nodup;
  counted = let held = v.counted in omega (arith, bytes_held-pop id c.entries);
  within = let bound = v.within in omega arith;
}

drop_blobs-IsValid : (ids : List String) (c : BlobCache) → IsValid c → IsValid (drop_blobs ids c)
unfolding drop_blobs
drop_blobs-IsValid [] c v = v
drop_blobs-IsValid (id ∷ ids) c v =
    drop_blobs-IsValid ids (drop_blob id c) (drop_blob-IsValid id c v)

pub sweep_expired-IsValid : (now : ℕ) (c : BlobCache) → IsValid c → IsValid (sweep_expired now c)
unfolding sweep_expired
sweep_expired-IsValid now c v = drop_blobs-IsValid (expired_ids now c.entries) c v

pub put_swept-IsValid :
    (now later : ℕ) (token : String) (content : Bytes) (content_type : String) (c : BlobCache)
    → IsValid (sweep_expired now c)
    → Dict.get ("U" <> token) (sweep_expired now c).entries ≡ none
    → IsValid (put now later token content content_type c).1
unfolding put
put_swept-IsValid now later token content content_type c v fresh =
    let s = sweep_expired now c in
    elim (Bool-cases (ltb s.max_total_bytes (s.total_bytes + length content))) [
      | inl full ↦ rw (full, put) v
      | inr room ↦
          rw (room, put)
            (record {
              nodup = put-NodupKeys ("U" <> token) _ s.entries v.nodup;
              counted =
                  let held = v.counted in
                  rw (bytes_held-put-none ("U" <> token) _ s.entries fresh) (omega arith);
              within = ground arith;
            })
    ]

-- From a cache whose count is exact and within the cap, every `put` under a token that is not in
-- use, refused or not, and every `get` leaves one whose count is exact and within the cap.
pub put-get-IsValid :
    (now later : ℕ) (token : String) (content : Bytes) (content_type id : String) (c : BlobCache)
    → IsValid c
    → Dict.get ("U" <> token) (sweep_expired now c).entries ≡ none
    → IsValid (put now later token content content_type c).1 × IsValid (get now id c).1
unfolding get
put-get-IsValid now later token content content_type id c v fresh = (
  put_swept-IsValid now later token content content_type c (sweep_expired-IsValid now c v) fresh,
  sweep_expired-IsValid now c v,
)
