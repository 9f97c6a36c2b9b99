-- ===== src/BlobCache.antt =====
-- blob_cache.py: uploaded blobs, held in memory for a while and up to a total size.
pub mod Bounds
pub mod Reads
mod Examples
use jmap_bridge.Base.{
  ℕ, ◌+◌, ◌-◌, String, ◌<>◌, Bool, true, false, Option, none, some, List, [], ◌∷◌, ltb, leb, length,
  if◌then◌else◌,
}
use jmap_bridge.Base.{string_eq}
use jmap_bridge.Base.Dict
use jmap_bridge.Base.Dict.{Dict}

-- A byte string; each element is a byte.
abbrev pub Bytes : Type 0
Bytes = List ℕ

pub record BlobEntry : Type 0 where
  pub content : Bytes
  pub content_type : String
  pub expires_at : ℕ

-- The clock counts in the ticks of `time.monotonic`; `ttl` is in the same unit.
pub record BlobCache : Type 0 where
  pub ttl : ℕ
  pub max_total_bytes : ℕ
  pub entries : Dict String BlobEntry
  pub total_bytes : ℕ

abbrev pub new_cache : ℕ → ℕ → BlobCache
new_cache ttl max_total_bytes = record {
  ttl = ttl;
  max_total_bytes = max_total_bytes;
  entries = [];
  total_bytes = 0;
}

abbrev pub is_expired : ℕ → BlobEntry → Bool
is_expired now e = leb e.expires_at now

-- `[bid for bid, e in self._entries.items() if e.expires_at <= now]`
unfoldable pub expired_ids : ℕ → Dict String BlobEntry → List String
expired_ids now [] = []
expired_ids now ((id, e) ∷ entries) =
    let rest = expired_ids now entries in if is_expired now e then id ∷ rest else rest

abbrev pub size_of : Option BlobEntry → ℕ
size_of none = 0
size_of (some e) = length e.content

-- `self._total_bytes -= len(self._entries.pop(bid).data)`
unfoldable pub drop_blob : String → BlobCache → BlobCache
drop_blob id c = record c {
  entries = Dict.pop id c.entries;
  total_bytes = c.total_bytes - size_of (Dict.get id c.entries);
}

unfoldable pub drop_blobs : List String → BlobCache → BlobCache
unfolding drop_blob
drop_blobs [] c = c
drop_blobs (id ∷ ids) c = drop_blobs ids (drop_blob id c)

unfoldable pub sweep_expired : ℕ → BlobCache → BlobCache
unfolding drop_blobs expired_ids
sweep_expired now c = drop_blobs (expired_ids now c.entries) c

-- `token` is `uuid.uuid4().hex`, `now` and `later` the two readings of the clock. `none` is the
-- `MemoryError`; the sweep before it stays.
unfoldable pub put : ℕ → ℕ → String → Bytes → String → BlobCache → Option String × BlobCache
unfolding sweep_expired
put now later token content content_type c =
    let s = sweep_expired now c in
    if ltb s.max_total_bytes (s.total_bytes + length content) then (none, s) else (
      some ("U" <> token),
      record s {
        entries =
            Dict.put ("U" <> token)
              (record {
                content = content;
                content_type = content_type;
                expires_at = later + s.ttl;
              })
              s.entries;
        total_bytes = s.total_bytes + length content;
      },
    )

abbrev pub blob_of : Option BlobEntry → Option (Bytes × String)
blob_of none = none
blob_of (some e) = some (e.content, e.content_type)

unfoldable pub get : ℕ → String → BlobCache → Option (Bytes × String) × BlobCache
unfolding sweep_expired
get now id c = let s = sweep_expired now c in (blob_of (Dict.get id s.entries), s)
