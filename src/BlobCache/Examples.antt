-- ===== src/BlobCache/Examples.antt =====
-- Runs of the blob cache, and the theorems at a concrete cache.
use jmap_bridge.Base.{◌≡◌, refl, none, [], ◌∷◌, arith}
use jmap_bridge.Base.{string_eq}
use jmap_bridge.BlobCache.{BlobCache, new_cache, put}
use jmap_bridge.BlobCache.Bounds.{IsValid}

abbrev small : BlobCache
small = new_cache 600 4

small-IsValid : IsValid small
small-IsValid = record { nodup = tt; counted = refl; within = omega arith }

over_the_cap : (put 0 0 "a" (1 ∷ 2 ∷ 3 ∷ 4 ∷ 5 ∷ []) "text/plain" small).0 ≡ none
unfolding put
over_the_cap = refl
