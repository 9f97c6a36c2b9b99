-- ===== src/Json/Object.antt =====
-- Reads and writes of a dict of values, with their laws.
use jmap_bridge.Base.{String, ◌≡◌, refl, Option, none, some, arith, if◌then◌else◌}
use jmap_bridge.Base.{◌==◌, string_eq}
use jmap_bridge.Json.{Value, Fields, end, field}

-- `fields.get(key)`
unfoldable pub get : String → Fields → Option Value
get k end = none
get k (field j v fs) = if k == j then some v else get k fs

-- `fields[key] = value`
unfoldable pub put : String → Value → Fields → Fields
put k v end = field k v end
put k v (field j w fs) = if k == j then field k v fs else field j w (put k v fs)

-- `{**fields, **others}`
unfoldable pub merge : Fields → Fields → Fields
unfolding put
merge fs end = fs
merge fs (field k v gs) = merge (put k v fs) gs

abbrev pub append : Fields → Fields → Fields
append end gs = gs
append (field k v fs) gs = field k v (append fs gs)

-- A dict holds each key once.
abbrev pub Nodup : Fields → Type 0
Nodup end = Unit
Nodup (field k v fs) = (get k fs ≡ none) × Nodup fs

pub get-put :
    (j k : String) (v : Value) (fs : Fields)
    → get j (put k v fs) ≡ (if j == k then some v else get j fs)
unfolding get put
get-put j k v end = ground arith
get-put j k v (field i w fs) = ground (arith, get-put j k v fs)

pub put-Nodup : (k : String) (v : Value) (fs : Fields) → Nodup fs → Nodup (put k v fs)
unfolding get put
put-Nodup k v end _ = (refl, tt)
put-Nodup k v (field j w fs) (fresh, u) = ground (arith, put-Nodup k v fs u, get-put j k v fs)

pub put_absent :
    (k : String) (v : Value) (fs : Fields)
    → get k fs ≡ none
    → put k v fs ≡ append fs (field k v end)
unfolding get put
put_absent k v end h = refl
put_absent k v (field j w fs) h = ground (arith, put_absent k v fs)

pub append_end : (fs : Fields) → append fs end ≡ fs
append_end end = refl
append_end (field k v fs) = rw (append_end fs)

pub append_assoc : (fs gs hs : Fields) → append (append fs gs) hs ≡ append fs (append gs hs)
append_assoc end gs hs = refl
append_assoc (field k v fs) gs hs = rw (append_assoc fs gs hs)
