-- ===== src/Push/Registry/Opens.antt =====
-- A stream opens.
use jmap_bridge.Base.{ℕ, ◌≡◌, Option, none, some, List, ◌∷◌, nat_eq, string_eq, pair_eq}
use jmap_bridge.Base.Dict
use jmap_bridge.Base.Dict.{Dict, NodupKeys}
use jmap_bridge.IdRedirect.{AccountKey}
use jmap_bridge.Push.Registry.{Registry, add_watcher, join_or_make}
use jmap_bridge.Push.Registry.Sessions.{Stream, Implements, Kept}
use jmap_bridge.Push.Registry.Joins.{joined-Implements, joined-Kept}
use jmap_bridge.Push.Registry.Adds.{added-Kept, added_are, added_current, added_used, at_added}

pub opens-Implements :
    (key : AccountKey) (r : Registry) (streams : List Stream) (o : Option ℕ)
    → Dict.get key r.by_key ≡ o
    → Kept r
    → Implements r streams
    → Kept (join_or_make key o r).1
      × Implements (join_or_make key o r).1 ((key, (join_or_make key o r).0) ∷ streams)
opens-Implements key r streams (some w) e kept i = (
  joined-Kept key w r streams e kept i.streams_are i.current (λ k v _. i.used k v),
  joined-Implements key w r streams e kept i.streams_are i.current (λ k v _. i.used k v),
)
opens-Implements key r streams none e kept i =
    let added = add_watcher key r in
    let are = added_are key r streams e kept i in
    let current = added_current key r streams e kept i in
    let used = added_used key r streams e kept i in
    let here = at_added key r streams e kept i in
    let kept' = added-Kept key r streams e kept i in
    (
      joined-Kept key r.watchers_made added streams here kept' are current used,
      joined-Implements key r.watchers_made added streams here kept' are current used,
    )
