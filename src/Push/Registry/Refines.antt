-- ===== src/Push/Registry/Refines.antt =====
-- The registry is a map from each account to its open streams.
use jmap_bridge.Base.{refl, List, [], nat_eq, string_eq, pair_eq}
use jmap_bridge.Base.Dict
use jmap_bridge.Base.Dict.{Dict, NodupKeys}
use jmap_bridge.Push.Registry.{Registry, new_registry, subscribe_account}
use jmap_bridge.Push.Registry.Sessions.{idle, opens, closes, Stream, Sessions, Implements, Kept}
use jmap_bridge.Push.Registry.Opens.{opens-Implements}
use jmap_bridge.Push.Registry.Closes.{closes-Implements}

new-Kept : Kept new_registry
unfolding Dict.get
new-Kept = record {
  nodup = tt;
  made = λ k v e. cc;
  separate = λ k l v e f. cc;
  fresh = λ v x h. cc;
}

new-Implements : Implements new_registry []
unfolding Dict.get
new-Implements = record { streams_are = λ k v x e. cc; current = λ k v x h. cc; used = λ k v e. cc }

reached :
    {r : Registry} {streams : List Stream} → Sessions r streams → Kept r × Implements r streams
unfolding subscribe_account
reached idle = (new-Kept, new-Implements)
reached (opens {r} {streams} key run) =
    let (kept, i) = reached run in
    opens-Implements key r streams (Dict.get key r.by_key) refl kept i
reached (closes {r} {streams} key w queue run is_there) =
    let (kept, i) = reached run in
    closes-Implements key w queue r streams (i.current key w queue is_there) kept i

-- Whatever the order in which streams are opened and closed, the registry stands for the map from
-- each account to its open streams: the subscribers of an account's watcher are the queues of its
-- open streams, each open stream has the watcher that is registered, and an account without an open
-- stream has none.
pub Sessions-Implements :
    {r : Registry} {streams : List Stream} → Sessions r streams → Implements r streams
Sessions-Implements run = (reached run).1
