-- ===== src/Push/Registry.antt =====
-- push.py: the registry of watchers, one for each account with an open /events stream.
pub mod Sessions
pub mod Joins
pub mod Adds
pub mod Opens
pub mod Closes
pub mod Refines
use jmap_bridge.Base.{
  ℕ, suc, Bool, true, false, Option, none, some, List, [], ◌∷◌, ◌&&◌, if◌then◌else◌, ◌==◌, nat_eq,
  string_eq, pair_eq,
}
use jmap_bridge.Base.Dict
use jmap_bridge.Base.Dict.{Dict}
use jmap_bridge.IdRedirect.{AccountKey}
use jmap_bridge.Push.{Watcher, new_watcher, subscribe, unsubscribe}

-- A watcher is an object: it is named by a number, and so is a queue. `watchers` holds all that were
-- made, `by_key` is `self._watchers`.
pub record Registry : Type 0 where
  pub by_key : Dict AccountKey ℕ
  pub watchers : Dict ℕ Watcher
  pub watchers_made : ℕ
  pub queues_made : ℕ

abbrev pub new_registry : Registry
new_registry = record { by_key = []; watchers = []; watchers_made = 0; queues_made = 0 }

abbrev pub or_new : Option Watcher → Watcher
or_new none = new_watcher
or_new (some w) = w

abbrev pub watcher_at : ℕ → Registry → Watcher
watcher_at w r = or_new (Dict.get w r.watchers)

abbrev pub put_watcher : ℕ → Watcher → Registry → Registry
put_watcher w x r = record r { watchers = Dict.put w x r.watchers }

-- `watcher.subscribe()`, with a new queue.
abbrev pub join_watcher : ℕ → Registry → (ℕ × ℕ) × Registry
join_watcher w r = (
  (w, r.queues_made),
  record (put_watcher w (subscribe r.queues_made (watcher_at w r)) r) {
    queues_made = suc r.queues_made;
  },
)

abbrev pub add_watcher : AccountKey → Registry → Registry
add_watcher key r = record (put_watcher r.watchers_made new_watcher r) {
  by_key = Dict.put key r.watchers_made r.by_key;
  watchers_made = suc r.watchers_made;
}

abbrev pub join_or_make : AccountKey → Option ℕ → Registry → (ℕ × ℕ) × Registry
join_or_make key (some w) r = join_watcher w r
join_or_make key none r = join_watcher r.watchers_made (add_watcher key r)

-- `AccountWatcherRegistry.subscribe`
unfoldable pub subscribe_account : AccountKey → Registry → (ℕ × ℕ) × Registry
unfolding subscribe
subscribe_account key r = join_or_make key (Dict.get key r.by_key) r

abbrev pub is_watcher : Option ℕ → ℕ → Bool
is_watcher none w = false
is_watcher (some v) w = v == w

abbrev pub forget_if : Bool → AccountKey → Registry → Registry
forget_if b key r = if b then record r { by_key = Dict.pop key r.by_key } else r

-- `AccountWatcherRegistry.unsubscribe`
unfoldable pub unsubscribe_account : AccountKey → ℕ → ℕ → Registry → Registry
unfolding unsubscribe
unsubscribe_account key w queue r =
    let (x, none_left) = unsubscribe queue (watcher_at w r) in
    forget_if (none_left && is_watcher (Dict.get key r.by_key) w) key (put_watcher w x r)
