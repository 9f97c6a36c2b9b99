-- ===== src/Push/Registry/Sessions.antt =====
-- What a registry of watchers stands for, and the orders in which streams open and close.
use jmap_bridge.Base.{
  ℕ, ◌<◌, ◌≡◌, refl, ap, ◌∙◌, Bool, true, false, ◌&&◌, ◌||◌, not, Option, some, List, [], ◌∷◌,
  if◌then◌else◌, ◌==◌, contains, nat_eq, string_eq, pair_eq, arith,
}
use jmap_bridge.Base.Dict
use jmap_bridge.Base.Dict.{Dict, NodupKeys}
use jmap_bridge.IdRedirect.{AccountKey}
use jmap_bridge.Push.{Watcher, subscribe, is_none_left}
use jmap_bridge.Push.Registry.{
  Registry, new_registry, or_new, watcher_at, put_watcher, subscribe_account, unsubscribe_account,
}

-- A stream: its account, its watcher and its queue.
abbrev pub Stream : Type 0
Stream = AccountKey × (ℕ × ℕ)

abbrev pub same_stream : Stream → Stream → Bool
same_stream (k, (v, x)) (l, (w, q)) = k == l && (v == w && x == q)

abbrev pub is_open : Stream → List Stream → Bool
is_open s [] = false
is_open s (t ∷ streams) = same_stream s t || is_open s streams

abbrev pub close_stream : Stream → List Stream → List Stream
close_stream s [] = []
close_stream s (t ∷ streams) =
    let rest = close_stream s streams in if same_stream t s then rest else t ∷ rest

-- The registry and the open streams, through any order of their openings and closings.
pub data Sessions : Registry → List Stream → Type 0 where
  idle : Sessions new_registry []
  opens :
      {r : Registry} {streams : List Stream} (key : AccountKey)
      → Sessions r streams
      → Sessions (subscribe_account key r).1 ((key, (subscribe_account key r).0) ∷ streams)
  closes :
      {r : Registry} {streams : List Stream} (key : AccountKey) (w queue : ℕ)
      → Sessions r streams
      → is_open (key, (w, queue)) streams ≡ true
      → Sessions (unsubscribe_account key w queue r) (close_stream (key, (w, queue)) streams)

abbrev pub subscribers_at : ℕ → Registry → List ℕ
subscribers_at w r = (watcher_at w r).subscribers

-- What is registered for an account are its open streams, and an account without any has no watcher.
pub record Implements (r : Registry) (streams : List Stream) : Type 0 where
  pub streams_are :
      (key : AccountKey) (w q : ℕ)
      → Dict.get key r.by_key ≡ some w
      → contains (subscribers_at w r) q ≡ is_open (key, (w, q)) streams
  pub current :
      (key : AccountKey) (w q : ℕ)
      → is_open (key, (w, q)) streams ≡ true
      → Dict.get key r.by_key ≡ some w
  pub used :
      (key : AccountKey) (w : ℕ)
      → Dict.get key r.by_key ≡ some w
      → is_none_left (subscribers_at w r) ≡ false

-- What else is true of every registry that was reached.
pub record Kept (r : Registry) : Type 0 where
  pub nodup : NodupKeys r.by_key
  pub made : (key : AccountKey) (w : ℕ) → Dict.get key r.by_key ≡ some w → w < r.watchers_made
  pub separate :
      (k l : AccountKey) (w : ℕ)
      → Dict.get k r.by_key ≡ some w
      → Dict.get l r.by_key ≡ some w
      → k ≡ l
  pub fresh : (w q : ℕ) → contains (subscribers_at w r) q ≡ true → q < r.queues_made

subscribers_if :
    (b : Bool) (x : Watcher) (o : Option Watcher)
    → (or_new (if b then some x else o)).subscribers
      ≡ (if b then x.subscribers else (or_new o).subscribers)
subscribers_if true x o = refl
subscribers_if false x o = refl

pub subscribers-put :
    (r : Registry) (w v : ℕ) (x : Watcher)
    → subscribers_at v (put_watcher w x r) ≡ (if v == w then x.subscribers else subscribers_at v r)
subscribers-put r w v x =
    ap (λ o. (or_new o).subscribers) (Dict.get-put v w x r.watchers)
    ∙ subscribers_if (v == w) x (Dict.get v r.watchers)

none_left_if :
    (b : Bool) (q : ℕ) (qs : List ℕ)
    → contains qs q ≡ b
    → is_none_left (if b then qs else q ∷ qs) ≡ false
none_left_if false q qs h = refl
none_left_if true q [] h = cc
none_left_if true q (p ∷ qs) h = refl

pub is_none_left-subscribe :
    (q : ℕ) (w : Watcher) → is_none_left (subscribe q w).subscribers ≡ false
unfolding subscribe
is_none_left-subscribe q w = none_left_if (contains w.subscribers q) q w.subscribers refl

pub contains-subscribe :
    (q x : ℕ) (w : Watcher)
    → contains (subscribe q w).subscribers x ≡ (x == q || contains w.subscribers x)
unfolding subscribe
contains-subscribe q x w = ground arith

pub is_open-close_stream :
    (s t : Stream) (streams : List Stream)
    → is_open t (close_stream s streams) ≡ (not (same_stream t s) && is_open t streams)
is_open-close_stream s t [] = ground arith
is_open-close_stream (l, (w, q)) (k, (v, x)) ((j, (u, y)) ∷ streams) =
    ground (arith, is_open-close_stream (l, (w, q)) (k, (v, x)) streams)
