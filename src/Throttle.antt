-- ===== src/Throttle.antt =====
-- backend/src/messaging/socket-throttle.ts: the rate limit on socket events. The clock is an argument
-- of `check`, and a window's key is the pair of the user and the bucket's name.
pub mod Limits
pub mod Blocking
use Prim.Native.String.{String}
use text.Mathlib.Text.{◌==◌ as str_eq}
use vfw.Prelude.{
  ℕ, ◌+◌, ◌-◌, ◌*◌, ◌==◌, ◌&&◌, ◌||◌, Bool, true, false, not, Option, none, some, List, [], ◌∷◌,
  ltb, leb, if◌then◌else◌,
}

abbrev minute : ℕ
minute = 60_000

-- `sweep_every_ms`
abbrev pub sweep_every : ℕ
sweep_every = minute

pub record SocketBucket : Type 0 where
  pub name : String
  pub ttl : ℕ
  pub limit : ℕ
  pub block : ℕ
  pub applies_to : String → Bool

-- `socketBuckets`
abbrev pub socket_buckets : List SocketBucket
socket_buckets =
    record {
      name = "typing";
      ttl = minute;
      limit = 60;
      block = minute;
      applies_to = λ event. str_eq event "typing";
    }
    ∷ record {
      name = "events";
      ttl = minute;
      limit = 240;
      block = minute;
      applies_to = λ event. true;
    }
    ∷ []

pub data SocketVerdict : Type 0 where
  allowed : SocketVerdict
  throttled : String → ℕ → SocketVerdict

pub record Window : Type 0 where
  pub count : ℕ
  pub reset_at : ℕ
  pub blocked_until : ℕ

-- A row of the map `windows`.
pub record Entry : Type 0 where
  pub user : ℕ
  pub bucket : String
  pub window : Window

pub record SocketThrottle : Type 0 where
  pub windows : List Entry
  pub last_sweep : ℕ

abbrev pub at_key : ℕ → String → Entry → Bool
at_key user name e = e.user == user && str_eq e.bucket name

-- `windows.get(key)`
unfoldable pub lookup : ℕ → String → List Entry → Option Window
lookup user name [] = none
lookup user name (e ∷ es) = if at_key user name e then some e.window else lookup user name es

-- `windows.set(key, window)`, and a write through the object that `get` returned.
unfoldable pub insert : ℕ → String → Window → List Entry → List Entry
insert user name w [] = record { user = user; bucket = name; window = w } ∷ []
insert user name w (e ∷ es) =
    if at_key user name e then record e { window = w } ∷ es else e ∷ insert user name w es

-- `w.resetAt <= now && w.blockedUntil <= now`
abbrev pub is_stale : ℕ → Window → Bool
is_stale now w = leb w.reset_at now && leb w.blocked_until now

unfoldable pub drop_stale : ℕ → List Entry → List Entry
drop_stale now [] = []
drop_stale now (e ∷ es) = if is_stale now e.window then drop_stale now es else e ∷ drop_stale now es

-- `sweep`. A clock that has gone back is no more than a minute on, either.
unfoldable pub sweep : ℕ → SocketThrottle → SocketThrottle
unfolding drop_stale
sweep now t =
    if ltb (now - t.last_sweep) sweep_every
    then t
    else record { windows = drop_stale now t.windows; last_sweep = now }

-- What one bucket does with an event: the window it leaves, and the wait if it refuses.
abbrev pub fresh : ℕ → SocketBucket → Window
fresh now b = record { count = 1; reset_at = now + b.ttl; blocked_until = 0 }

unfoldable pub charge : ℕ → SocketBucket → Option Window → Window × Option ℕ
charge now b none = (fresh now b, none)
charge now b (some w) =
    if ltb now w.blocked_until
    then (w, some (w.blocked_until - now))
    else if leb w.reset_at now || ltb 0 w.blocked_until
    then (fresh now b, none)
    else if ltb b.limit (w.count + 1)
    then (record w { count = w.count + 1; blocked_until = now + b.block }, some b.block)
    else (record w { count = w.count + 1 }, none)

-- The loop of `check` over the buckets.
unfoldable pub charge_all :
    ℕ → ℕ → String → List SocketBucket → List Entry → SocketVerdict × List Entry
unfolding charge lookup insert
charge_all now user event [] windows = (allowed, windows)
charge_all now user event (b ∷ bs) windows =
    let rest = charge_all now user event bs in
    if not (b.applies_to event)
    then rest windows
    else let (w, wait) = charge now b (lookup user b.name windows) in
      let windows' = insert user b.name w windows in
      elim wait [ some ms ↦ (throttled b.name ms, windows') | none ↦ rest windows' ]

unfoldable pub check :
    List SocketBucket → ℕ → ℕ → String → SocketThrottle → SocketVerdict × SocketThrottle
unfolding sweep charge_all
check buckets now user event t =
    let swept = sweep now t in
    let (verdict, windows) = charge_all now user event buckets swept.windows in
    (verdict, record swept { windows = windows })
