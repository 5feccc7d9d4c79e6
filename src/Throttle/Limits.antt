-- ===== src/Throttle/Limits.antt =====
-- How many events a bucket lets through (backend/src/messaging/socket-throttle.ts).
use vfw.Prelude.{
  ℕ, ◌+◌, ◌≤◌, ◌<◌, ◌≡◌, ◌⊎◌, inl, inr, refl, ◌∙◌, none, some, Option, List, [], ◌∷◌, arith,
}
use vfw.Store.Table.{All}
use vfw.Throttle.{SocketBucket, Window, fresh, charge}

-- One for an event that passed.
abbrev pub counts : Option ℕ → ℕ
counts none = 1
counts (some _) = 0

-- How many of the events at these times a bucket lets through.
unfoldable pub passed : SocketBucket → List ℕ → Window → ℕ
passed b [] w = 0
passed b (t ∷ ts) w = counts (charge t b (some w)).1 + passed b ts (charge t b (some w)).0

charge_open :
    (b : SocketBucket) (w : Window) (t : ℕ)
    → w.blocked_until ≡ 0
    → w.count ≤ b.limit
    → t < w.reset_at
    → w.reset_at ≤ t + b.block
    → let (w', wait) = charge t b (some w) in
      (w'.reset_at ≡ w.reset_at)
      × (((w'.blocked_until ≡ 0)
            × (w'.count ≤ b.limit)
            × (w'.count ≡ w.count + 1)
            × (counts wait ≡ 1))
          ⊎ ((w.reset_at ≤ w'.blocked_until) × (counts wait ≡ 0)))
unfolding charge
charge_open b w t clear fits before long = ground arith

charge_closed :
    (b : SocketBucket) (w : Window) (t : ℕ)
    → t < w.reset_at
    → w.reset_at ≤ w.blocked_until
    → ((charge t b (some w)).0 ≡ w) × (counts (charge t b (some w)).1 ≡ 0)
unfolding charge
charge_closed b w t before closed = ground arith

-- A closed window lets nothing through before it ends.
passed_closed :
    (b : SocketBucket) (ts : List ℕ) (w : Window)
    → All (λ t. t < w.reset_at) ts
    → w.reset_at ≤ w.blocked_until
    → passed b ts w ≡ 0
unfolding passed
passed_closed b [] w times closed = refl
passed_closed b (t ∷ ts) w (before, times) closed =
    let (same, out) = charge_closed b w t before closed in
    rw (same, passed_closed b ts w times closed) (omega (arith, out))

-- An open one lets through what is left of the limit.
passed_open :
    (b : SocketBucket) (ts : List ℕ) (w : Window) (start end : ℕ)
    → w.reset_at ≡ end
    → end ≤ start + b.block
    → All (λ t. start ≤ t) ts
    → All (λ t. t < end) ts
    → w.blocked_until ≡ 0
    → w.count ≤ b.limit
    → passed b ts w + w.count ≤ b.limit
unfolding passed
passed_open b [] w start end ends long from times clear fits = omega (arith, fits)
passed_open b (t ∷ ts) w start end ends long (after, from) (before, times) clear fits =
    let w' = (charge t b (some w)).0 in
    let (same, next) =
      charge_open b w t clear fits (omega (arith, ends, before))
        (omega (arith, ends, long, after)) in
    elim next [
      | inl (clear', fits', more, one) ↦
          let rest = passed_open b ts w' start end (same ∙ ends) long from times clear' fits' in
          omega (arith, rest, more, one)
      | inr (closed, none_now) ↦
          let rest = passed_closed b ts w' (rw (same, ends) times) (rw same closed) in
          omega (arith, rest, none_now, fits)
    ]

-- Of the events of one user that fall into one window, whatever their times in it, a bucket with a
-- limit of at least one and a block that lasts at least as long as its window lets through no more than
-- its limit, the first one counted.
pub passed_limit :
    (b : SocketBucket) (start : ℕ) (ts : List ℕ)
    → 1 ≤ b.limit
    → b.ttl ≤ b.block
    → All (λ t. start ≤ t) ts
    → All (λ t. t < start + b.ttl) ts
    → counts (charge start b none).1 + passed b ts (charge start b none).0 ≤ b.limit
unfolding charge
passed_limit b start ts some_limit long from times = omega (
  arith,
  passed_open b ts (fresh start b) start (start + b.ttl) refl (omega (arith, long)) from times refl
      some_limit,
)
