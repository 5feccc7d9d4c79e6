-- ===== src/Throttle/Blocking.antt =====
-- How long a bucket refuses (backend/src/messaging/socket-throttle.ts).
use vfw.Prelude.{ℕ, ◌+◌, ◌-◌, ◌≤◌, ◌<◌, ◌≡◌, none, some, arith}
use vfw.Throttle.{SocketBucket, Window, fresh, charge}

-- A bucket with a block of at least a millisecond that refuses an event names the wait: an event before
-- that is over is refused with what is left of it and changes nothing, and the first one at its end, or
-- after, passes in a new window.
pub charge_block :
    (b : SocketBucket) (w : Window) (now later early wait : ℕ)
    → (charge now b (some w)).1 ≡ some wait
    → now + wait ≤ later
    → early < now + wait
    → 1 ≤ b.block
    → let w' = (charge now b (some w)).0 in
      (charge early b (some w') ≡ (w', some (now + wait - early)))
      × (charge later b (some w') ≡ (fresh later b, none))
unfolding charge
charge_block b w now later early wait refused after before real = ground arith
