-- ===== src/Ratelimit/Bucket.antt =====
-- ratelimit/ratelimit.go, `Bucket`: the bucket behind a lock. Each method runs under the lock, so
-- it is one step; time is an argument.
pub mod Fill
use palaestra_mcp_bridge.Common.{
  ℕ, ◌+◌, ◌-◌, ◌*◌, ◌/◌, ◌≤◌, Bool, true, false, Option, none, some, leb, ltb, eqb, if◌then◌else◌,
}
use palaestra_mcp_bridge.Ratelimit.Clock.{min, refill_amount, nanos}

pub record Bucket : Type 0 where
  pub capacity : ℕ
  pub refill_rate : ℕ
  pub current : ℕ
  pub last_refill : ℕ

unfoldable pub new_bucket : ℕ → ℕ → ℕ → Bucket
new_bucket capacity rate now = record {
  capacity = capacity;
  refill_rate = rate;
  current = capacity;
  last_refill = now;
}

unfoldable pub refill : ℕ → ℕ → Bucket → Bucket
refill amount now b = record b { current = min b.capacity (b.current + amount); last_refill = now }

unfoldable pub refill_for_elapsed : ℕ → Bucket → Bucket
refill_for_elapsed now b =
    let amount = refill_amount (now - b.last_refill) b.refill_rate in
    if ltb 0 amount
    then record b { current = min b.capacity (b.current + amount); last_refill = now }
    else b

unfoldable pub consume : ℕ → Bucket → Bucket × Bool
consume amount b =
    if ltb b.current amount then (b, false) else (record b { current = b.current - amount }, true)

unfoldable pub can_consume : ℕ → Bucket → Bool
can_consume amount b = leb amount b.current

-- The division panics at a rate of 0: `none`.
unfoldable pub next_full_in : Bucket → Option ℕ
next_full_in b =
    if leb b.capacity b.current
    then some 0
    else if eqb b.refill_rate 0
    then none
    else some ((b.capacity - b.current) * 60 / b.refill_rate * nanos)
