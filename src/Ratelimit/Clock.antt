-- ===== src/Ratelimit/Clock.antt =====
-- Times and durations: naturals of nanoseconds. `time.Since` of a later instant is negative in the
-- source and 0 here; both lead to a refill of nothing.
use palaestra_mcp_bridge.Common.{ℕ, ◌*◌, ◌/◌, ◌≤◌, ◌≡◌, arith, ltb, if◌then◌else◌}

abbrev pub nanos : ℕ
nanos = 1_000_000_000

-- The `min` of ratelimit.go.
abbrev pub min : ℕ → ℕ → ℕ
min a b = if ltb a b then a else b

-- `int(elapsed.Seconds()) * refillRate / 60`
unfoldable pub refill_amount : ℕ → ℕ → ℕ
refill_amount elapsed rate = elapsed / nanos * rate / 60

pub refill_amount_zero : (rate : ℕ) → refill_amount 0 rate ≡ 0
unfolding refill_amount
refill_amount_zero rate = grind arith

seconds_le : (e : ℕ) → nanos * (e / nanos) ≤ e
seconds_le e = omega arith

mul_mono : (a b r : ℕ) → a ≤ b → a * r ≤ b * r
mul_mono a b r h = grind arith

-- 60 minutes' worth of what is added never exceeds the rate times the time that went by.
pub refill_amount-le : (e r : ℕ) → 60 * nanos * refill_amount e r ≤ e * r
unfolding refill_amount
refill_amount-le e r = let h = mul_mono (nanos * (e / nanos)) e r (seconds_le e) in grind arith
