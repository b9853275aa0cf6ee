-- ===== src/Ratelimit/State/Rate.antt =====
-- The rate that a bucket enforces, over any sequence of calls.
use palaestra_mcp_bridge.Common.{
  ℕ, ◌+◌, ◌-◌, ◌*◌, ◌≤◌, ◌<◌, ◌≡◌, arith, List, [], ◌∷◌, All, if◌then◌else◌,
}
use palaestra_mcp_bridge.Ratelimit.Clock.{
  min, refill_amount, nanos, refill_amount-le, refill_amount_zero,
}
use palaestra_mcp_bridge.Ratelimit.State.{
  BucketState, refill, consume, consume-SameBucket, refill-SameBucket,
}

-- The calls of a bucket: at which time, and what they ask for.
pub data Call : Type 0 where
  refills : ℕ → Call
  consumes : ℕ → ℕ → Call

abbrev pub time : Call → ℕ
time (refills now) = now
time (consumes cost now) = now

-- The tokens that a call was granted.
unfoldable pub granted : Call → BucketState → ℕ
unfolding consume
granted (refills now) b = 0
granted (consumes cost now) b = if (consume cost now b).1 then cost else 0

unfoldable pub after : Call → BucketState → BucketState
unfolding consume
after (refills now) b = refill now b
after (consumes cost now) b = (consume cost now b).0

unfoldable pub run : List Call → BucketState → BucketState
unfolding after
run [] b = b
run (c ∷ cs) b = run cs (after c b)

unfoldable pub total_granted : List Call → BucketState → ℕ
unfolding granted after
total_granted [] b = 0
total_granted (c ∷ cs) b = granted c b + total_granted cs (after c b)

abbrev pub budget : ℕ
budget = 60 * nanos

sub_mul : (a b r : ℕ) → b ≤ a → (a - b) * r + b * r ≡ a * r
sub_mul a b r h = grind arith

amount_late : (last now r : ℕ) → now ≤ last → refill_amount (now - last) r ≡ 0
amount_late last now r h = let e : now - last ≡ 0 = omega arith in rw e (refill_amount_zero r)

-- A positive amount needs a clock that went on.
on_time : (last now r : ℕ) → 0 < refill_amount (now - last) r → last ≤ now
on_time last now r h = ground (arith, amount_late last now r)

pay :
    (lv lv' amt gone from to : ℕ)
    → lv' ≤ lv + amt
    → budget * amt ≤ gone
    → gone + from ≡ to
    → budget * lv' + from ≤ budget * lv + to
pay lv lv' amt gone from to h k e = omega arith

-- The tokens gained by a refill are paid for by the time that passes on the bucket's clock.
refill_pays :
    (now : ℕ) (b : BucketState)
    → budget * (refill now b).current_level + b.last_refill_at * b.refill_rate
      ≤ budget * b.current_level + (refill now b).last_refill_at * b.refill_rate
unfolding refill
refill_pays now b =
    let r = b.refill_rate in
    let amt = refill_amount (now - b.last_refill_at) r in
    ground (
      arith,
      on_time b.last_refill_at now r,
      refill_amount-le (now - b.last_refill_at) r,
      sub_mul now b.last_refill_at r,
      pay b.current_level (min b.capacity (b.current_level + amt)) amt
          ((now - b.last_refill_at) * r) (b.last_refill_at * r) (now * r),
    )

-- A call that is granted takes its cost from the level, one that is refused takes nothing.
consume_pays :
    (cost now : ℕ) (b : BucketState)
    → (if (consume cost now b).1 then cost else 0) + (consume cost now b).0.current_level
      ≡ (refill now b).current_level
unfolding consume
consume_pays cost now b = ground arith

consume-last :
    (cost now : ℕ) (b : BucketState)
    → (consume cost now b).0.last_refill_at ≡ (refill now b).last_refill_at
unfolding consume
consume-last cost now b = ground arith

call_pays :
    (c : Call) (b : BucketState)
    → budget * (granted c b + (after c b).current_level) + b.last_refill_at * b.refill_rate
      ≤ budget * b.current_level + (after c b).last_refill_at * b.refill_rate
unfolding granted after
call_pays (refills now) b = omega (arith, refill_pays now b)
call_pays (consumes cost now) b =
    rw (consume_pays cost now b, consume-last cost now b) (refill_pays now b)

after-rate : (c : Call) (b : BucketState) → (after c b).refill_rate ≡ b.refill_rate
unfolding after
after-rate (refills now) b = (refill-SameBucket now b).rate
after-rate (consumes cost now) b = (consume-SameBucket cost now b).rate

-- The token bucket's promise. Over any sequence of refills and requests, at whatever times, in
-- units of a token for 60 seconds of a rate of one: what is granted, with what is left, is at most
-- what was there, with the refill rate times the time that the bucket's clock advanced.
pub granted_bound :
    (cs : List Call) (b : BucketState)
    → budget * (total_granted cs b + (run cs b).current_level) + b.last_refill_at * b.refill_rate
      ≤ budget * b.current_level + (run cs b).last_refill_at * b.refill_rate
unfolding total_granted run
granted_bound [] b = omega arith
granted_bound (c ∷ cs) b =
    let ih = rw (after-rate c b) at (granted_bound cs (after c b)) in
    omega (arith, call_pays c b, ih)

abbrev Before : ℕ → List Call → Type 0
Before end = All (λ c. time c ≤ end)

after-last :
    (end : ℕ) (c : Call) (b : BucketState)
    → time c ≤ end
    → b.last_refill_at ≤ end
    → (after c b).last_refill_at ≤ end
unfolding after refill
after-last end (refills now) b h k = ground arith
after-last end (consumes cost now) b h k = rw (consume-last cost now b) (ground arith)

pub run-last :
    (end : ℕ) (cs : List Call) (b : BucketState)
    → All (λ c. time c ≤ end) cs
    → b.last_refill_at ≤ end
    → (run cs b).last_refill_at ≤ end
unfolding run
run-last end [] b h k = k
run-last end (c ∷ cs) b h k = run-last end cs (after c b) h.1 (after-last end c b h.0 k)

mul_mono : (a b r : ℕ) → a ≤ b → a * r ≤ b * r
mul_mono a b r h = grind arith

window :
    (x y from to end r : ℕ)
    → x + from * r ≤ y + to * r
    → to ≤ end
    → from ≤ end
    → x ≤ y + (end - from) * r
window x y from to end r h k l = omega (arith, mul_mono to end r k, sub_mul end from r l)

-- In any window of time that starts at the bucket's last refill, a user is granted at most the
-- tokens there at its start and `refill_rate` for each minute of the window, if the calls and the
-- refills of the bucket run one after the other, and none resets or loads it.
pub rate_limit :
    (end : ℕ) (cs : List Call) (b : BucketState)
    → All (λ c. time c ≤ end) cs
    → b.last_refill_at ≤ end
    → budget * total_granted cs b
      ≤ budget * b.current_level + (end - b.last_refill_at) * b.refill_rate
rate_limit end cs b h k =
    window (budget * total_granted cs b) (budget * b.current_level) b.last_refill_at
      (run cs b).last_refill_at end b.refill_rate (omega (arith, granted_bound cs b))
      (run-last end cs b h k) k
