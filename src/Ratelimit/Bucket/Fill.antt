-- ===== src/Ratelimit/Bucket/Fill.antt =====
-- When a bucket is full again, and what a request does to it.
use native.Mathlib.Nat.{lt-div-mul-add, div-mul-le_self, mod-add-div'}
use palaestra_mcp_bridge.Common.{
  ℕ, ◌+◌, ◌-◌, ◌*◌, ◌/◌, ◌%◌, ◌≤◌, ◌<◌, ◌≡◌, ◌↔◌, ◌⊎◌, none, some, arith, if◌then◌else◌,
}
use palaestra_mcp_bridge.Ratelimit.Clock.{min, refill_amount, nanos}
use palaestra_mcp_bridge.Ratelimit.Bucket.{
  Bucket, consume, can_consume, refill_for_elapsed, next_full_in,
}

-- `CanConsume` predicts `Consume`: a request is granted exactly when it does, then the bucket
-- loses the amount and nothing else changes; a refused request changes nothing.
pub consume-can_consume :
    (amount : ℕ) (b : Bucket)
    → ((consume amount b).1 ≡ can_consume amount b)
      × ((consume amount b).0.current + (if can_consume amount b then amount else 0) ≡ b.current)
      × ((consume amount b).0 ≡ record b { current = (consume amount b).0.current })
unfolding consume can_consume
consume-can_consume amount b = ground arith

succ_mul : (q r : ℕ) → (q + 1) * r ≡ q * r + r
succ_mul q r = grind arith

mul_mono : (a b r : ℕ) → a ≤ b → a * r ≤ b * r
mul_mono a b r h = grind arith

enough_units : (u r : ℕ) → 0 < r → u ≤ (u * 60 / r + 1) * r / 60
enough_units u r h = omega (arith, lt-div-mul-add {a = u * 60} {b = r} h, succ_mul (u * 60 / r) r)

too_few_units : (s u r : ℕ) → 0 < r → s < u * 60 / r → s * r / 60 < u
too_few_units s u r h k =
    omega (
      arith,
      div-mul-le_self (u * 60) r,
      mul_mono (s + 1) (u * 60 / r) r (omega arith),
      succ_mul s r,
    )

-- The announced number of seconds brings all units just when the division is exact.
exact_units : (u r : ℕ) → 0 < r → (u ≤ u * 60 / r * r / 60) ↔ (u * 60 % r ≡ 0)
exact_units u r h =
    (λ k. omega (arith, mod-add-div' (u * 60) r), λ k. omega (arith, mod-add-div' (u * 60) r))

whole_seconds : (s : ℕ) → s * nanos / nanos ≡ s
whole_seconds s = omega arith

seconds_refill : (last s r : ℕ) → refill_amount (last + s * nanos - last) r ≡ s * r / 60
unfolding refill_amount
seconds_refill last s r = let e : (last + s * nanos - last) / nanos ≡ s = omega arith in rw e

-- The level after a number of whole seconds without calls.
abbrev pub level_after : ℕ → Bucket → ℕ
level_after s b = (refill_for_elapsed (b.last_refill + s * nanos) b).current

level_after_lem :
    (s : ℕ) (b : Bucket)
    → b.current ≤ b.capacity
    → level_after s b ≡ min b.capacity (b.current + s * b.refill_rate / 60)
unfolding refill_for_elapsed
level_after_lem s b h = ground (arith, seconds_refill b.last_refill s b.refill_rate)

announced :
    (b : Bucket) (d : ℕ)
    → b.current < b.capacity
    → next_full_in b ≡ some d
    → (d ≡ (b.capacity - b.current) * 60 / b.refill_rate * nanos) × (0 < b.refill_rate)
unfolding next_full_in
announced b d h e = ground arith

announced_seconds :
    (b : Bucket) (s : ℕ)
    → b.current < b.capacity
    → next_full_in b ≡ some (s * nanos)
    → (s ≡ (b.capacity - b.current) * 60 / b.refill_rate) × (0 < b.refill_rate)
announced_seconds b s h e = let (p, r) = announced b (s * nanos) h e in (omega arith, r)

full_iff :
    (s : ℕ) (b : Bucket)
    → b.current < b.capacity
    → (level_after s b ≡ b.capacity) ↔ (b.capacity - b.current ≤ s * b.refill_rate / 60)
full_iff s b h = let e = level_after_lem s b (omega arith) in (λ k. ground arith, λ k. ground arith)

not_full :
    (t : ℕ) (b : Bucket)
    → b.current < b.capacity
    → t * b.refill_rate / 60 < b.capacity - b.current
    → level_after t b < b.capacity
not_full t b h k = let e = level_after_lem t b (omega arith) in ground arith

-- `NextFullIn` of a bucket that is not full announces a whole number of seconds. Before that
-- instant the bucket is not full, at most one second after it the bucket is full, and at the
-- instant itself it is full exactly when the missing units times 60 divide by the rate.
pub next_full_in_accuracy :
    (b : Bucket) (s : ℕ)
    → b.current < b.capacity
    → next_full_in b ≡ some (s * nanos)
    → ((t : ℕ) → t < s → level_after t b < b.capacity)
      × (level_after (s + 1) b ≡ b.capacity)
      × ((level_after s b ≡ b.capacity) ↔ ((b.capacity - b.current) * 60 % b.refill_rate ≡ 0))
next_full_in_accuracy b s h e =
    let (d, r) = announced_seconds b s h e in
    let u = b.capacity - b.current in
    (
      λ t k. not_full t b h (too_few_units t u b.refill_rate r (omega arith)),
      (full_iff (s + 1) b h).1 (rw d (enough_units u b.refill_rate r)),
      (
        λ k. (exact_units u b.refill_rate r).0 (rw d at ((full_iff s b h).0 k)),
        λ k. (full_iff s b h).1 (rw d ((exact_units u b.refill_rate r).1 k)),
      ),
    )

-- A bucket that is full already needs no time, and the call fails only for a bucket that is not
-- full and never refills.
pub next_full_in_total :
    (b : Bucket)
    → ((next_full_in b ≡ some 0) ⊎ (b.current < b.capacity))
      × ((next_full_in b ≡ none) ↔ ((b.current < b.capacity) × (b.refill_rate ≡ 0)))
unfolding next_full_in
next_full_in_total b = (ground arith, (λ h. ground arith, λ h. ground arith))
