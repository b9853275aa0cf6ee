-- ===== src/Ratelimit/State.antt =====
-- ratelimit/ratelimit.go, `BucketState`: a token bucket that refills when it is asked. Time is an
-- argument: one reading of the clock for each call. The code takes no lock here, so that this is what
-- the methods do when no other one runs on the same bucket.
pub mod Rate
use palaestra_mcp_bridge.Common.{
  ℕ, ◌+◌, ◌-◌, ◌*◌, ◌≤◌, ◌<◌, String, ◌≡◌, refl, ◌⊎◌, inl, inr, Bool, true, false, arith, ltb, leb,
  if◌then◌else◌, Bool-cases,
}
use palaestra_mcp_bridge.Ratelimit.Clock.{min, refill_amount, nanos, refill_amount-le}

pub record BucketState : Type 0 where
  pub user_id : String
  pub backend_id : String
  pub bucket_type : String
  pub capacity : ℕ
  pub refill_rate : ℕ
  pub current_level : ℕ
  pub last_refill_at : ℕ

unfoldable pub new_bucket_state : String → String → String → ℕ → ℕ → ℕ → BucketState
new_bucket_state user backend type capacity rate now = record {
  user_id = user;
  backend_id = backend;
  bucket_type = type;
  capacity = capacity;
  refill_rate = rate;
  current_level = capacity;
  last_refill_at = now;
}

unfoldable pub refill : ℕ → BucketState → BucketState
refill now b =
    let amount = refill_amount (now - b.last_refill_at) b.refill_rate in
    if ltb 0 amount
    then record b {
      current_level = min b.capacity (b.current_level + amount);
      last_refill_at = now;
    }
    else b

-- The test refills first.
unfoldable pub can_consume : ℕ → ℕ → BucketState → BucketState × Bool
can_consume cost now b = let b' = refill now b in (b', leb cost b'.current_level)

unfoldable pub consume : ℕ → ℕ → BucketState → BucketState × Bool
unfolding can_consume
consume cost now b =
    let (b', fits) = can_consume cost now b in
    if fits then (record b' { current_level = b'.current_level - cost }, true) else (b', false)

-- The level never passes the capacity.
abbrev pub IsWithin : BucketState → Type 0
IsWithin b = b.current_level ≤ b.capacity

pub refill-IsWithin : (now : ℕ) (b : BucketState) → IsWithin b → IsWithin (refill now b)
unfolding refill
refill-IsWithin now b h = ground arith

pub consume-IsWithin :
    (cost now : ℕ) (b : BucketState) → IsWithin b → IsWithin (consume cost now b).0
unfolding consume
consume-IsWithin cost now b h = ground (arith, refill-IsWithin now b)

-- What identifies and configures a bucket stays.
pub record SameBucket (b c : BucketState) : Type 0 where
  pub user : c.user_id ≡ b.user_id
  pub backend : c.backend_id ≡ b.backend_id
  pub type : c.bucket_type ≡ b.bucket_type
  pub capacity : c.capacity ≡ b.capacity
  pub rate : c.refill_rate ≡ b.refill_rate

pub refill-SameBucket : (now : ℕ) (b : BucketState) → SameBucket b (refill now b)
unfolding refill
refill-SameBucket now b = ground arith

pub consume-SameBucket : (cost now : ℕ) (b : BucketState) → SameBucket b (consume cost now b).0
unfolding consume refill
consume-SameBucket cost now b = ground arith
