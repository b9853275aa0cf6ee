-- ===== src/Ratelimit/Tests.antt =====
-- The theorems about ratelimit/ratelimit.go at concrete inputs, and runs of its functions.
use palaestra_mcp_bridge.Common.{
  ℕ, ◌+◌, ◌-◌, ◌*◌, ◌≤◌, ◌<◌, ◌≡◌, refl, ◌↔◌, ◌⊎◌, none, some, List, [], ◌∷◌, arith, ◌==◌,
  if◌then◌else◌,
}
use palaestra_mcp_bridge.Common.Dict.{lookup}
use palaestra_mcp_bridge.Ratelimit.Clock.{nanos, refill_amount}
use palaestra_mcp_bridge.Ratelimit.Bucket.{Bucket, consume, can_consume, next_full_in}
use palaestra_mcp_bridge.Ratelimit.Bucket.Fill.{next_full_in_total, consume-can_consume}
use palaestra_mcp_bridge.Ratelimit.State
use palaestra_mcp_bridge.Ratelimit.State.{BucketState}
use palaestra_mcp_bridge.Ratelimit.State.Rate.{
  Call, consumes, refills, total_granted, rate_limit, budget,
}
use palaestra_mcp_bridge.Ratelimit.Manager.{
  BucketManager, UserBucketConfig, new_bucket_manager, bucket_key, config_key, check_and_consume,
  set_user_config, get_user_config, delete_user_config,
}
use palaestra_mcp_bridge.Ratelimit.Manager.Check.{check_and_consume_lem, covers, charged}
use palaestra_mcp_bridge.Ratelimit.Manager.Steps.{bucket_of}
use palaestra_mcp_bridge.Ratelimit.Manager.States.{BucketStateForDb, load_state}
use palaestra_mcp_bridge.Ratelimit.Manager.{get_or_create, fresh_bucket, check_and_consume}
use palaestra_mcp_bridge.Common.Dict.{lookup}
use palaestra_mcp_bridge.Ratelimit.Manager.Limits.{
  Operation, apply, started, stepped, loaded, WellFormed, Reachable-WellFormed,
}
use palaestra_mcp_bridge.Ratelimit.Manager.Personal.{get_user_config_after}
use palaestra_mcp_bridge.Ratelimit.Manager.Config.{set_default_config}

-- Two minutes after its refill, a bucket of 10 units at 6 a minute.
abbrev slow_bucket : BucketState
slow_bucket = record {
  user_id = "u";
  backend_id = "slack";
  bucket_type = "risk";
  capacity = 10;
  refill_rate = 6;
  current_level = 3;
  last_refill_at = 0;
}

abbrev requests : List Call
requests = consumes 5 (10 * nanos) ∷ refills (20 * nanos) ∷ consumes 2 (60 * nanos) ∷ []

granted_two : total_granted requests slow_bucket ≡ 2
unfolding total_granted State.consume State.refill refill_amount
granted_two = refl

rate_limit_example :
    budget * total_granted requests slow_bucket ≤ budget * 3 + (120 * nanos - 0) * 6
rate_limit_example = rate_limit (120 * nanos) requests slow_bucket (omega arith) (omega arith)

-- A bucket that lacks one unit, at 7 units a minute: 8 seconds are announced, 9 are needed.
abbrev sevens : Bucket
sevens = record { capacity = 10; refill_rate = 7; current = 9; last_refill = 0 }

announced_eight : next_full_in sevens ≡ some (8 * nanos)
unfolding next_full_in
announced_eight = refl

next_full_in_total_example :
    ((next_full_in sevens ≡ some 0) ⊎ (9 < 10))
    × ((next_full_in sevens ≡ none) ↔ ((9 < 10) × (◌≡◌ {A = ℕ} 7 0)))
next_full_in_total_example = next_full_in_total sevens

consume-can_consume_example :
    ((consume 4 sevens).1 ≡ can_consume 4 sevens)
    × ((consume 4 sevens).0.current + (if can_consume 4 sevens then 4 else 0) ≡ 9)
    × ((consume 4 sevens).0 ≡ record sevens { current = (consume 4 sevens).0.current })
consume-can_consume_example = consume-can_consume 4 sevens

-- The limits of `SetDefaultRateLimits` for one backend.
abbrev oracle : BucketManager
oracle = set_default_config "oracle" 50 10 100 20 new_bucket_manager

check_and_consume_lem_example :
    let (answers, m') = check_and_consume "u" "oracle" 60 5 nanos oracle in
    let risk = bucket_of "u" "oracle" "risk" nanos oracle in
    let resource = bucket_of "u" "oracle" "resource" nanos oracle in
    (answers ≡ (covers 60 nanos risk, covers 5 nanos resource))
    × (lookup "u:oracle:risk" m'.buckets ≡ (
        if bucket_key "u" "oracle" "resource" == "u:oracle:risk"
        then some (charged 5 nanos resource)
        else if bucket_key "u" "oracle" "risk" == "u:oracle:risk"
        then some (charged 60 nanos risk)
        else lookup "u:oracle:risk" oracle.buckets))
    × (m'.config ≡ oracle.config)
    × (m'.user_configs ≡ oracle.user_configs)
check_and_consume_lem_example = check_and_consume_lem "u" "oracle" 60 5 nanos oracle "u:oracle:risk"

abbrev saved : BucketStateForDb
saved = record {
  user_id = "u";
  backend_id = "slack";
  bucket_type = "risk";
  current_level = 1;
  capacity = 10;
  refill_rate = 6;
  last_refill_at = 0;
}

abbrev restored : BucketManager
restored = load_state nanos saved new_bucket_manager

-- A saved state is loaded, and a call follows.
Reachable-WellFormed_example : WellFormed (apply nanos (Operation.checks "u" "slack" 20 5) restored)
unfolding get_or_create fresh_bucket lookup
Reachable-WellFormed_example =
    Reachable-WellFormed
      (stepped nanos (Operation.checks "u" "slack" 20 5) (loaded nanos saved (omega arith) started))

abbrev held : BucketManager
held = record new_bucket_manager { buckets = ("u:slack:risk", slow_bucket) ∷ [] }

abbrev tightened : UserBucketConfig
tightened = record {
  user_id = "u";
  backend_id = "oracle";
  risk_capacity = 1;
  risk_refill = 0;
  res_capacity = 1;
  res_refill = 0;
  cost_multiplier = 9;
}

get_user_config_after_example :
    (get_user_config "u" "oracle" (set_user_config tightened oracle) ≡ (
      if config_key "u" "oracle" == config_key "u" "oracle"
      then some tightened
      else get_user_config "u" "oracle" oracle))
    × (get_user_config "u" "oracle"
          (delete_user_config "u" "oracle" (set_user_config tightened oracle))
        ≡ none)
get_user_config_after_example = get_user_config_after tightened "u" "oracle" oracle
