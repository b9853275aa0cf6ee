-- ===== src/Ratelimit/Manager.antt =====
-- ratelimit/ratelimit.go, `BucketManager` and the `RateLimitManager` that wraps it: the buckets of
-- all users and backends by a joined key, the configuration of each backend, and the personal
-- configurations. The source returns pointers to the buckets in the map; a change through such a
-- pointer is a write at its key here. One reading of the clock for each call.
mod Keys
pub mod Steps
pub mod Check
pub mod Limits
pub mod Personal
pub mod Config
pub mod States
pub use Keys.{bucket_key-type, bucket_key-ne}
unfoldable pub use Keys.{bucket_key, config_key}
use palaestra_mcp_bridge.Common.{
  ℕ, ◌≡◌, String, Bool, true, false, Option, none, some, List, [], ◌∷◌, ◌==◌, ◌||◌, if◌then◌else◌,
  map,
}
use palaestra_mcp_bridge.Common.Dict.{Dict, lookup, insert, remove}
use palaestra_mcp_bridge.Ratelimit.State
use palaestra_mcp_bridge.Ratelimit.State.{BucketState}
use text.Mathlib.Text.{starts_with}
use Prim.Native.String.{◌++◌ as append}

pub record BucketConfig : Type 0 where
  pub capacity : ℕ
  pub refill_rate : ℕ

pub record UserBucketConfig : Type 0 where
  pub user_id : String
  pub backend_id : String
  pub risk_capacity : ℕ
  pub risk_refill : ℕ
  pub res_capacity : ℕ
  pub res_refill : ℕ
  pub cost_multiplier : ℕ

pub record BucketManager : Type 0 where
  pub buckets : Dict BucketState
  pub config : Dict BucketConfig
  pub user_configs : Dict UserBucketConfig

abbrev pub new_bucket_manager : BucketManager
new_bucket_manager = record { buckets = []; config = []; user_configs = [] }

-- `SetConfig`
unfoldable pub set_config : String → String → ℕ → ℕ → BucketManager → BucketManager
set_config backend type capacity rate m = record m {
  config =
      insert (config_key backend type) (record { capacity = capacity; refill_rate = rate })
        m.config;
}

-- `GetConfig`
unfoldable pub get_config : String → String → BucketManager → Option BucketConfig
get_config backend type m = lookup (config_key backend type) m.config

abbrev default_config : BucketConfig
default_config = record { capacity = 100; refill_rate = 20 }

abbrev or_default : Option BucketConfig → BucketConfig
or_default none = default_config
or_default (some c) = c

-- The bucket that `GetOrCreate` makes for a key that is not there.
unfoldable pub fresh_bucket : String → String → String → ℕ → BucketManager → BucketState
unfolding get_config
fresh_bucket user backend type now m =
    let cfg = or_default (get_config backend type m) in
    record {
      user_id = user;
      backend_id = backend;
      bucket_type = type;
      capacity = cfg.capacity;
      refill_rate = cfg.refill_rate;
      current_level = cfg.capacity;
      last_refill_at = now;
    }

-- `GetOrCreate`
unfoldable pub get_or_create :
    String → String → String → ℕ → BucketManager → BucketState × BucketManager
unfolding fresh_bucket
get_or_create user backend type now m =
    let key = bucket_key user backend type in
    elim (lookup key m.buckets) [
      | some b ↦ (b, m)
      | none ↦
          let b = fresh_bucket user backend type now m in
          (b, record m { buckets = insert key b m.buckets })
    ]

-- `Consume` through the pointer to the bucket at a key.
unfoldable pub consume_at : String → ℕ → ℕ → BucketManager → Bool × BucketManager
consume_at key cost now m = elim (lookup key m.buckets) [
  | none ↦ (false, m)
  | some b ↦
      let (b', allowed) = State.consume cost now b in
      (allowed, record m { buckets = insert key b' m.buckets })
]

-- `CheckAndConsume`: the risk bucket first, and then the resource bucket, whatever the first says.
unfoldable pub check_and_consume :
    String → String → ℕ → ℕ → ℕ → BucketManager → (Bool × Bool) × BucketManager
check_and_consume user backend risk_cost resource_cost now m =
    let (_, m₁) = get_or_create user backend "risk" now m in
    let (_, m₂) = get_or_create user backend "resource" now m₁ in
    let (risk_allowed, m₃) = consume_at (bucket_key user backend "risk") risk_cost now m₂ in
    let (resource_allowed, m₄) =
      consume_at (bucket_key user backend "resource") resource_cost now m₃ in
    ((risk_allowed, resource_allowed), m₄)

-- `GetStatus`: the two buckets, where they exist.
unfoldable pub get_status :
    String → String → BucketManager → Option BucketState × Option BucketState
get_status user backend m = (
  lookup (bucket_key user backend "risk") m.buckets,
  lookup (bucket_key user backend "resource") m.buckets,
)

unfoldable pub map_values {ℓ} : {V : Type ℓ} → (String → V → V) → Dict V → Dict V
map_values f [] = []
map_values f ((k, v) ∷ m) = (k, f k v) ∷ map_values f m

-- `RefillAll`
unfoldable pub refill_all : ℕ → BucketManager → BucketManager
unfolding map_values
refill_all now m = record m { buckets = map_values (λ _ b. State.refill now b) m.buckets }

abbrev pub values {ℓ} : {V : Type ℓ} → Dict V → List V
values [] = []
values ((k, v) ∷ m) = v ∷ values m

-- `GetAllBuckets`
unfoldable pub get_all_buckets : BucketManager → List BucketState
get_all_buckets m = values m.buckets

abbrev pub reset_prefix : String → String → String
reset_prefix user backend =
    if backend == "" then append user ":" else append user (append ":" (append backend ":"))

-- `ResetUserBuckets`; `hasPrefix` is the library's `starts_with`.
unfoldable pub reset_user_buckets : String → String → ℕ → BucketManager → BucketManager
unfolding map_values
reset_user_buckets user backend now m = record m {
  buckets =
      map_values
        (λ key b.
          if starts_with key (reset_prefix user backend)
          then record b { current_level = b.capacity; last_refill_at = now }
          else b)
        m.buckets;
}

-- `SetUserConfig`, `GetUserConfig`, `DeleteUserConfig`
unfoldable pub set_user_config : UserBucketConfig → BucketManager → BucketManager
set_user_config cfg m = record m {
  user_configs = insert (config_key cfg.user_id cfg.backend_id) cfg m.user_configs;
}

unfoldable pub get_user_config : String → String → BucketManager → Option UserBucketConfig
get_user_config user backend m = lookup (config_key user backend) m.user_configs

unfoldable pub delete_user_config : String → String → BucketManager → BucketManager
delete_user_config user backend m = record m {
  user_configs = remove (config_key user backend) m.user_configs;
}
