-- ===== src/Ratelimit/Manager/Personal.antt =====
-- The personal configurations, and what they are used for.
use palaestra_mcp_bridge.Common.{ℕ, ◌≡◌, String, none, some, arith, ◌==◌, eq_refl, if◌then◌else◌}
use palaestra_mcp_bridge.Common.Dict.{lookup-insert, lookup-remove}
use palaestra_mcp_bridge.Ratelimit.Manager.{
  BucketManager, UserBucketConfig, config_key, set_user_config, get_user_config, delete_user_config,
  check_and_consume, get_or_create, fresh_bucket, get_config, consume_at,
}

-- A personal configuration is read back after it was set, until it is deleted; the keys that
-- differ from its own keep theirs.
pub get_user_config_after :
    (cfg : UserBucketConfig) (u b : String) (m : BucketManager)
    → (get_user_config u b (set_user_config cfg m) ≡ (
        if config_key cfg.user_id cfg.backend_id == config_key u b
        then some cfg
        else get_user_config u b m))
      × (get_user_config cfg.user_id cfg.backend_id
            (delete_user_config cfg.user_id cfg.backend_id (set_user_config cfg m))
          ≡ none)
unfolding get_user_config set_user_config delete_user_config
get_user_config_after cfg u b m = (
  lookup-insert (config_key cfg.user_id cfg.backend_id) (config_key u b) cfg m.user_configs,
  simp (lookup-remove, eq_refl),
)

get_or_create-personal :
    (u b t : String) (now : ℕ) (cfg : UserBucketConfig) (m : BucketManager)
    → get_or_create u b t now (set_user_config cfg m)
      ≡ ((get_or_create u b t now m).0, set_user_config cfg (get_or_create u b t now m).1)
unfolding get_or_create set_user_config fresh_bucket get_config
get_or_create-personal u b t now cfg m = ground arith

consume_at-personal :
    (k : String) (cost now : ℕ) (cfg : UserBucketConfig) (m : BucketManager)
    → consume_at k cost now (set_user_config cfg m)
      ≡ ((consume_at k cost now m).0, set_user_config cfg (consume_at k cost now m).1)
unfolding consume_at set_user_config
consume_at-personal k cost now cfg m = ground arith

-- Setting a personal configuration never changes what a call is answered, nor the buckets that it
-- leaves: `CheckAndConsume` does not read the personal configurations.
pub check_and_consume_ignores_personal :
    (cfg : UserBucketConfig) (u b : String) (rc sc now : ℕ) (m : BucketManager)
    → check_and_consume u b rc sc now (set_user_config cfg m) ≡ (
      (check_and_consume u b rc sc now m).0,
      set_user_config cfg (check_and_consume u b rc sc now m).1,
    )
unfolding check_and_consume
check_and_consume_ignores_personal cfg u b rc sc now m =
    simp (get_or_create-personal, consume_at-personal)
