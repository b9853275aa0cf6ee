-- ===== src/Enforcer/Personal.antt =====
-- enforcer/enforcer.go: `SetUserRateLimitOverride` and `GetEffectiveBucketConfig`, a user's own
-- rate limits, with the table of store/enforcer_store.go. The columns that only identify a row or
-- its author are left out of the table's key, which is the user and the backend.
pub mod Ceiling
pub mod Tests
use palaestra_mcp_bridge.Common.{
  ℕ, ◌*◌, String, Bool, true, false, ◌&&◌, ◌||◌, Option, none, some, List, [], ◌∷◌, ◌==◌, ltb, eqb,
  if◌then◌else◌,
}
use palaestra_mcp_bridge.Ratelimit.Manager.{
  BucketManager, UserBucketConfig, set_user_config, get_user_config,
}
use palaestra_mcp_bridge.Ratelimit.Manager.Config.{DefaultConfig, get_default_config}

pub record UserRateLimitOverrideRow : Type 0 where
  pub id : String
  pub user_id : String
  pub backend_id : String
  pub set_by : String
  pub risk_capacity : ℕ
  pub resource_capacity : ℕ
  pub cost_multiplier : ℕ

abbrev or_text : String → String → String
or_text own other = if own == "" then other else own

-- The row with the defaults for an empty id, from a new uuid, and an empty author.
unfoldable pub completed_override : String → UserRateLimitOverrideRow → UserRateLimitOverrideRow
completed_override uuid o = record o { id = or_text o.id uuid; set_by = or_text o.set_by "user" }

unfoldable pub upsert_row :
    UserRateLimitOverrideRow → List UserRateLimitOverrideRow → List UserRateLimitOverrideRow
upsert_row o [] = o ∷ []
upsert_row o (r ∷ rs) =
    let rest = upsert_row o rs in
    if r.user_id == o.user_id && (r.backend_id == o.backend_id && r.set_by == o.set_by)
    then record r {
      risk_capacity = o.risk_capacity;
      resource_capacity = o.resource_capacity;
      cost_multiplier = o.cost_multiplier;
    }
      ∷ rs
    else r ∷ rest

-- `UpsertUserRateLimitOverride`
unfoldable pub upsert_user_rate_limit_override :
    String
    → UserRateLimitOverrideRow
    → List UserRateLimitOverrideRow
    → List UserRateLimitOverrideRow
unfolding upsert_row completed_override
upsert_user_rate_limit_override uuid o rows = upsert_row (completed_override uuid o) rows

abbrev pub or_global : ℕ → ℕ → ℕ
or_global own global = if eqb own 0 then global else own

-- Whether the override stays below the limits of the backend: the test of the code, negated.
unfoldable pub too_permissive : DefaultConfig → UserRateLimitOverrideRow → Bool
too_permissive global o =
    let mult = or_global o.cost_multiplier 1 in
    ltb global.risk_capacity (or_global o.risk_capacity global.risk_capacity * mult)
    || ltb global.resource_capacity (or_global o.resource_capacity global.resource_capacity * mult)

-- `SetUserRateLimitOverride`: whether there was no error, the table and the manager.
unfoldable pub set_user_rate_limit_override :
    String
    → UserRateLimitOverrideRow
    → List UserRateLimitOverrideRow
    → BucketManager
    → Bool × List UserRateLimitOverrideRow × BucketManager
unfolding too_permissive upsert_user_rate_limit_override
set_user_rate_limit_override uuid o rows m =
    if too_permissive (get_default_config o.backend_id m) o then (false, rows, m) else (
      true,
      upsert_user_rate_limit_override uuid o rows,
      set_user_config
          (record {
            user_id = o.user_id;
            backend_id = o.backend_id;
            risk_capacity = o.risk_capacity;
            risk_refill = 0;
            res_capacity = o.resource_capacity;
            res_refill = 0;
            cost_multiplier = o.cost_multiplier;
          })
          m,
    )

abbrev five : Option UserBucketConfig → ℕ × ℕ × ℕ × ℕ × ℕ
five none = (0, 0, 0, 0, 0)
five (some c) = (c.risk_capacity, c.risk_refill, c.res_capacity, c.res_refill, c.cost_multiplier)

-- `GetEffectiveBucketConfig`
unfoldable pub get_effective_bucket_config : String → String → BucketManager → ℕ × ℕ × ℕ × ℕ × ℕ
get_effective_bucket_config user backend m = five (get_user_config user backend m)
