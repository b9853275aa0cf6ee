-- ===== src/Enforcer/Personal/Tests.antt =====
-- A run of the personal rate limits.
use palaestra_mcp_bridge.Ratelimit.Manager.{BucketManager, new_bucket_manager}
use palaestra_mcp_bridge.Ratelimit.Manager.Config.{set_default_config}
use palaestra_mcp_bridge.Enforcer.Personal.{UserRateLimitOverrideRow}

abbrev tighter : UserRateLimitOverrideRow
tighter = record {
  id = "";
  user_id = "u1";
  backend_id = "oracle";
  set_by = "";
  risk_capacity = 20;
  resource_capacity = 50;
  cost_multiplier = 2;
}

abbrev oracle_limits : BucketManager
oracle_limits = set_default_config "oracle" 50 10 100 20 new_bucket_manager
