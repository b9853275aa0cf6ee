-- ===== src/Enforcer/Engine/Tests.antt =====
-- Runs of the engine and its theorems on concrete policies.
use palaestra_mcp_bridge.Common.{
  ◌≡◌, String, true, false, none, some, List, [], ◌∷◌, ◌==◌, if◌then◌else◌, ◌≤◌, All,
}
use palaestra_mcp_bridge.Common.Dict.{lookup}
use palaestra_mcp_bridge.Enforcer.Types.{
  CelPolicy, DecisionContext, no_profile, BucketStatus, Action,
}
use palaestra_mcp_bridge.Enforcer.Types.Actions.{
  ActionSets, no_actions, register_user_approval_action, register_deny_action,
}
use palaestra_mcp_bridge.Enforcer.Engine.{Cel, CelEngine, value, evaluate}
use palaestra_mcp_bridge.Enforcer.Engine.Rank.{rank}
use palaestra_mcp_bridge.Enforcer.Engine.Restrictive.{
  IsFrom, Matches, policy_decision, evaluate_most_restrictive,
}
use palaestra_mcp_bridge.Enforcer.Engine.Reload.{delete_policy, delete_policy_keeps}

-- Expressions that name a tool, and match the calls of it.
abbrev tool_cel : Cel
tool_cel = record {
  Program = String;
  compile = λ text. if text == "" then none else some text;
  eval = λ tool ctx. value (tool == ctx.tool);
}

abbrev no_tokens : BucketStatus
no_tokens = record { available = 0; capacity = 0; refill_rate = 0 }

abbrev drop_call : DecisionContext
drop_call = record {
  user_id = "u1";
  user_role = "user";
  user_email = "u1@example.org";
  trust_level = 50;
  tool = "drop_table";
  args = "{}";
  justification = "cleaning up";
  safety = no_profile;
  call_rate = 1;
  backend_id = "oracle";
  rate_limit = record { risk_bucket = no_tokens; resource_bucket = no_tokens };
  request_body = "";
}

abbrev tool_policy : String → String → Action → CelPolicy
tool_policy id tool action = record {
  id = id;
  description = "";
  expression = tool;
  action = action;
  message = "by policy";
  severity = "HIGH";
  enabled = true;
  priority = 10;
  dispositions = some (("risk_limit", "DENY") ∷ []);
}

abbrev two_policies : CelEngine String
two_policies = record {
  programs = ("p1", "drop_table") ∷ ("p2", "drop_table") ∷ [];
  policies =
      ("p1", tool_policy "p1" "drop_table" "DENY")
      ∷ ("p2", tool_policy "p2" "drop_table" "WARN")
      ∷ [];
  dispositions =
      ("risk_limit", record { priority = 10; action = "DENY"; message = "by policy" } ∷ []) ∷ [];
}

evaluate_most_restrictive_example :
    IsFrom tool_cel drop_call 7 two_policies (evaluate tool_cel drop_call 7 two_policies)
    × ((id : String)
        → Matches tool_cel drop_call 7 two_policies id
        → rank (policy_decision tool_cel drop_call 7 two_policies id)
          ≤ rank (evaluate tool_cel drop_call 7 two_policies))
evaluate_most_restrictive_example = evaluate_most_restrictive tool_cel drop_call 7 two_policies

abbrev stored : List CelPolicy
stored = tool_policy "p1" "drop_table" "DENY" ∷ tool_policy "p2" "drop_table" "WARN" ∷ []

delete_policy_keeps_example :
    All (λ p. (p.id == "p1") ≡ false) (delete_policy tool_cel "p1" (stored, two_policies)).0
    × (lookup "p1" (delete_policy tool_cel "p1" (stored, two_policies)).1.programs
        ≡ lookup "p1" two_policies.programs)
    × (lookup "p1" (delete_policy tool_cel "p1" (stored, two_policies)).1.policies
        ≡ lookup "p1" two_policies.policies)
delete_policy_keeps_example = delete_policy_keeps tool_cel "p1" stored two_policies

abbrev disabled : CelPolicy
disabled = record (tool_policy "p1" "drop_table" "DENY") { enabled = false }

abbrev two_registered : ActionSets
two_registered = register_deny_action "BLOCK" (register_user_approval_action "ASK_OWNER" no_actions)
