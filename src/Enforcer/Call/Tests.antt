-- ===== src/Enforcer/Call/Tests.antt =====
-- Runs of calls and their theorems on a concrete enforcer.
use palaestra_mcp_bridge.Common.{
  ◌≡◌, refl, String, true, false, ◌&&◌, not, none, some, [], ◌∷◌, ◌==◌, inl, if◌then◌else◌, length,
}
use palaestra_mcp_bridge.Common.Dict.{lookup, insert}
use palaestra_mcp_bridge.Ratelimit.Manager.{
  new_bucket_manager, check_and_consume, get_or_create, fresh_bucket, consume_at, get_config,
  get_status, bucket_key,
}
use palaestra_mcp_bridge.Ratelimit.Manager.States.{get_bucket_status}
use palaestra_mcp_bridge.Ratelimit.Cost.{calculate_cost, is_risk_scoped, get_risk_multiplier}
use palaestra_mcp_bridge.Ratelimit.State.{consume, refill}
use palaestra_mcp_bridge.Enforcer.Types.{EnforcerConfig, CelPolicy, Action}
use palaestra_mcp_bridge.Enforcer.Types.Actions.{init_actions, is_deny_action, requires_approval}
use palaestra_mcp_bridge.Enforcer.Engine.{
  Cel, CelEngine, value, evaluate, evaluate_all, evaluate_policy, apply_match,
  should_update_decision, action_priority, severity_priority,
}
use palaestra_mcp_bridge.Enforcer.Resolver.{
  resolve_for_user, resolve_stored, infer_defaults, personal_override,
}
use palaestra_mcp_bridge.Enforcer.Heuristics.{
  is_some, heuristic_profile, promote_pii, promote_bulk, is_bulk, promote_irreversible,
  is_irreversible, base_profile, first_rule, classification_rules, at_boundaries,
}
use palaestra_mcp_bridge.Ratelimit.Clock.{refill_amount}
use palaestra_mcp_bridge.Enforcer.Call.{
  GoText, Enforcer, State, ToolCall, KillSwitches, is_kill_switch_active, increment_rate_bucket,
  justification_gate, handle_tool_call, handle_justified, after_evaluation, evaluate_call,
  default_gate, after_policy, charge, call_cost, resolve_disposition, count_call, rate_limit_info,
  call_context, log_decision, log_rejection,
}
use palaestra_mcp_bridge.Enforcer.Call.Gates.{IsCharged}
use palaestra_mcp_bridge.Enforcer.Call.Outcomes.{
  profile, killed, outcome, handle_tool_call_allow, handle_tool_call_audit, handle_tool_call_deny,
}

abbrev oracle_off : KillSwitches
oracle_off = ("oracle", true) ∷ []

abbrev plain_text : GoText
plain_text = record { to_lower = λ s. s; decimal = λ _. "n" }

abbrev tool_cel : Cel
tool_cel = record {
  Program = String;
  compile = λ text. if text == "" then none else some text;
  eval = λ tool ctx. value (tool == ctx.tool);
}

abbrev config : EnforcerConfig
config = record {
  approval_timeout = 24;
  admin_approval_timeout = 0;
  user_approval_timeout = 10;
  enable_kill_switch = true;
  min_justification_length = 5;
  rate_window_duration = 60;
  inferred_cost_multiplier = 3;
}

abbrev policy : String → String → Action → CelPolicy
policy id tool action = record {
  id = id;
  description = "";
  expression = tool;
  action = action;
  message = "by policy";
  severity = "HIGH";
  enabled = true;
  priority = 10;
  dispositions = none;
}

abbrev engine : CelEngine String
engine = record {
  programs = ("p1", "drop_table") ∷ ("p2", "ping") ∷ [];
  policies = ("p1", policy "p1" "drop_table" "DENY") ∷ ("p2", policy "p2" "ping" "ALLOW") ∷ [];
  dispositions = [];
}

abbrev guard : KillSwitches → Enforcer String
guard switches = record {
  config = config;
  actions = init_actions;
  engine = engine;
  overrides = [];
  kill_switches = switches;
  store = none;
  get_user = none;
}

abbrev empty_state : State
empty_state = record { buckets = new_bucket_manager; rates = []; audit = [] }

abbrev call_of : String → ToolCall
call_of tool = record {
  user_id = "u1";
  tool_name = tool;
  args = "{}";
  backend_id = "oracle";
  justification = "needed now";
  skip_justification = false;
}

handle_tool_call_audit_example :
    length (outcome plain_text tool_cel (guard []) 7 (call_of "ping") empty_state).1.audit ≡ (
      if not (is_some (justification_gate plain_text config (call_of "ping")))
        && killed plain_text tool_cel (guard []) 7 (call_of "ping") empty_state
      then 0
      else 1)
handle_tool_call_audit_example =
    handle_tool_call_audit plain_text tool_cel (guard []) 7 (call_of "ping") empty_state

ping_allowed :
    (outcome plain_text tool_cel (guard []) 7 (call_of "ping") empty_state).0.0.action ≡ "ALLOW"
unfolding handle_tool_call handle_justified justification_gate after_evaluation evaluate_call
    default_gate after_policy charge call_cost resolve_disposition count_call rate_limit_info
    call_context log_decision log_rejection is_kill_switch_active increment_rate_bucket lookup
    insert check_and_consume get_or_create fresh_bucket consume_at get_config get_bucket_status
    get_status evaluate evaluate_all evaluate_policy apply_match should_update_decision
    action_priority severity_priority is_deny_action requires_approval init_actions resolve_for_user
    resolve_stored infer_defaults heuristic_profile calculate_cost is_risk_scoped
    get_risk_multiplier personal_override promote_pii promote_bulk is_bulk promote_irreversible
    is_irreversible base_profile first_rule classification_rules at_boundaries bucket_key consume
    refill refill_amount
ping_allowed = refl

handle_tool_call_allow_example :
    (justification_gate plain_text config (call_of "ping") ≡ none)
    × (killed plain_text tool_cel (guard []) 7 (call_of "ping") empty_state ≡ false)
    × IsCharged plain_text tool_cel
        (guard [])
        7
        (call_of "ping")
        (profile plain_text tool_cel (guard []) 7 (call_of "ping") empty_state)
        empty_state
        (outcome plain_text tool_cel (guard []) 7 (call_of "ping") empty_state)
handle_tool_call_allow_example =
    handle_tool_call_allow plain_text tool_cel (guard []) 7 (call_of "ping") empty_state
      ping_allowed

handle_tool_call_deny_example :
    ((outcome plain_text tool_cel (guard []) 7 (call_of "drop_table") empty_state).0.0.action
      ≡ "DENY")
    × ((outcome plain_text tool_cel (guard []) 7 (call_of "drop_table") empty_state).1.buckets
        ≡ new_bucket_manager)
unfolding justification_gate is_kill_switch_active lookup is_deny_action init_actions call_context
handle_tool_call_deny_example =
    handle_tool_call_deny plain_text tool_cel (guard []) 7 (call_of "drop_table") empty_state "p1"
      refl refl refl ("drop_table", inl refl, refl) refl
