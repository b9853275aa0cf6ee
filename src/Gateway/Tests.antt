-- ===== src/Gateway/Tests.antt =====
-- Calls on concrete values, with an enforcer that denies one tool and asks an admin for another.
use palaestra_mcp_bridge.Common.Dict.{lookup}
use palaestra_mcp_bridge.Common.{
  ℕ, suc, ◌≡◌, refl, String, true, false, none, some, [], ◌∷◌, ◌==◌, if◌then◌else◌,
}
use palaestra_mcp_bridge.Enforcer.Types.{EnforcerDecision, no_decision, no_profile, BucketStatus}
use palaestra_mcp_bridge.Enforcer.Call.{ToolCall, Answer}
use palaestra_mcp_bridge.Muxer.Routing.{
  ToolMuxer, find_backend_for_tool, find_prefix, get_backend_config, strip_prefix_from_name,
  trim_prefix,
}
use palaestra_mcp_bridge.Gateway.{
  ToolsCall, forwarded, Setting, call_of, verdict_of, act_on, handle_tools_call, handle_arguments,
  handle_checked, route, route_named, routed_name,
}
use palaestra_mcp_bridge.Enforcer.Engine.{Cel, value}
use palaestra_mcp_bridge.Enforcer.Types.Actions.{init_actions}
use palaestra_mcp_bridge.Ratelimit.Manager.{new_bucket_manager}
use palaestra_mcp_bridge.Enforcer.Call.{
  GoText, Enforcer, State, justification_gate, is_kill_switch_active, handle_tool_call,
}
use palaestra_mcp_bridge.Gateway.{enforced_backend}
use palaestra_mcp_bridge.Gateway.KillSwitch.{handle_tools_call-killed}
use palaestra_mcp_bridge.Gateway.Enforcement.{IsHarmless, handle_tools_call_passed}

abbrev action_for : String → String
action_for tool =
    if tool == "jira_delete"
    then "DENY"
    else if tool == "jira_close"
    then "PENDING_ADMIN_APPROVAL"
    else "ALLOW"

abbrev enforce : ToolCall → ℕ → Answer × ℕ
enforce call n = ((record no_decision { action = action_for call.tool_name }, none), suc n)

abbrev muxer : ToolMuxer
muxer = record {
  backend_prefixes = ("jira", "b1") ∷ [];
  store = none;
  config =
      (
        "b1",
        record {
          command = "cat";
          pool_size = 1;
          tool_prefix = "jira";
          env = [];
          stdio_framing = "";
        },
      )
      ∷ [];
}

abbrev no_tokens : BucketStatus
no_tokens = record { available = 0; capacity = 0; refill_rate = 0 }

abbrev setting : Setting
setting = record {
  has_enforcer = true;
  config = record {
    approval_timeout = 24;
    admin_approval_timeout = 48;
    user_approval_timeout = 10;
    enable_kill_switch = true;
    min_justification_length = 5;
    rate_window_duration = 60;
    inferred_cost_multiplier = 3;
  };
  blank = record {
    user_id = "";
    user_role = "";
    user_email = "";
    trust_level = 0;
    tool = "";
    args = "";
    justification = "";
    safety = no_profile;
    call_rate = 0;
    backend_id = "";
    rate_limit = record { risk_bucket = no_tokens; resource_bucket = no_tokens };
    request_body = "";
  };
  safety_json = "{}";
  now = 100;
  fresh = "a1";
}

abbrev reading : ToolsCall
reading = record {
  name = "jira_read";
  tools = [];
  arguments = some "{}";
  justification = "looking it up";
  body = "body";
}

-- The forbidden tool, named in params.tools alone.
abbrev unnamed : ToolsCall
unnamed = record reading { name = ""; tools = "jira_delete" ∷ [] }

abbrev closing : ToolCall
closing = record {
  user_id = "u1";
  tool_name = "jira_close";
  args = "{}";
  backend_id = "b1";
  justification = "done with it";
  skip_justification = false;
}

abbrev closing_decision : EnforcerDecision
closing_decision = record no_decision { action = "PENDING_ADMIN_APPROVAL" }

handle_tools_call_passed_example :
    ((handle_tools_call enforce setting muxer (λ b. false) "u1" reading 0 []).1
      ≡ (enforce (call_of muxer (λ b. false) "u1" reading "{}") 0).1)
    × IsHarmless (action_for "jira_read")
unfolding handle_tools_call handle_arguments handle_checked act_on verdict_of call_of route
    route_named routed_name find_backend_for_tool find_prefix get_backend_config lookup
handle_tools_call_passed_example =
    handle_tools_call_passed enforce setting muxer (λ b. false) "u1" reading 0 [] "{}" refl refl
      refl tt

-- A name of params goes to the backend without its prefix.
named_stripped :
    (handle_tools_call enforce setting muxer (λ b. false) "u1" reading 0 []).0
    ≡ forwarded "b1" "read"
unfolding handle_tools_call handle_arguments handle_checked act_on verdict_of call_of route
    route_named routed_name find_backend_for_tool find_prefix get_backend_config lookup
    strip_prefix_from_name trim_prefix
named_stripped = refl

abbrev no_policies : Cel
no_policies = record {
  Program = String;
  compile = λ text. some text;
  eval = λ tool ctx. value false;
}

-- An enforcer whose kill switch stops the calls of the backend.
abbrev switched_off : Enforcer String
switched_off = record {
  config = setting.config;
  actions = init_actions;
  engine = record { programs = []; policies = []; dispositions = [] };
  overrides = [];
  kill_switches = ("b1", true) ∷ [];
  store = none;
  get_user = none;
}

abbrev plain_text : GoText
plain_text = record { to_lower = λ s. s; decimal = λ _. "n" }

abbrev idle : State
idle = record { buckets = new_bucket_manager; rates = []; audit = [] }

handle_tools_call-killed_example :
    let enforce : ToolCall → State → Answer × State =
      handle_tool_call plain_text no_policies switched_off 7 in
    let (reply, _, t') =
      handle_tools_call enforce setting muxer (λ b. false) "u1" reading idle [] in
    let (free, _, _) =
      handle_tools_call enforce
        (record setting { has_enforcer = false })
        muxer
        (λ b. false)
        "u1"
        reading
        idle
        [] in
    (reply ≡ free) × (t' ≡ [])
unfolding justification_gate call_of is_kill_switch_active enforced_backend find_backend_for_tool
    find_prefix lookup
handle_tools_call-killed_example =
    handle_tools_call-killed plain_text no_policies switched_off 7 setting muxer (λ b. false) "u1"
      reading idle [] "{}" refl refl refl refl refl
