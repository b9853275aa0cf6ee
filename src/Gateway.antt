-- ===== src/Gateway.antt =====
-- The handling of tools/call: mcpbridge_routing.go handleToolsCall up to the choice of the backend,
-- with muxer/muxer.go HandleToolsCall. The enforcer is a function from calls and its state to
-- answers; what follows with the backend's process is left out.
pub mod Enforcement
pub mod KillSwitch
pub mod Tests
use text.Mathlib.Text.{starts_with}
use palaestra_mcp_bridge.Common.{
  ℕ, String, Bool, true, false, ◌&&◌, ◌||◌, not, Option, none, some, List, [], ◌∷◌, ◌==◌,
  if◌then◌else◌,
}
use palaestra_mcp_bridge.Enforcer.Types.{
  Action, EnforcerConfig, EnforcerDecision, DecisionContext, action_deny, action_pending_approval,
  action_pending_admin_approval, action_pending_user_approval,
}
use palaestra_mcp_bridge.Enforcer.Call.{ToolCall, Answer}
use palaestra_mcp_bridge.Enforcer.Approvals.{Approvals}
use palaestra_mcp_bridge.Enforcer.Approvals.Requests.{request_approval}
use palaestra_mcp_bridge.Muxer.Routing.{
  ToolMuxer, ResolvedConfig, find_backend_for_tool, get_backend_config, strip_prefix_from_name,
}

-- The request: params.name, the names of the older params.tools, the arguments (none if they are no
-- object), the justification, and the body that is kept for an approval.
pub record ToolsCall : Type 0 where
  pub name : String
  pub tools : List String
  pub arguments : Option String
  pub justification : String
  pub body : String

pub data Reply : Type 0 where
  invalid_arguments : Reply
  denied : String → String → Reply
  -- the id of the request and the status that the client is told
  pending : String → String → Reply
  approval_failed : Reply
  -- the backend and the name of the tool there
  forwarded : String → String → Reply
  -- the routing failed, and the default backend is asked
  default_backend : Reply

-- What the switch over the actions does.
pub data Verdict : Type 0 where
  refuse : Verdict
  ask : String → Verdict
  proceed : Verdict

unfoldable pub verdict_of : Action → Verdict
verdict_of action =
    if action == action_deny
    then refuse
    else if action == action_pending_approval || action == action_pending_admin_approval
    then ask "admin"
    else if action == action_pending_user_approval
    then ask "user"
    else proceed

-- The calls that the enforcer is asked about.
abbrev pub is_checked : String → Bool
is_checked name = not (name == "") && not (starts_with name "mcpbridge_")

abbrev backend_of : Option (String × String) → String
backend_of none = ""
backend_of (some x) = x.0

unfoldable pub enforced_backend : ToolMuxer → String → String
enforced_backend m name = if is_checked name then backend_of (find_backend_for_tool name m) else ""

abbrev first_or_empty : List String → String
first_or_empty [] = ""
first_or_empty (x ∷ xs) = x

-- The name that HandleToolsCall of the multiplexer routes by.
unfoldable pub routed_name : String → List String → String
routed_name name tools = if name == "" then first_or_empty tools else name

-- What the backend reads: stripPrefixFromName changes params.name alone, so that a name of
-- params.tools goes as it is.
abbrev pub sent_name : String → String → String → String
sent_name prefix name routed =
    if prefix == "" || name == "" then routed else strip_prefix_from_name prefix name

abbrev pub reply_of : ToolMuxer → String → String → Option (String × String) → Reply
reply_of m name routed none = default_backend
reply_of m name routed (some (id, prefix)) = elim (get_backend_config id m) [
  | none ↦ default_backend
  | some _ ↦ forwarded id (sent_name prefix name routed)
]

unfoldable pub route_named : ToolMuxer → String → String → Reply
route_named m name routed =
    if routed == ""
    then default_backend
    else reply_of m name routed (find_backend_for_tool routed m)

-- `HandleToolsCall`: the backend and the name there, or the default backend after an error.
unfoldable pub route : ToolMuxer → ToolsCall → Reply
route m r = route_named m r.name (routed_name r.name r.tools)

unfoldable pub call_of : ToolMuxer → (String → Bool) → String → ToolsCall → String → ToolCall
call_of m skips user r args =
    let backend = enforced_backend m r.name in
    record {
      user_id = user;
      tool_name = r.name;
      args = args;
      backend_id = backend;
      justification = r.justification;
      skip_justification = not (backend == "") && skips backend;
    }

-- What a request for approval is made of; the empty fields are not set by the code.
unfoldable pub approval_context : DecisionContext → ToolCall → String → DecisionContext
approval_context blank call body = record blank {
  user_id = call.user_id;
  tool = call.tool_name;
  args = call.args;
  backend_id = call.backend_id;
  justification = call.justification;
  request_body = body;
}

abbrev pub status_text : String → String
status_text queue = if queue == "user" then "pending_user_approval" else "pending_approval"

abbrev asked : String → String → Approvals → Option Approvals → Reply × Approvals
asked id queue t none = (approval_failed, t)
asked id queue t (some t') = (pending id (status_text queue), t')

-- Whether the server has an enforcer (it starts without one when that cannot be set up), the
-- configuration, the zero of the contexts, the text of a profile, the time and the new id.
pub record Setting : Type 0 where
  pub has_enforcer : Bool
  pub config : EnforcerConfig
  pub blank : DecisionContext
  pub safety_json : String
  pub now : ℕ
  pub fresh : String

unfoldable pub act_on :
    Setting
    → ToolMuxer
    → ToolsCall
    → ToolCall
    → EnforcerDecision
    → Verdict
    → Approvals
    → Reply × Approvals
act_on x m r call d refuse t = (denied d.message d.policy_id, t)
act_on x m r call d (ask queue) t = asked x.fresh queue t (
    request_approval x.config (approval_context x.blank call r.body) x.now x.fresh x.safety_json
      d.policy_id d.message queue "policy_hit" t)
act_on x m r call d proceed t = (route m r, t)

module _ {S : Type 0} (enforce : ToolCall → S → Answer × S) where
  unfoldable pub handle_checked :
      Setting → ToolMuxer → ToolsCall → ToolCall → Bool → S → Approvals → Reply × S × Approvals
  handle_checked x m r call true s t =
      let answer = enforce call s in
      let acted = act_on x m r call answer.0.0 (verdict_of answer.0.0.action) t in
      (acted.0, answer.1, acted.1)
  handle_checked x m r call false s t = (route m r, s, t)

  unfoldable pub handle_arguments :
      Setting
      → ToolMuxer
      → (String → Bool)
      → String
      → ToolsCall
      → Option String
      → S
      → Approvals
      → Reply × S × Approvals
  handle_arguments x m skips user r none s t = (invalid_arguments, s, t)
  handle_arguments x m skips user r (some args) s t =
      handle_checked x m r (call_of m skips user r args) (x.has_enforcer && is_checked r.name) s t

  -- `handleToolsCall`. An error of the enforcer without an action is logged, and the call goes on, as
  -- it does after every action that the switch does not name.
  unfoldable pub handle_tools_call :
      Setting
      → ToolMuxer
      → (String → Bool)
      → String
      → ToolsCall
      → S
      → Approvals
      → Reply × S × Approvals
  handle_tools_call x m skips user r s t = handle_arguments x m skips user r r.arguments s t
