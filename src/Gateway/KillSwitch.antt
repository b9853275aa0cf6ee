-- ===== src/Gateway/KillSwitch.antt =====
-- The kill switches of the enforcer behind the server: mcpbridge_routing.go handleToolsCall over
-- enforcer.go HandleToolCall.
use palaestra_mcp_bridge.Common.{ℕ, ◌≡◌, refl, sym, ap, ◌∙◌, String, Bool, true, false, none, some}
use palaestra_mcp_bridge.Enforcer.Types.{EnforcerDecision, no_decision}
use palaestra_mcp_bridge.Enforcer.Engine.{Cel}
use palaestra_mcp_bridge.Enforcer.Approvals.{Approvals}
use palaestra_mcp_bridge.Enforcer.Call.{
  GoText, Enforcer, State, ToolCall, Answer, justification_gate, handle_tool_call,
}
use palaestra_mcp_bridge.Enforcer.Call.Outcomes.{killed, handle_tool_call-killed}
use palaestra_mcp_bridge.Muxer.Routing.{ToolMuxer}
use palaestra_mcp_bridge.Gateway.{
  ToolsCall, Setting, verdict_of, is_checked, route, call_of, act_on, handle_checked,
  handle_tools_call,
}
use palaestra_mcp_bridge.Gateway.Enforcement.{handle_tools_call_checked}

-- An empty decision lets the call go on.
undecided :
    (x : Setting) (m : ToolMuxer) (r : ToolsCall) (call : ToolCall) (d : EnforcerDecision)
    (t : Approvals)
    → d ≡ no_decision
    → act_on x m r call d (verdict_of d.action) t ≡ (route m r, t)
unfolding act_on verdict_of
undecided x m r call d t e = ap (λ d. act_on x m r call d (verdict_of d.action) t) e

-- While a kill switch stops the calls of its backend, a call with a name that is not one of the
-- bridge's own, and with a justification that passes the gate, is answered as it is by a server
-- without an enforcer, and leaves no request for approval.
pub handle_tools_call-killed :
    (go : GoText) (cel : Cel) (e : Enforcer cel.Program) (now : ℕ) (x : Setting) (m : ToolMuxer)
    (skips : String → Bool) (user : String) (r : ToolsCall) (s : State) (t : Approvals)
    (args : String)
    → r.arguments ≡ some args
    → x.has_enforcer ≡ true
    → is_checked r.name ≡ true
    → justification_gate go e.config (call_of m skips user r args) ≡ none
    → killed go cel e now (call_of m skips user r args) s ≡ true
    → let enforce : ToolCall → State → Answer × State = handle_tool_call go cel e now in
      let (reply, _, t') = handle_tools_call enforce x m skips user r s t in
      let (free, _, _) =
        handle_tools_call enforce (record x { has_enforcer = false }) m skips user r s t in
      (reply ≡ free) × (t' ≡ t)
unfolding handle_checked
handle_tools_call-killed go cel e now x m skips user r s t args a has named g k =
    let enforce : ToolCall → State → Answer × State = handle_tool_call go cel e now in
    let call = call_of m skips user r args in
    let asked =
      handle_tools_call_checked enforce x m skips user r s t args true a (rw (has, named) refl) in
    let unasked =
      handle_tools_call_checked enforce (record x { has_enforcer = false }) m skips user r s t args
        false a refl in
    let d = (enforce call s).0.0 in
    let passed =
      undecided x m r call d t
        (ap (λ o. o.0) (handle_tool_call-killed go cel e now call s g k).0) in
    (
      ap (λ z. z.0) asked ∙ ap (λ z. z.0) passed ∙ sym (ap (λ z. z.0) unasked),
      ap (λ z. z.2) asked ∙ ap (λ z. z.1) passed,
    )
