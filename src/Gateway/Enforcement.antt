-- ===== src/Gateway/Enforcement.antt =====
-- What the enforcer's decision means for a call: mcpbridge_routing.go handleToolsCall.
use palaestra_mcp_bridge.Common.{
  ◌≡◌, ◌≢◌, refl, sym, ap, ◌∙◌, subst, String, Bool, true, Option, none, some, ◌&&◌,
}
use palaestra_mcp_bridge.Enforcer.Types.{
  Action, EnforcerDecision, action_deny, action_pending_approval, action_pending_admin_approval,
  action_pending_user_approval,
}
use palaestra_mcp_bridge.Enforcer.Call.{ToolCall, Answer}
use palaestra_mcp_bridge.Enforcer.Approvals.{ApprovalRequestRow, Approvals, inserted}
use palaestra_mcp_bridge.Enforcer.Approvals.Requests.{request_row}
use palaestra_mcp_bridge.Muxer.Routing.{ToolMuxer}
use palaestra_mcp_bridge.Gateway.{
  ToolsCall, Reply, forwarded, default_backend, Verdict, refuse, ask, proceed, verdict_of,
  is_checked, call_of, approval_context, asked, Setting, act_on, handle_checked, handle_arguments,
  handle_tools_call,
}

-- What goes to a backend: a forwarded call, or one for the default backend.
abbrev pub IsPassedOn : Reply → Type 0
IsPassedOn (forwarded backend name) = Unit
IsPassedOn default_backend = Unit
IsPassedOn _ = ⊥

-- No action that denies or asks for an approval.
abbrev pub IsHarmless : Action → Type 0
IsHarmless action =
    (action ≢ action_deny)
    × (action ≢ action_pending_approval)
    × (action ≢ action_pending_admin_approval)
    × (action ≢ action_pending_user_approval)

verdict_of_proceed : (action : Action) → verdict_of action ≡ proceed → IsHarmless action
unfolding verdict_of
verdict_of_proceed action e = (
  λ k. absurd (cc (subst (λ a. verdict_of a ≡ proceed) k e)),
  λ k. absurd (cc (subst (λ a. verdict_of a ≡ proceed) k e)),
  λ k. absurd (cc (subst (λ a. verdict_of a ≡ proceed) k e)),
  λ k. absurd (cc (subst (λ a. verdict_of a ≡ proceed) k e)),
)

act_on_passed :
    (x : Setting) (m : ToolMuxer) (r : ToolsCall) (call : ToolCall) (d : EnforcerDecision)
    (v : Verdict) (t : Approvals)
    → IsPassedOn (act_on x m r call d v t).0
    → v ≡ proceed
unfolding act_on
act_on_passed x m r call d refuse t h = absurd h
act_on_passed x m r call d (ask queue) t h = absurd (go _ h)
  where
    go : (o : Option Approvals) → IsPassedOn (asked x.fresh queue t o).0 → ⊥
    go none k = k
    go (some t') k = k
act_on_passed x m r call d proceed t h = refl

module _ {S : Type 0} (enforce : ToolCall → S → Answer × S) where
  -- The call after the tests on the arguments and the name.
  pub handle_tools_call_checked :
      (x : Setting) (m : ToolMuxer) (skips : String → Bool) (user : String) (r : ToolsCall) (s : S)
      (t : Approvals) (args : String) (b : Bool)
      → r.arguments ≡ some args
      → (x.has_enforcer && is_checked r.name) ≡ b
      → handle_tools_call enforce x m skips user r s t
        ≡ handle_checked enforce x m r (call_of m skips user r args) b s t
  unfolding handle_tools_call handle_arguments
  handle_tools_call_checked x m skips user r s t args b e c =
      ap (λ o. handle_arguments enforce x m skips user r o s t) e
      ∙ ap (λ k. handle_checked enforce x m r (call_of m skips user r args) k s t) c

  -- Where the server has an enforcer, a call with a name that is not one of the bridge's own is
  -- passed on to a backend only if the enforcer was asked and its action neither denies nor asks
  -- for an approval.
  pub handle_tools_call_passed :
      (x : Setting) (m : ToolMuxer) (skips : String → Bool) (user : String) (r : ToolsCall) (s : S)
      (t : Approvals) (args : String)
      → r.arguments ≡ some args
      → x.has_enforcer ≡ true
      → is_checked r.name ≡ true
      → let (reply, s', t') = handle_tools_call enforce x m skips user r s t in
        IsPassedOn reply
        → (s' ≡ (enforce (call_of m skips user r args) s).1)
          × IsHarmless (enforce (call_of m skips user r args) s).0.0.action
  unfolding handle_checked
  handle_tools_call_passed x m skips user r s t args e g c =
      let call = call_of m skips user r args in
      let d = (enforce call s).0.0 in
      subst
        (λ (z : Reply × S × Approvals).
          IsPassedOn z.0 → (z.1 ≡ (enforce call s).1) × IsHarmless d.action)
        (sym (handle_tools_call_checked x m skips user r s t args true e (rw (g, c) refl)))
        (λ h. (
          refl,
          verdict_of_proceed d.action (act_on_passed x m r call d (verdict_of d.action) t h),
        ))

-- The row of a call that waits for an admin.
abbrev row_of : Setting → ToolsCall → ToolCall → EnforcerDecision → ApprovalRequestRow
row_of x r call d = inserted (
    request_row x.config (approval_context x.blank call r.body) x.now x.fresh x.safety_json
      d.policy_id d.message "admin" "policy_hit")
