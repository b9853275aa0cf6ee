-- ===== src/Enforcer/Call/Outcomes.antt =====
-- What `HandleToolCall` answers, and what it leaves.
use palaestra_mcp_bridge.Common.{
  ℕ, ◌≡◌, refl, sym, ap, ◌∙◌, String, Bool, true, false, ◌&&◌, not, none, some, if◌then◌else◌,
  Bool-cases, Option-cases, inl, inr, suc, length, subst,
}
use palaestra_mcp_bridge.Enforcer.Types.{
  SafetyProfile, EnforcerDecision, no_decision, DecisionContext, kill_switch_active,
}
use palaestra_mcp_bridge.Enforcer.Types.Actions.{is_deny_action}
use palaestra_mcp_bridge.Enforcer.Engine.{Cel, evaluate}
use palaestra_mcp_bridge.Enforcer.Engine.Restrictive.{Matches, policy_decision, evaluate_denies}
use palaestra_mcp_bridge.Enforcer.Heuristics.{is_some}
use palaestra_mcp_bridge.Enforcer.Resolver.{resolve_for_user}
use palaestra_mcp_bridge.Enforcer.Resolver.Tiers.{resolve_for_user_lem}
use palaestra_mcp_bridge.Enforcer.Call.{
  GoText, Enforcer, State, ToolCall, Answer, is_kill_switch_active, justification_gate,
  call_context, rate_limit_info, user_in, count_call, evaluate_call, log_decision, log_rejection,
  default_gate, after_evaluation, decision, handle_justified, handle_tool_call,
}
use palaestra_mcp_bridge.Enforcer.Call.Gates.{
  IsSource, IsStage, IsCharged, default_gate-IsStage, count_call_keeps, refusal,
  justification_gate-refusal, default_gate_deny, default_gate_inferred,
}

module _ (go : GoText) (cel : Cel) (e : Enforcer cel.Program) (now : ℕ) (call : ToolCall)
    (s : State) where
  abbrev pub profile : SafetyProfile
  profile =
      resolve_for_user go.to_lower e.store e.overrides call.tool_name call.backend_id call.user_id

  -- The context that the policies are evaluated on.
  abbrev pub context : DecisionContext
  context =
      call_context (user_in e.get_user call.user_id) call profile
        (rate_limit_info call.user_id call.backend_id s.buckets) (count_call e.config now call s).0

  abbrev pub killed : Bool
  killed = e.config.enable_kill_switch && is_kill_switch_active call.backend_id e.kill_switches

  abbrev pub outcome : Answer × State
  outcome = handle_tool_call go cel e now call s

  profile-IsSource : IsSource profile.source
  profile-IsSource =
      elim (resolve_for_user_lem go.to_lower e.store call.tool_name call.backend_id e.overrides
        call.user_id).1 [
          | inl x ↦ inl x.0
          | inr (inl x) ↦ inr (inl x.0)
          | inr (inr x) ↦ elim x.0 [ inl y ↦ inr (inr (inl y)) | inr y ↦ inr (inr (inr y)) ]
        ]

  abbrev counted : State
  counted = (count_call e.config now call s).1

  abbrev logged : State
  logged = log_decision context (evaluate cel context now e.engine) counted

  evaluated_open :
      killed ≡ false
      → evaluate_call go cel e now context counted
        ≡ ((evaluate cel context now e.engine, none), logged)
  unfolding evaluate_call call_context
  evaluated_open k = rw k refl

  evaluated_killed :
      killed ≡ true
      → evaluate_call go cel e now context counted ≡ (
        (decision "DENY" "CRITICAL" "Emergency kill switch is active" "", some kill_switch_active),
        counted,
      )
  unfolding evaluate_call call_context
  evaluated_killed k = rw k refl

  justified :
      justification_gate go e.config call ≡ none
      → outcome
        ≡ after_evaluation go cel e now call profile (evaluate_call go cel e now context counted)
  unfolding handle_tool_call handle_justified
  justified g = rw (g, handle_tool_call) refl

  open_call :
      justification_gate go e.config call ≡ none
      → killed ≡ false
      → outcome ≡ default_gate go cel e now call profile (evaluate cel context now e.engine) logged
  unfolding after_evaluation
  open_call g k = justified g ∙ ap (after_evaluation go cel e now call profile) (evaluated_open k)

  stopped_call :
      justification_gate go e.config call ≡ none
      → killed ≡ true
      → outcome ≡ ((no_decision, some kill_switch_active), counted)
  unfolding after_evaluation
  stopped_call g k =
      justified g ∙ ap (after_evaluation go cel e now call profile) (evaluated_killed k)

  refused_call :
      (r : String × EnforcerDecision)
      → justification_gate go e.config call ≡ some r
      → (outcome.1 ≡ log_rejection call r.0 s) × (outcome.0.0 ≡ r.1)
  unfolding handle_tool_call
  refused_call r g = rw (g, handle_tool_call) (refl, refl)

  logged_keeps : (logged.buckets ≡ s.buckets) × (length logged.audit ≡ suc (length s.audit))
  unfolding log_decision
  logged_keeps = let k = count_call_keeps e now call s in (k.0, ap (λ a. suc (length a)) k.1)

  refused_denies :
      (r : String × EnforcerDecision)
      → justification_gate go e.config call ≡ some r
      → outcome.0.0.action ≡ "DENY"
  refused_denies r g =
      ap (λ d. d.action) (refused_call r g).1
      ∙ sym (ap refusal g)
      ∙ justification_gate-refusal go e call

  abbrev gated : Answer × State
  gated = default_gate go cel e now call profile (evaluate cel context now e.engine) logged

  gated-IsStage : IsStage go cel e now call profile logged gated
  gated-IsStage =
      default_gate-IsStage go cel e now call profile (evaluate cel context now e.engine) logged
        profile-IsSource

  -- The buckets of the call are those of the state that it started from.
  logged-IsCharged :
      (out : Answer × State)
      → IsCharged go cel e now call profile logged out
      → IsCharged go cel e now call profile s out
  logged-IsCharged out h = rw⁻¹ (logged_keeps.0) h

  -- A call is allowed only if its justification passed the gate, no kill switch stops it, and
  -- either both rate-limit buckets covered its costs and were charged with them, or the decision
  -- carries the policy id "rate_limit_disposition".
  pub handle_tool_call_allow :
      outcome.0.0.action ≡ "ALLOW"
      → (justification_gate go e.config call ≡ none)
        × (killed ≡ false)
        × IsCharged go cel e now call profile s outcome
  handle_tool_call_allow a = elim (Option-cases (justification_gate go e.config call)) [
    | inr (r, g) ↦ let no : "DENY" ≡ "ALLOW" = sym (refused_denies r g) ∙ a in absurd (cc no)
    | inl g ↦ elim (Bool-cases killed) [
      | inl k ↦
          let no : "" ≡ "ALLOW" = sym (ap (λ o. o.0.0.action) (stopped_call g k)) ∙ a in
          absurd (cc no)
      | inr k ↦
          let same = open_call g k in
          let stage = gated-IsStage in
          (
            g,
            k,
            subst (λ o. IsCharged go cel e now call profile s o) (sym same)
                (logged-IsCharged gated (stage.2 (sym (ap (λ o. o.0.0.action) same) ∙ a))),
          )
    ]
  ]

  -- Every call leaves one entry in the audit log, but a call that a kill switch stops leaves none.
  pub handle_tool_call_audit : length outcome.1.audit ≡ (
      if not (is_some (justification_gate go e.config call)) && killed
      then length s.audit
      else suc (length s.audit))
  unfolding log_rejection
  handle_tool_call_audit = elim (Option-cases (justification_gate go e.config call)) [
    | inr (r, g) ↦ rw g (ap (λ t. length t.audit) (refused_call r g).0)
    | inl g ↦ elim (Bool-cases killed) [
      | inl k ↦
          rw (g, k)
            (ap (λ o. length o.1.audit) (stopped_call g k)
              ∙ ap length (count_call_keeps e now call s).1)
      | inr k ↦
          rw (g, k)
            (ap (λ o. length o.1.audit) (open_call g k)
              ∙ ap length gated-IsStage.0
              ∙ logged_keeps.1)
    ]
  ]

  -- If the justification passes the gate, no kill switch stops the call, a policy that denies
  -- matches it, and DENY is registered as a denying action, then the call is denied and no bucket
  -- is charged.
  pub handle_tool_call_deny :
      (id : String)
      → justification_gate go e.config call ≡ none
      → killed ≡ false
      → is_deny_action e.actions "DENY" ≡ true
      → Matches cel context now e.engine id
      → (policy_decision cel context now e.engine id).action ≡ "DENY"
      → (outcome.0.0.action ≡ "DENY") × (outcome.1.buckets ≡ s.buckets)
  handle_tool_call_deny id g k r m p =
      let d = evaluate_denies cel context now e.engine id m p in
      let same =
        open_call g k
        ∙ default_gate_deny go cel e now call profile (evaluate cel context now e.engine) logged d
            r in
      (ap (λ o. o.0.0.action) same ∙ d, ap (λ o. o.1.buckets) same ∙ logged_keeps.0)

  -- A call that no policy decides, of a tool whose profile is inferred, waits for an admin and
  -- charges no bucket, if its justification passes the gate and no kill switch stops it.
  pub handle_tool_call_inferred :
      justification_gate go e.config call ≡ none
      → killed ≡ false
      → (evaluate cel context now e.engine).action ≡ ""
      → profile.source ≡ "inferred"
      → (outcome.0.0.action ≡ "PENDING_ADMIN_APPROVAL")
        × (outcome.0.1 ≡ none)
        × (outcome.1.buckets ≡ s.buckets)
  unfolding default_gate
  handle_tool_call_inferred g k a p =
      let same = open_call g k in
      let gate =
        default_gate_inferred go cel e now call profile (evaluate cel context now e.engine) logged a
          p in
      (
        ap (λ o. o.0.0.action) same ∙ gate.0,
        ap (λ o. o.0.1) same ∙ gate.1,
        ap (λ o. o.1.buckets) same ∙ ap (λ t. t.buckets) gate.2 ∙ logged_keeps.0,
      )

  -- While a kill switch stops calls of the backend, a call whose justification passes the gate ends
  -- with the empty decision and the error of the kill switch, and no bucket is charged.
  pub handle_tool_call-killed :
      justification_gate go e.config call ≡ none
      → killed ≡ true
      → (outcome.0 ≡ (no_decision, some kill_switch_active)) × (outcome.1.buckets ≡ s.buckets)
  handle_tool_call-killed g k =
      let same = stopped_call g k in
      (ap (λ o. o.0) same, ap (λ o. o.1.buckets) same ∙ (count_call_keeps e now call s).0)
