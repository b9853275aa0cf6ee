-- ===== src/Enforcer/Call/Gates.antt =====
-- What each stage of a call does to the state, and when it allows the call.
use palaestra_mcp_bridge.Common.{
  ℕ, ◌≡◌, refl, ap, ◌∙◌, String, Bool, true, false, ◌&&◌, ◌||◌, not, Option, none, some, ◌==◌,
  eq_iff, ltb, Bool-cases, inl, inr, ◌⊎◌,
}
use Prim.Native.String.{len}
use palaestra_mcp_bridge.Ratelimit.Manager.{BucketManager, check_and_consume}
use palaestra_mcp_bridge.Enforcer.Types.{Action, SafetyProfile, EnforcerDecision}
use palaestra_mcp_bridge.Enforcer.Types.Actions.{is_deny_action, requires_approval}
use palaestra_mcp_bridge.Enforcer.Engine.{Cel}
use palaestra_mcp_bridge.Enforcer.Call.{
  GoText, Enforcer, State, ToolCall, Answer, call_cost, charge, after_policy, default_gate,
  count_call, justification_gate,
}

-- What `ResolveForUser` gives as a source.
abbrev pub IsSource : String → Type 0
IsSource s = (s ≡ "override") ⊎ ((s ≡ "user_override") ⊎ ((s ≡ "self_reported") ⊎ (s ≡ "inferred")))

-- The sources that permit a call for which there is no policy.
abbrev pub permitted : String → Bool
permitted s = s == "self_reported" || (s == "override" || s == "user_override")

module _ (go : GoText) (cel : Cel) (e : Enforcer cel.Program) (now : ℕ) (call : ToolCall)
    (profile : SafetyProfile) where
  -- What the buckets answer to the costs of the call.
  abbrev pub consumed : State → (Bool × Bool) × BucketManager
  consumed s =
      check_and_consume call.user_id call.backend_id (call_cost e.config profile).0
        (call_cost e.config profile).1 now s.buckets

  -- Both buckets covered the costs and were charged, or the decision carries the policy id of the
  -- disposition of an exceeded rate limit.
  abbrev pub IsCharged : State → Answer × State → Type 0
  IsCharged s out =
      ((consumed s).0 ≡ (true, true)) × (out.1.buckets ≡ (consumed s).1)
      ⊎ (out.0.0.policy_id ≡ "rate_limit_disposition")

  -- A stage writes no audit entry, returns no error, and charges what it allows.
  abbrev pub IsStage : State → Answer × State → Type 0
  IsStage s out =
      (out.1.audit ≡ s.audit) × (out.0.1 ≡ none) × (out.0.0.action ≡ "ALLOW" → IsCharged s out)

  pub charge-IsStage :
      (d : EnforcerDecision) (s : State) → IsStage s (charge go cel e now call profile d s)
  unfolding charge
  charge-IsStage d s = go_on (consumed s) refl
    where
      go_on :
          (c : (Bool × Bool) × BucketManager)
          → consumed s ≡ c
          → IsStage s (charge go cel e now call profile d s)
      go_on ((true, true), m) h = rw (h, charge) (refl, refl, λ _. inl (refl, refl))
      go_on ((false, b), m) h = rw (h, charge) (refl, refl, λ _. inr refl)
      go_on ((true, false), m) h = rw (h, charge) (refl, refl, λ _. inr refl)

  pub after_policy-IsStage :
      (d : EnforcerDecision) (s : State) → IsStage s (after_policy go cel e now call profile d s)
  unfolding after_policy
  after_policy-IsStage d s =
      pick
        (not (is_deny_action e.actions d.action)
          && (not (requires_approval e.actions d.action)
              && (profile.requires_hitl
                  && (profile.source == "override" || profile.source == "user_override"))))
        refl
    where
      pick :
          (b : Bool)
          → (not (is_deny_action e.actions d.action)
              && (not (requires_approval e.actions d.action)
                  && (profile.requires_hitl
                      && (profile.source == "override" || profile.source == "user_override"))))
            ≡ b
          → IsStage s (after_policy go cel e now call profile d s)
      pick true h = rw (h, after_policy) (refl, refl, λ a. absurd (cc (ap (λ x. x == "ALLOW") a)))
      pick false h = elim (Bool-cases (d.action == "ALLOW")) [
        | inl k ↦ rw (h, k, after_policy) (charge-IsStage d s)
        | inr k ↦
            rw (h, k, after_policy)
              (refl, refl, λ a. absurd (cc (k, (eq_iff d.action "ALLOW").1 a)))
      ]

  pub default_gate-IsStage :
      (d : EnforcerDecision) (s : State)
      → IsSource profile.source
      → IsStage s (default_gate go cel e now call profile d s)
  unfolding default_gate
  default_gate-IsStage d s src = elim (Bool-cases (d.action == "")) [
    | inr k ↦ rw (k, default_gate) (after_policy-IsStage d s)
    | inl k ↦ by_source k src
  ]
    where
      by_source :
          (d.action == "") ≡ true
          → IsSource profile.source
          → IsStage s (default_gate go cel e now call profile d s)
      by_source k (inl p) =
          rw (k, ap permitted p, default_gate)
            (after_policy-IsStage (record d { action = "ALLOW" }) s)
      by_source k (inr (inl p)) =
          rw (k, ap permitted p, default_gate)
            (after_policy-IsStage (record d { action = "ALLOW" }) s)
      by_source k (inr (inr (inl p))) =
          rw (k, ap permitted p, default_gate)
            (after_policy-IsStage (record d { action = "ALLOW" }) s)
      by_source k (inr (inr (inr p))) =
          rw (k, ap permitted p, ap (λ x. x == "inferred") p, default_gate)
            (refl, refl, λ a. absurd (cc (ap (λ x. x == "ALLOW") a)))

  -- A decision that denies goes through the stages as it is.
  pub default_gate_deny :
      (d : EnforcerDecision) (s : State)
      → d.action ≡ "DENY"
      → is_deny_action e.actions "DENY" ≡ true
      → default_gate go cel e now call profile d s ≡ ((d, none), s)
  unfolding default_gate after_policy
  default_gate_deny d s a r =
      let set : is_deny_action e.actions d.action ≡ true = ap (is_deny_action e.actions) a ∙ r in
      rw (ap (λ x. x == "") a, default_gate) (rw (set, ap (λ x. x == "ALLOW") a, after_policy) refl)

  -- An inferred profile without a policy.
  pub default_gate_inferred :
      (d : EnforcerDecision) (s : State)
      → d.action ≡ ""
      → profile.source ≡ "inferred"
      → let out = default_gate go cel e now call profile d s in
        (out.0.0.action ≡ "PENDING_ADMIN_APPROVAL") × (out.0.1 ≡ none) × (out.1 ≡ s)
  unfolding default_gate
  default_gate_inferred d s a p =
      rw (ap (λ x. x == "") a, ap permitted p, ap (λ x. x == "inferred") p, default_gate)
        (refl, refl, refl)

pub count_call_keeps :
    {P : Type 0} (e : Enforcer P) (now : ℕ) (call : ToolCall) (s : State)
    → ((count_call e.config now call s).1.buckets ≡ s.buckets)
      × ((count_call e.config now call s).1.audit ≡ s.audit)
unfolding count_call
count_call_keeps e now call s = elim (Bool-cases (ltb 0 e.config.rate_window_duration)) [
  | inl k ↦ rw (k, count_call) (refl, refl)
  | inr k ↦ rw (k, count_call) (refl, refl)
]

-- A refusal by the gate on the justification denies.
abbrev pub refusal : Option (String × EnforcerDecision) → Action
refusal none = "DENY"
refusal (some r) = r.1.action

pub justification_gate-refusal :
    (go : GoText) {P : Type 0} (e : Enforcer P) (call : ToolCall)
    → refusal (justification_gate go e.config call) ≡ "DENY"
unfolding justification_gate
justification_gate-refusal go e call =
    elim (Bool-cases (not call.skip_justification && ltb 0 e.config.min_justification_length)) [
      | inr a ↦ rw (a, justification_gate) refl
      | inl a ↦ elim (Bool-cases (call.justification == "")) [
        | inl b ↦ rw (a, b, justification_gate) refl
        | inr b ↦
            elim (Bool-cases (ltb (len call.justification) e.config.min_justification_length)) [
              | inl c ↦ rw (a, b, c, justification_gate) refl
              | inr c ↦ rw (a, b, c, justification_gate) refl
            ]
      ]
    ]
