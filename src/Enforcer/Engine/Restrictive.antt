-- ===== src/Enforcer/Engine/Restrictive.antt =====
-- `Evaluate` returns the most restrictive decision among the policies that match.
use palaestra_mcp_bridge.Common.{
  ℕ, ◌≤◌, ◌≡◌, refl, sym, ◌∙◌, ap, String, true, false, ◌⊎◌, inl, inr, [], ◌∷◌, arith, Bool-cases,
  Occurs,
}
use palaestra_mcp_bridge.Common.Dict.{Dict, lookup}
use palaestra_mcp_bridge.Enforcer.Types.{EnforcerDecision, no_decision, DecisionContext, CelPolicy}
use palaestra_mcp_bridge.Enforcer.Engine.{
  Cel, CelEngine, Outcome, failed, value, not_bool, action_priority, should_update_decision,
  policy_or_zero, decision_of, apply_match, evaluate_policy, evaluate_all, evaluate,
}
use palaestra_mcp_bridge.Enforcer.Engine.Rank.{
  rank, update_rank, keep_rank, severity_priority-le, action_priority-le, highest_denies,
}

-- A decision but for the list of violations, which is a log.
abbrev pub core : EnforcerDecision → EnforcerDecision
core d = record d { violations = [] }

module _ (cel : Cel) (ctx : DecisionContext) (now : ℕ) (policies : Dict CelPolicy) where
  open cel use {Program, eval}

  abbrev decision_at : String → EnforcerDecision
  decision_at id = decision_of now id (policy_or_zero (lookup id policies))

  apply_match_cases :
      (id : String) (p : CelPolicy) (current : EnforcerDecision)
      → (rank current ≤ rank (apply_match now id p current))
        × (rank (decision_of now id p) ≤ rank (apply_match now id p current))
        × ((core (apply_match now id p current) ≡ core current)
            ⊎ (core (apply_match now id p current) ≡ decision_of now id p))
  unfolding apply_match
  apply_match_cases id p current =
      elim (Bool-cases (should_update_decision current (decision_of now id p))) [
        | inl e ↦ rw e (update_rank current (decision_of now id p) e, omega arith, inr refl)
        | inr e ↦ rw e (omega arith, keep_rank current (decision_of now id p) e, inl refl)
      ]

  -- The current decision is kept, or replaced by that of the policy, which then matched.
  step_cases :
      (id : String) (program : Program) (current : EnforcerDecision)
      → let after = evaluate_policy cel ctx now policies id program current in
        (rank current ≤ rank after)
        × (eval program ctx ≡ value true → rank (decision_at id) ≤ rank after)
        × ((core after ≡ core current)
            ⊎ ((eval program ctx ≡ value true) × (core after ≡ decision_at id)))
  unfolding evaluate_policy
  step_cases id program current = go (eval program ctx) refl
    where
      go :
          (o : Outcome)
          → eval program ctx ≡ o
          → let after = evaluate_policy cel ctx now policies id program current in
            (rank current ≤ rank after)
            × (eval program ctx ≡ value true → rank (decision_at id) ≤ rank after)
            × ((core after ≡ core current)
                ⊎ ((eval program ctx ≡ value true) × (core after ≡ decision_at id)))
      go (failed err) e = rw (e, evaluate_policy) (omega arith, λ h. absurd (cc h), inl refl)
      go (value true) e =
          let (a, b, c) = apply_match_cases id (policy_or_zero (lookup id policies)) current in
          rw (e, evaluate_policy) (a, λ h. b, elim c [ inl x ↦ inl x | inr x ↦ inr (refl, x) ])
      go (value false) e = rw (e, evaluate_policy) (omega arith, λ h. absurd (cc h), inl refl)
      go not_bool e = rw (e, evaluate_policy) (omega arith, λ h. absurd (cc h), inl refl)

  -- Where the decision comes from: from before, or from an entry whose program gave true.
  data Source (ps : Dict Program) (before after : EnforcerDecision) : Type 0 where
    kept : core after ≡ core before → Source ps before after
    matched :
        (id : String) (program : Program)
        → Occurs (id, program) ps
        → eval program ctx ≡ value true
        → core after ≡ decision_at id
        → Source ps before after

  weaken :
      (entry : String × Program) (ps : Dict Program) {before after : EnforcerDecision}
      → Source ps before after
      → Source (entry ∷ ps) before after
  weaken entry ps (kept e) = kept e
  weaken entry ps (matched id program o m e) = matched id program (inr o) m e

  -- The source of a later decision, given that of the one that it started from.
  through :
      (id : String) (program : Program) (ps : Dict Program) (current middle : EnforcerDecision)
      {after : EnforcerDecision}
      → (core middle ≡ core current)
        ⊎ ((eval program ctx ≡ value true) × (core middle ≡ decision_at id))
      → Source ps middle after
      → Source ((id, program) ∷ ps) current after
  through id program ps current middle c (matched i p o m e) = matched i p (inr o) m e
  through id program ps current middle (inl c) (kept e) = kept (e ∙ c)
  through id program ps current middle (inr (m, c)) (kept e) =
      matched id program (inl refl) m (e ∙ c)

  all_rank :
      (ps : Dict Program) (current : EnforcerDecision)
      → rank current ≤ rank (evaluate_all cel ctx now policies ps current)
  unfolding evaluate_all
  all_rank [] current = omega arith
  all_rank ((id, program) ∷ ps) current =
      let next = evaluate_policy cel ctx now policies id program current in
      omega (arith, (step_cases id program current).0, all_rank ps next)

  all_matched_rank :
      (ps : Dict Program) (current : EnforcerDecision) (id : String) (program : Program)
      → Occurs (id, program) ps
      → eval program ctx ≡ value true
      → rank (decision_at id) ≤ rank (evaluate_all cel ctx now policies ps current)
  unfolding evaluate_all
  all_matched_rank [] current id program o m = absurd o
  all_matched_rank ((j, q) ∷ ps) current id program (inl e) m =
      let next = evaluate_policy cel ctx now policies j q current in
      let same : id ≡ j = ap (λ t. t.0) e in
      let hit : rank (decision_at j) ≤ rank next =
        (step_cases j q current).1 (ap (λ t. eval t.1 ctx) (sym e) ∙ m) in
      omega (arith, hit, ap (λ x. rank (decision_at x)) same, all_rank ps next)
  all_matched_rank ((j, q) ∷ ps) current id program (inr o) m =
      all_matched_rank ps (evaluate_policy cel ctx now policies j q current) id program o m

  all-Source :
      (ps : Dict Program) (current : EnforcerDecision)
      → Source ps current (evaluate_all cel ctx now policies ps current)
  unfolding evaluate_all
  all-Source [] current = kept refl
  all-Source ((id, program) ∷ ps) current =
      let next = evaluate_policy cel ctx now policies id program current in
      through id program ps current next (step_cases id program current).2 (all-Source ps next)

module _ (cel : Cel) (ctx : DecisionContext) (now : ℕ) (e : CelEngine cel.Program) where
  open cel use {Program, eval}

  abbrev pub policy_decision : String → EnforcerDecision
  policy_decision id = decision_of now id (policy_or_zero (lookup id e.policies))

  -- A policy matches: it is in the engine, and its program gives true.
  abbrev pub Matches : String → Type 0
  Matches id =
      (program : Program) × Occurs (id, program) e.programs × (eval program ctx ≡ value true)

  -- The decision is that of a policy which matched, or, if no decision was taken, the empty one.
  abbrev pub IsFrom : EnforcerDecision → Type 0
  IsFrom d =
      (core d ≡ record no_decision { timestamp = now })
      ⊎ ((id : String) × Matches id × (core d ≡ policy_decision id))

  IsFrom-Source :
      {d : EnforcerDecision}
      → Source cel ctx now e.policies e.programs (record no_decision { timestamp = now }) d
      → IsFrom d
  IsFrom-Source (kept x) = inl x
  IsFrom-Source (matched id program o m x) = inr (id, (program, o, m), x)

  -- The decision of `Evaluate`, but for its list of violations, is the decision of a policy that
  -- matches, or the empty decision; and no policy that matches has a more restrictive one, by the
  -- action first and the severity second.
  pub evaluate_most_restrictive :
      IsFrom (evaluate cel ctx now e)
      × ((id : String) → Matches id → rank (policy_decision id) ≤ rank (evaluate cel ctx now e))
  unfolding evaluate
  evaluate_most_restrictive = (
    IsFrom-Source
        (all-Source cel ctx now e.policies e.programs (record no_decision { timestamp = now })),
    λ id m.
        all_matched_rank cel ctx now e.policies e.programs (record no_decision { timestamp = now })
          id m.0 m.1 m.2,
  )

  -- If a policy matches that denies, then the decision denies.
  pub evaluate_denies :
      (id : String)
      → Matches id
      → (policy_decision id).action ≡ "DENY"
      → (evaluate cel ctx now e).action ≡ "DENY"
  evaluate_denies id m h =
      let d = evaluate cel ctx now e in
      let r = evaluate_most_restrictive.1 id m in
      let top : action_priority (policy_decision id).action ≡ 5 =
        rw h (unfold action_priority in refl) in
      highest_denies d.action
        (omega (arith, severity_priority-le d.severity, action_priority-le d.action))
