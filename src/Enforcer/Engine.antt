-- ===== src/Enforcer/Engine.antt =====
-- enforcer/cel_engine.go: the policies of the engine, their evaluation, and the dispositions. The
-- CEL library compiles and runs the expressions; it is a parameter. `range` over a map meets the
-- entries in some order, that of the association list.
pub mod Rank
pub mod Restrictive
pub mod Dispositions
pub mod Reload
pub mod Tests
use Prim.Native.String.{◌++◌ as append}
use palaestra_mcp_bridge.Common.{
  ℕ, ◌≡◌, String, Bool, true, false, ◌&&◌, Option, none, some, List, [], ◌∷◌, ◌++◌, ◌==◌,
  if◌then◌else◌, ltb, eqb,
}
use palaestra_mcp_bridge.Common.Dict.{Dict, lookup, insert, remove}
use palaestra_mcp_bridge.Enforcer.Types.{
  Action, SeverityLevel, MatchContext, EnforcerDecision, no_decision, DecisionContext, CelPolicy,
}

-- What a program gives: an error, a Boolean, or a value of another type.
pub data Outcome : Type 0 where
  failed : String → Outcome
  value : Bool → Outcome
  not_bool : Outcome

-- The CEL library: parsing, checking and compiling an expression, and running a program.
pub record Cel : Type 1 where
  pub Program : Type 0
  pub compile : String → Option Program
  pub eval : Program → DecisionContext → Outcome

pub record PrioritisedDisposition : Type 0 where
  pub priority : ℕ
  pub action : Action
  pub message : String

pub record CelEngine (P : Type 0) : Type 0 where
  pub programs : Dict P
  pub policies : Dict CelPolicy
  pub dispositions : Dict (List PrioritisedDisposition)

unfoldable pub action_priority : Action → ℕ
action_priority a =
    if a == "DENY"
    then 5
    else if a == "PENDING_ADMIN_APPROVAL"
    then 4
    else if a == "PENDING_APPROVAL"
    then 4
    else if a == "PENDING_USER_APPROVAL"
    then 3
    else if a == "WARN"
    then 2
    else if a == "ALLOW"
    then 1
    else 0

unfoldable pub severity_priority : SeverityLevel → ℕ
severity_priority s =
    if s == "CRITICAL"
    then 4
    else if s == "HIGH"
    then 3
    else if s == "MEDIUM"
    then 2
    else if s == "LOW"
    then 1
    else 0

-- `shouldUpdateDecision`
unfoldable pub should_update_decision : EnforcerDecision → EnforcerDecision → Bool
should_update_decision current new =
    let new_priority = action_priority new.action in
    let current_priority = action_priority current.action in
    let new_sev = severity_priority new.severity in
    let current_sev = severity_priority current.severity in
    if ltb current_priority new_priority
    then true
    else if eqb new_priority current_priority
    then (if ltb current_sev new_sev
        then true
        else if eqb new_sev current_sev && (ltb 0 new.priority && ltb 0 current.priority)
        then ltb new.priority current.priority
        else false)
    else false

-- The zero policy, which a read of a missing key gives.
abbrev no_policy : CelPolicy
no_policy = record {
  id = "";
  description = "";
  expression = "";
  action = "";
  message = "";
  severity = "";
  enabled = false;
  priority = 0;
  dispositions = none;
}

abbrev pub policy_or_zero : Option CelPolicy → CelPolicy
policy_or_zero none = no_policy
policy_or_zero (some p) = p

-- The decision of a policy that matched.
abbrev pub decision_of : ℕ → String → CelPolicy → EnforcerDecision
decision_of now id policy = record {
  action = policy.action;
  severity = policy.severity;
  message = policy.message;
  policy_id = id;
  violations = [];
  timestamp = now;
  priority = policy.priority;
  match_context = "";
}

abbrev pub with_violation : String → EnforcerDecision → EnforcerDecision
with_violation v d = record d { violations = d.violations ++ (v ∷ []) }

-- A policy that matched: its decision replaces the current one if it is more restrictive.
unfoldable pub apply_match : ℕ → String → CelPolicy → EnforcerDecision → EnforcerDecision
apply_match now id policy current =
    let decision = decision_of now id policy in
    with_violation (append id (append ": " policy.description))
      (if should_update_decision current decision then decision else current)

-- `AddPolicy` appends to the dispositions of each context that the policy names.
unfoldable pub add_dispositions :
    ℕ
    → String
    → Dict Action
    → Dict (List PrioritisedDisposition)
    → Dict (List PrioritisedDisposition)
add_dispositions priority message [] ds = ds
add_dispositions priority message ((ctx, action) ∷ rest) ds =
    let entry : PrioritisedDisposition = record {
      priority = priority;
      action = action;
      message = message;
    } in
    add_dispositions priority message rest (
      insert ctx
        (elim (lookup ctx ds) [ none ↦ entry ∷ [] | some entries ↦ entries ++ (entry ∷ []) ]) ds)

abbrev pub policy_dispositions :
    CelPolicy → Dict (List PrioritisedDisposition) → Dict (List PrioritisedDisposition)
policy_dispositions p ds = elim p.dispositions [
  | none ↦ ds
  | some d ↦ add_dispositions p.priority p.message d ds
]

-- `loadDispositions`, from an empty map.
unfoldable pub load_dispositions :
    Dict CelPolicy → Dict (List PrioritisedDisposition) → Dict (List PrioritisedDisposition)
unfolding add_dispositions
load_dispositions [] ds = ds
load_dispositions ((id, p) ∷ rest) ds = load_dispositions rest (policy_dispositions p ds)

-- The loop of `LookupDisposition`: the first of the entries with the least number.
unfoldable pub best_of :
    PrioritisedDisposition → List PrioritisedDisposition → PrioritisedDisposition
best_of best [] = best
best_of best (e ∷ rest) = best_of (if ltb e.priority best.priority then e else best) rest

-- `LookupDisposition`
unfoldable pub lookup_disposition :
    {P : Type 0} → MatchContext → CelEngine P → Option (Action × String)
unfolding best_of
lookup_disposition ctx e = elim (lookup ctx e.dispositions) [
  | none ↦ none
  | some [] ↦ none
  | some (first ∷ rest) ↦ let best = best_of first rest in some (best.action, best.message)
]

module _ (cel : Cel) where
  open cel use {Program, compile, eval}

  -- `NewCELEngine`
  abbrev pub new_engine : CelEngine Program
  new_engine = record { programs = []; policies = []; dispositions = [] }

  -- `AddPolicy`: whether it returned no error, and the engine. A disabled policy is skipped.
  unfoldable pub add_policy : CelPolicy → CelEngine Program → Bool × CelEngine Program
  unfolding load_dispositions
  add_policy policy e =
      if policy.enabled
      then elim (compile policy.expression) [
        | none ↦ (false, e)
        | some program ↦
            let policies = insert policy.id policy e.policies in
            (
              true,
              record {
                programs = insert policy.id program e.programs;
                policies = policies;
                dispositions = load_dispositions policies [];
              },
            )
      ]
      else (true, e)

  -- `RemovePolicy`
  unfoldable pub remove_policy : String → CelEngine Program → CelEngine Program
  remove_policy id e = record e { programs = remove id e.programs; policies = remove id e.policies }

  -- The body of the loop of `Evaluate`.
  unfoldable pub evaluate_policy :
      DecisionContext → ℕ → Dict CelPolicy → String → Program → EnforcerDecision → EnforcerDecision
  unfolding apply_match
  evaluate_policy ctx now policies id program current = elim (eval program ctx) [
    | failed err ↦
        with_violation (append "policy " (append id (append " evaluation error: " err))) current
    | value true ↦ apply_match now id (policy_or_zero (lookup id policies)) current
    | value false ↦ current
    | not_bool ↦ current
  ]

  unfoldable pub evaluate_all :
      DecisionContext → ℕ → Dict CelPolicy → Dict Program → EnforcerDecision → EnforcerDecision
  evaluate_all ctx now policies [] current = current
  evaluate_all ctx now policies ((id, program) ∷ rest) current =
      evaluate_all ctx now policies rest (evaluate_policy ctx now policies id program current)

  -- `Evaluate`
  unfoldable pub evaluate : DecisionContext → ℕ → CelEngine Program → EnforcerDecision
  evaluate ctx now e =
      evaluate_all ctx now e.policies e.programs (record no_decision { timestamp = now })
