-- ===== src/Enforcer/Call.antt =====
-- enforcer/enforcer.go: `HandleToolCall` and `Evaluate`, over the enforcer's state; the kill
-- switches, the call-rate buckets and the audit log of store/enforcer_store.go. One reading of the
-- clock serves a call. The users, the uuids and the profile store come from outside.
pub mod Switches
pub mod Rates
pub mod Gates
pub mod Outcomes
pub mod Tests
use palaestra_mcp_bridge.Common.{
  ℕ, suc, ◌+◌, ◌-◌, ◌*◌, ◌%◌, String, Bool, true, false, ◌&&◌, ◌||◌, not, Option, none, some, List,
  [], ◌∷◌, ◌++◌, ◌==◌, ltb, eqb, if◌then◌else◌,
}
use palaestra_mcp_bridge.Common.Dict.{Dict, lookup, insert}
use Prim.Native.String.{len, ◌++◌ as append}
use palaestra_mcp_bridge.Ratelimit.Cost.{calculate_cost}
use palaestra_mcp_bridge.Ratelimit.Manager.{BucketManager, check_and_consume}
use palaestra_mcp_bridge.Ratelimit.Manager.States.{get_bucket_status}
use palaestra_mcp_bridge.Enforcer.Types.{
  Action, MatchContext, SafetyProfile, EnforcerDecision, no_decision, DecisionContext, BucketStatus,
  RateLimitInfo, EnforcerConfig, EnforcerError, policy_violation, kill_switch_active,
}
use palaestra_mcp_bridge.Enforcer.Types.Actions.{ActionSets, is_deny_action, requires_approval}
use palaestra_mcp_bridge.Enforcer.Engine.{Cel, CelEngine, evaluate, lookup_disposition}
use palaestra_mcp_bridge.Enforcer.Resolver.{ToolProfileStore, resolve_for_user}

-- The columns of a kill switch that the enforcer reads. The scope is unique.
abbrev pub KillSwitches : Type 0
KillSwitches = Dict Bool

abbrev pub enabled_in : Option Bool → Bool
enabled_in none = false
enabled_in (some b) = b

-- `IsKillSwitchActive` of the store: for the scope, or for all.
unfoldable pub is_kill_switch_active : String → KillSwitches → Bool
is_kill_switch_active scope switches =
    enabled_in (lookup scope switches) || enabled_in (lookup "global" switches)

-- `EnableKillSwitch` of the store: INSERT OR REPLACE.
unfoldable pub enable_kill_switch : String → KillSwitches → KillSwitches
enable_kill_switch scope switches = insert scope true switches

-- `DisableKillSwitch` of the store: an UPDATE, of no row if the scope has none.
unfoldable pub disable_kill_switch : String → KillSwitches → KillSwitches
disable_kill_switch scope switches = elim (lookup scope switches) [
  | none ↦ switches
  | some _ ↦ insert scope false switches
]

-- A row of the call-rate table; user, tool and start of the window are its key.
pub record RateBucket : Type 0 where
  pub user_id : String
  pub tool_name : String
  pub window_start : ℕ
  pub count : ℕ

unfoldable pub same_window : String → String → ℕ → RateBucket → Bool
same_window user tool start b =
    b.user_id == user && (b.tool_name == tool && eqb b.window_start start)

unfoldable pub count_at : String → String → ℕ → List RateBucket → ℕ
unfolding same_window
count_at user tool start [] = 0
count_at user tool start (b ∷ bs) =
    let rest = count_at user tool start bs in
    if same_window user tool start b then b.count else rest

unfoldable pub increment_at : String → String → ℕ → List RateBucket → List RateBucket
unfolding same_window
increment_at user tool start [] =
    record { user_id = user; tool_name = tool; window_start = start; count = 1 } ∷ []
increment_at user tool start (b ∷ bs) =
    let rest = increment_at user tool start bs in
    if same_window user tool start b then record b { count = suc b.count } ∷ bs else b ∷ rest

-- `time.Now().Truncate(windowDuration)`, for a window that is not empty.
unfoldable pub window_start_at : ℕ → ℕ → ℕ
window_start_at now window = now - now % window

-- `IncrementRateBucket`
unfoldable pub increment_rate_bucket :
    ℕ → ℕ → String → String → List RateBucket → ℕ × List RateBucket
increment_rate_bucket now window user tool bs =
    let start = window_start_at now window in
    let bs' = increment_at user tool start bs in (count_at user tool start bs', bs')

-- `GetCallRate`
unfoldable pub get_call_rate : ℕ → ℕ → String → String → List RateBucket → ℕ
get_call_rate now window user tool bs = count_at user tool (window_start_at now window) bs

-- A row of the audit log, without its uuids and its JSON context.
pub record AuditEntry : Type 0 where
  pub user_id : String
  pub tool_name : String
  pub action : String
  pub policy_id : String
  pub justification : String
  pub rejection_reason : String

pub record User : Type 0 where
  pub id : String
  pub email : String
  pub role : String

-- What calls change.
pub record State : Type 0 where
  pub buckets : BucketManager
  pub rates : List RateBucket
  pub audit : List AuditEntry

-- What a call reads: the enforcer's parts, and what is asked of the outside.
pub record Enforcer (P : Type 0) : Type 0 where
  pub config : EnforcerConfig
  pub actions : ActionSets
  pub engine : CelEngine P
  pub overrides : Dict SafetyProfile
  pub kill_switches : KillSwitches
  pub store : Option ToolProfileStore
  pub get_user : Option (String → Option User)

pub record ToolCall : Type 0 where
  pub user_id : String
  pub tool_name : String
  pub args : String
  pub backend_id : String
  pub justification : String
  pub skip_justification : Bool

abbrev pub Answer : Type 0
Answer = EnforcerDecision × Option EnforcerError

abbrev pub decision : Action → String → String → String → EnforcerDecision
decision action severity message policy_id = record no_decision {
  action = action;
  severity = severity;
  message = message;
  policy_id = policy_id;
}

unfoldable pub log_rejection : ToolCall → String → State → State
log_rejection call reason s = record s {
  audit =
      record {
        user_id = call.user_id;
        tool_name = call.tool_name;
        action = "DENY";
        policy_id = reason;
        justification = call.justification;
        rejection_reason = reason;
      }
      ∷ s.audit;
}

-- `logDecision`
unfoldable pub log_decision : DecisionContext → EnforcerDecision → State → State
log_decision ctx d s = record s {
  audit =
      record {
        user_id = ctx.user_id;
        tool_name = ctx.tool;
        action = d.action;
        policy_id = d.policy_id;
        justification = ctx.justification;
        rejection_reason = "";
      }
      ∷ s.audit;
}

-- What the code takes from Go's library: `strings.ToLower`, and `%d` of a number.
pub record GoText : Type 0 where
  pub to_lower : String → String
  pub decimal : ℕ → String

abbrev too_short_message : GoText → ℕ → ℕ → String
too_short_message go least given = append "Tool call rejected: justification must be at least " (
    append (go.decimal least)
      (append " characters. Provided: " (append (go.decimal given) " characters.")))

-- The gate before the policies: the reason for the log and the decision.
unfoldable pub justification_gate :
    GoText → EnforcerConfig → ToolCall → Option (String × EnforcerDecision)
justification_gate go config call =
    if not call.skip_justification && ltb 0 config.min_justification_length
    then if call.justification == ""
      then some (
        "missing_justification",
        decision "DENY" "MEDIUM" "Tool call rejected: justification is required."
            "justification_required",
      )
      else if ltb (len call.justification) config.min_justification_length
      then some (
        "justification_too_short",
        decision "DENY" "MEDIUM"
            (too_short_message go config.min_justification_length (len call.justification))
            "justification_too_short",
      )
      else none
    else none

-- The costs of a call: more for an inferred profile.
unfoldable pub call_cost : EnforcerConfig → SafetyProfile → ℕ × ℕ
call_cost config profile =
    let (risk_cost, resource_cost) = calculate_cost profile.cost profile.risk profile.impact in
    let m = config.inferred_cost_multiplier in
    if profile.source == "inferred" && ltb 1 m
    then (risk_cost * m, resource_cost * m)
    else (risk_cost, resource_cost)

abbrev status_record : ℕ × ℕ × ℕ → BucketStatus
status_record t = record { available = t.0; capacity = t.1; refill_rate = t.2 }

-- `NewRateLimitInfo` of what `GetBucketStatus` gives.
unfoldable pub rate_limit_info : String → String → BucketManager → RateLimitInfo
rate_limit_info user backend m =
    let (risk, resource) = get_bucket_status user backend m in
    record { risk_bucket = status_record risk; resource_bucket = status_record resource }

abbrev pub user_in : Option (String → Option User) → String → Option User
user_in none id = none
user_in (some get) id = if id == "" then none else get id

abbrev email_of : Option User → String
email_of none = ""
email_of (some u) = u.email

abbrev role_of : Option User → String
role_of none = ""
role_of (some u) = u.role

abbrev trust_of : Option User → ℕ
trust_of none = 0
trust_of (some u) = if u.role == "admin" then 100 else 50

-- The context of the call, with the profile, the rate limits and the call rate.
unfoldable pub call_context :
    Option User → ToolCall → SafetyProfile → RateLimitInfo → ℕ → DecisionContext
call_context user call profile info rate = record {
  user_id = call.user_id;
  user_role = role_of user;
  user_email = email_of user;
  trust_level = trust_of user;
  tool = call.tool_name;
  args = call.args;
  justification = call.justification;
  safety = profile;
  call_rate = rate;
  backend_id = call.backend_id;
  rate_limit = info;
  request_body = "";
}

unfoldable pub count_call : EnforcerConfig → ℕ → ToolCall → State → ℕ × State
unfolding increment_rate_bucket
count_call config now call s =
    if ltb 0 config.rate_window_duration
    then (let (n, rates) =
          increment_rate_bucket now config.rate_window_duration call.user_id call.tool_name
            s.rates in
        (n, record s { rates = rates }))
    else (0, s)

module _ (go : GoText) (cel : Cel) (e : Enforcer cel.Program) where
  -- `Evaluate` of the enforcer: the kill switches, then the policies.
  unfoldable pub evaluate_call : ℕ → DecisionContext → State → Answer × State
  unfolding is_kill_switch_active log_decision
  evaluate_call now ctx s =
      if e.config.enable_kill_switch && is_kill_switch_active ctx.backend_id e.kill_switches
      then (
        (decision "DENY" "CRITICAL" "Emergency kill switch is active" "", some kill_switch_active),
        s,
      )
      else (let d = evaluate cel ctx now e.engine in ((d, none), log_decision ctx d s))

  -- `resolveDisposition`
  unfoldable pub resolve_disposition : MatchContext → Action × String
  resolve_disposition ctx = elim (lookup_disposition ctx e.engine) [
    | none ↦ (
      "DENY",
      append "Rate limit exceeded: no disposition policy configured for context '" (append ctx "'"),
    )
    | some found ↦ found
  ]

  -- The rate limit, for a call that is to be executed.
  unfoldable pub charge : ℕ → ToolCall → SafetyProfile → EnforcerDecision → State → Answer × State
  unfolding call_cost resolve_disposition
  charge now call profile d s =
      let (risk_cost, resource_cost) = call_cost e.config profile in
      let ((risk_allowed, resource_allowed), buckets) =
        check_and_consume call.user_id call.backend_id risk_cost resource_cost now s.buckets in
      let s' = record s { buckets = buckets } in
      if not risk_allowed || not resource_allowed
      then (let ctx = if not resource_allowed then "resource_limit" else "risk_limit" in
          let (action, message) = resolve_disposition ctx in
          (
            (
              record (decision action "MEDIUM" message "rate_limit_disposition") {
                match_context = ctx;
                timestamp = now;
              },
              none,
            ),
            s',
          ))
      else ((d, none), s')

  -- The check of the overrides' request for a human, and then the charge.
  unfoldable pub after_policy :
      ℕ → ToolCall → SafetyProfile → EnforcerDecision → State → Answer × State
  unfolding charge
  after_policy now call profile d s =
      if not (is_deny_action e.actions d.action)
        && (not (requires_approval e.actions d.action)
            && (profile.requires_hitl
                && (profile.source == "override" || profile.source == "user_override")))
      then (
        (
          decision "PENDING_USER_APPROVAL" "MEDIUM"
              "Tool requires your approval per override profile." "override_requires_hitl",
          none,
        ),
        s,
      )
      else if d.action == "ALLOW"
      then charge now call profile d s
      else ((d, none), s)

  -- Deny unless permitted: without a policy that matched, the profile's source decides.
  unfoldable pub default_gate :
      ℕ → ToolCall → SafetyProfile → EnforcerDecision → State → Answer × State
  unfolding after_policy log_rejection
  default_gate now call profile d s =
      if d.action == ""
      then if profile.source == "self_reported"
          || (profile.source == "override" || profile.source == "user_override")
        then after_policy now call profile (record d { action = "ALLOW" }) s
        else if profile.source == "inferred"
        then (
          (
            decision "PENDING_ADMIN_APPROVAL" "MEDIUM"
                "Tool requires admin approval: inferred profile, no explicit policy."
                "inferred_profile_gate",
            none,
          ),
          s,
        )
        else (
          (
            decision "DENY" "HIGH" "Tool call denied: no safety profile and no explicit policy."
                "unknown_tool_no_profile",
            some policy_violation,
          ),
          log_rejection call "unknown_tool_no_profile" s,
        )
      else after_policy now call profile d s

  -- An error ends the call with the zero decision.
  unfoldable pub after_evaluation : ℕ → ToolCall → SafetyProfile → Answer × State → Answer × State
  unfolding default_gate
  after_evaluation now call profile ((d, some x), s) = ((no_decision, some x), s)
  after_evaluation now call profile ((d, none), s) = default_gate now call profile d s

  -- After the gate on the justification.
  unfoldable pub handle_justified : ℕ → ToolCall → State → Answer × State
  unfolding count_call evaluate_call after_evaluation call_context rate_limit_info
  handle_justified now call s =
      let profile =
        resolve_for_user go.to_lower e.store e.overrides call.tool_name call.backend_id
          call.user_id in
      let info = rate_limit_info call.user_id call.backend_id s.buckets in
      let (rate, s₁) = count_call e.config now call s in
      let ctx = call_context (user_in e.get_user call.user_id) call profile info rate in
      after_evaluation now call profile (evaluate_call now ctx s₁)

  -- `HandleToolCall`
  unfoldable pub handle_tool_call : ℕ → ToolCall → State → Answer × State
  unfolding justification_gate handle_justified log_rejection
  handle_tool_call now call s = elim (justification_gate go e.config call) [
    | some (reason, d) ↦ ((d, some policy_violation), log_rejection call reason s)
    | none ↦ handle_justified now call s
  ]
