-- ===== src/Enforcer/Types.antt =====
-- enforcer/types.go: the string types with their constants, the records, and the sets of actions.
-- `SafetyProfile.Metadata`, which no code reads, and the wall-clock fields that only the policies'
-- timestamps use are left out.
pub mod Actions
use palaestra_mcp_bridge.Common.{
  ℕ, String, Bool, true, false, Option, none, some, List, [], ◌∷◌, ◌==◌,
}
use palaestra_mcp_bridge.Common.Dict.{Dict}

abbrev pub Action : Type 0
Action = String

abbrev pub action_allow : Action
action_allow = "ALLOW"

abbrev pub action_deny : Action
action_deny = "DENY"

abbrev pub action_warn : Action
action_warn = "WARN"

abbrev pub action_pending_approval : Action
action_pending_approval = "PENDING_APPROVAL"

abbrev pub action_pending_user_approval : Action
action_pending_user_approval = "PENDING_USER_APPROVAL"

abbrev pub action_pending_admin_approval : Action
action_pending_admin_approval = "PENDING_ADMIN_APPROVAL"

abbrev pub SeverityLevel : Type 0
SeverityLevel = String

abbrev pub severity_critical : SeverityLevel
severity_critical = "CRITICAL"

abbrev pub severity_high : SeverityLevel
severity_high = "HIGH"

abbrev pub severity_medium : SeverityLevel
severity_medium = "MEDIUM"

abbrev pub severity_low : SeverityLevel
severity_low = "LOW"

abbrev pub RiskLevel : Type 0
RiskLevel = String

abbrev pub risk_low : RiskLevel
risk_low = "low"

abbrev pub risk_medium : RiskLevel
risk_medium = "medium"

abbrev pub risk_high : RiskLevel
risk_high = "high"

abbrev pub risk_critical : RiskLevel
risk_critical = "critical"

abbrev pub ImpactScope : Type 0
ImpactScope = String

abbrev pub impact_read : ImpactScope
impact_read = "read"

abbrev pub impact_write : ImpactScope
impact_write = "write"

abbrev pub impact_delete : ImpactScope
impact_delete = "delete"

abbrev pub impact_admin : ImpactScope
impact_admin = "admin"

abbrev pub MatchContext : Type 0
MatchContext = String

abbrev pub match_risk_limit : MatchContext
match_risk_limit = "risk_limit"

abbrev pub match_resource_limit : MatchContext
match_resource_limit = "resource_limit"

pub record SafetyProfile : Type 0 where
  pub tool_name : String
  pub backend_id : String
  pub backend_name : String
  pub risk : RiskLevel
  pub impact : ImpactScope
  pub cost : ℕ
  pub requires_hitl : Bool
  pub pii_exposure : Bool
  pub idempotent : Bool
  pub source : String

-- The zero value.
abbrev pub no_profile : SafetyProfile
no_profile = record {
  tool_name = "";
  backend_id = "";
  backend_name = "";
  risk = "";
  impact = "";
  cost = 0;
  requires_hitl = false;
  pii_exposure = false;
  idempotent = false;
  source = "";
}

pub record EnforcerDecision : Type 0 where
  pub action : Action
  pub severity : SeverityLevel
  pub message : String
  pub policy_id : String
  pub violations : List String
  pub timestamp : ℕ
  pub priority : ℕ
  pub match_context : MatchContext

abbrev pub no_decision : EnforcerDecision
no_decision = record {
  action = "";
  severity = "";
  message = "";
  policy_id = "";
  violations = [];
  timestamp = 0;
  priority = 0;
  match_context = "";
}

pub record BucketStatus : Type 0 where
  pub available : ℕ
  pub capacity : ℕ
  pub refill_rate : ℕ

pub record RateLimitInfo : Type 0 where
  pub risk_bucket : BucketStatus
  pub resource_bucket : BucketStatus

-- What the policies are evaluated on. The arguments of the call are their serialised text.
pub record DecisionContext : Type 0 where
  pub user_id : String
  pub user_role : String
  pub user_email : String
  pub trust_level : ℕ
  pub tool : String
  pub args : String
  pub justification : String
  pub safety : SafetyProfile
  pub call_rate : ℕ
  pub backend_id : String
  pub rate_limit : RateLimitInfo
  pub request_body : String

pub record CelPolicy : Type 0 where
  pub id : String
  pub description : String
  pub expression : String
  pub action : Action
  pub message : String
  pub severity : SeverityLevel
  pub enabled : Bool
  pub priority : ℕ
  pub dispositions : Option (Dict Action)

-- The fields that the modelled operations read.
pub record EnforcerConfig : Type 0 where
  pub approval_timeout : ℕ
  pub admin_approval_timeout : ℕ
  pub user_approval_timeout : ℕ
  pub enable_kill_switch : Bool
  pub min_justification_length : ℕ
  pub rate_window_duration : ℕ
  pub inferred_cost_multiplier : ℕ

-- The sentinel errors that a decision comes with.
pub data EnforcerError : Type 0 where
  policy_violation kill_switch_active override_too_permissive : EnforcerError
