-- ===== src/Enforcer/Heuristics.antt =====
-- enforcer/heuristics.go: a safety profile from a tool's name, its description and the keys of its
-- input schema. `strings.ToLower` is a parameter; `strings.Index` and `strings.Contains` are the
-- library's search, whose positions count bytes, as Go's do. The patterns are ASCII.
pub mod Words
pub mod Risk
pub mod Tests
use palaestra_mcp_bridge.Common.{
  ℕ, ◌+◌, ◌-◌, ◌*◌, suc, zero, String, Bool, true, false, ◌&&◌, ◌||◌, not, Option, none, some, List,
  [], ◌∷◌, ◌==◌, eqb, if◌then◌else◌,
}
use palaestra_mcp_bridge.Enforcer.Types.{RiskLevel, ImpactScope, SafetyProfile, no_profile}
use Prim.Native.String.{len, slice}
use text.Mathlib.Text.{find?}

unfoldable pub promote_risk : RiskLevel → RiskLevel
promote_risk current =
    if current == "low" then "medium" else if current == "medium" then "high" else "critical"

pub record HeuristicRule : Type 0 where
  pub patterns : List String
  pub risk : RiskLevel
  pub impact : ImpactScope
  pub idempotent : Bool
  pub requires_hitl : Bool
  pub cost : ℕ

abbrev pub rule : List String → RiskLevel → ImpactScope → Bool → Bool → ℕ → HeuristicRule
rule patterns risk impact idempotent requires_hitl cost = record {
  patterns = patterns;
  risk = risk;
  impact = impact;
  idempotent = idempotent;
  requires_hitl = requires_hitl;
  cost = cost;
}

-- In order; the first match wins.
unfoldable pub classification_rules : List HeuristicRule
classification_rules =
    rule
      ("delete_all" ∷ "purge" ∷ "drop_database" ∷ "drop_table" ∷ "wipe" ∷ "terminate_cluster"
        ∷ "decommission" ∷ "factory_reset" ∷ "hard_delete" ∷ [])
      "critical" "delete" false true 20
    ∷ rule
        ("delete" ∷ "remove" ∷ "destroy" ∷ "revoke" ∷ "deactivate" ∷ "disable" ∷ "ban" ∷ "block"
          ∷ "archive" ∷ "unsubscribe" ∷ "cancel" ∷ "terminate" ∷ "kill" ∷ "stop_service"
          ∷ "deprovision" ∷ "offboard" ∷ [])
        "high" "delete" false false 10
    ∷ rule
        ("grant" ∷ "assign_role" ∷ "elevate" ∷ "promote" ∷ "impersonate" ∷ "sudo" ∷ "reset_password"
          ∷ "rotate_key" ∷ "generate_token" ∷ "create_api_key" ∷ "set_permission" ∷ [])
        "high" "admin" false false 10
    ∷ rule
        ("charge" ∷ "invoice" ∷ "refund" ∷ "transfer" ∷ "withdraw" ∷ "purchase" ∷ "pay" ∷ "billing"
          ∷ "subscribe" ∷ "checkout" ∷ [])
        "high" "admin" false true 10
    ∷ rule
        ("create" ∷ "add" ∷ "insert" ∷ "write" ∷ "post" ∷ "publish" ∷ "send" ∷ "submit" ∷ "upload"
          ∷ "import" ∷ "deploy" ∷ "provision" ∷ "onboard" ∷ "register" ∷ "invite" ∷ "put" ∷ [])
        "medium" "write" false false 5
    ∷ rule
        ("update" ∷ "edit" ∷ "modify" ∷ "patch" ∷ "set" ∷ "change" ∷ "rename" ∷ "move" ∷ "migrate"
          ∷ "replace" ∷ "upsert" ∷ "merge" ∷ [])
        "medium" "write" false false 5
    ∷ rule
        ("run" ∷ "execute" ∷ "trigger" ∷ "start" ∷ "launch" ∷ "fire" ∷ "invoke" ∷ "call" ∷ "process"
          ∷ "enqueue" ∷ "schedule" ∷ [])
        "medium" "write" false false 7
    ∷ rule
        ("get" ∷ "fetch" ∷ "read" ∷ "list" ∷ "search" ∷ "find" ∷ "query" ∷ "lookup" ∷ "retrieve"
          ∷ "describe" ∷ "explain" ∷ "show" ∷ "view" ∷ "inspect" ∷ "check" ∷ "status" ∷ "health"
          ∷ "ping" ∷ "count" ∷ "summarize" ∷ "report" ∷ "export" ∷ "download" ∷ [])
        "low" "read" true false 1
    ∷ []

unfoldable pub pii_schema_patterns : List String
pii_schema_patterns =
    "email" ∷ "phone" ∷ "mobile" ∷ "address" ∷ "postcode" ∷ "zip" ∷ "ssn" ∷ "national_id"
    ∷ "passport" ∷ "dob" ∷ "birth" ∷ "credit_card" ∷ "card_number" ∷ "iban" ∷ "bank_account"
    ∷ "salary" ∷ "income" ∷ "tax" ∷ "password" ∷ "secret" ∷ "token" ∷ "api_key" ∷ "access_key"
    ∷ "private_key" ∷ []

unfoldable pub pii_description_signals : List String
pii_description_signals =
    "personal data" ∷ "pii" ∷ "gdpr" ∷ "email address" ∷ "phone number" ∷ "credit card"
    ∷ "social security" ∷ "passport" ∷ "date of birth" ∷ []

unfoldable pub irreversibility_signals : List String
irreversibility_signals =
    "permanent" ∷ "irreversible" ∷ "cannot be undone" ∷ "cannot be recovered" ∷ "destroy" ∷ "wipe"
    ∷ "purge" ∷ "terminates all" ∷ "drops all" ∷ "truncates" ∷ "hard delete" ∷ "force delete" ∷ []

unfoldable pub bulk_signals : List String
bulk_signals =
    "bulk" ∷ "batch" ∷ "all records" ∷ "entire" ∷ "mass " ∷ "fleet" ∷ "all users" ∷ "all items"
    ∷ "all tickets" ∷ "all issues" ∷ []

abbrev pub is_some {ℓ} : {A : Type ℓ} → Option A → Bool
is_some none = false
is_some (some _) = true

-- `strings.Contains`
abbrev pub contains : String → String → Bool
contains s pat = is_some (find? s pat)

-- The two boundaries of an occurrence at `idx`: the text's ends or an underscore.
unfoldable pub at_boundaries : String → String → ℕ → Bool
at_boundaries s pat idx =
    let end = idx + len pat in
    (eqb idx 0 || slice s (idx - 1) idx == "_") && (eqb end (len s) || slice s end (suc end) == "_")

-- The loop of `containsWordOrPrefix`, from an occurrence at `idx`, in at most as many rounds as the
-- first number says.
unfoldable pub word_from : ℕ → String → String → ℕ → Bool
word_from zero s pat idx = false
word_from (suc n) s pat idx =
    if at_boundaries s pat idx then true else elim (find? (slice s (idx + 1) (len s)) pat) [
      | none ↦ false
      | some next ↦ word_from n s pat (idx + 1 + next)
    ]

-- `containsWordOrPrefix`
unfoldable pub contains_word_or_prefix : String → String → Bool
unfolding word_from
contains_word_or_prefix s pat = elim (find? s pat) [
  | none ↦ false
  | some idx ↦ word_from (suc (len s)) s pat idx
]

-- Whether one of the texts passes a test.
abbrev pub any_of : (String → Bool) → List String → Bool
any_of test [] = false
any_of test (x ∷ xs) = test x || any_of test xs

-- The first rule with a pattern that the name has as a word.
unfoldable pub first_rule : String → List HeuristicRule → Option HeuristicRule
unfolding contains_word_or_prefix
first_rule lower [] = none
first_rule lower (r ∷ rs) =
    let rest = first_rule lower rs in
    if any_of (contains_word_or_prefix lower) r.patterns then some r else rest

-- The profile before the promotions; without a match, the sentinel.
unfoldable pub base_profile : Option HeuristicRule → SafetyProfile
base_profile (some r) = record no_profile {
  source = "inferred";
  risk = r.risk;
  impact = r.impact;
  idempotent = r.idempotent;
  requires_hitl = r.requires_hitl;
  cost = r.cost;
}
base_profile none = record no_profile {
  source = "inferred";
  risk = "high";
  impact = "delete";
  idempotent = false;
  requires_hitl = true;
  cost = 10;
}

unfoldable pub promote_irreversible : Bool → SafetyProfile → SafetyProfile
unfolding promote_risk
promote_irreversible false p = p
promote_irreversible true p = record p {
  risk = promote_risk p.risk;
  requires_hitl = true;
  idempotent = false;
}

unfoldable pub promote_bulk : Bool → SafetyProfile → SafetyProfile
unfolding promote_risk
promote_bulk false p = p
promote_bulk true p = record p {
  risk = promote_risk p.risk;
  requires_hitl = true;
  cost = p.cost * 3;
}

unfoldable pub promote_pii : Bool → SafetyProfile → SafetyProfile
promote_pii pii p =
    let risk' = if pii && p.risk == "low" then "medium" else p.risk in
    record p { risk = risk'; pii_exposure = pii }

module _ (to_lower : String → String) where
  -- The schema is the list of its keys, none for nil.
  unfoldable pub has_pii : String → List String → Bool
  unfolding pii_schema_patterns pii_description_signals
  has_pii description schema =
      any_of (λ key. any_of (contains (to_lower key)) pii_schema_patterns) schema
      || (not (description == "")
          && any_of (contains (to_lower description)) pii_description_signals)

  unfoldable pub is_irreversible : String → Bool
  unfolding irreversibility_signals
  is_irreversible description =
      not (description == "") && any_of (contains (to_lower description)) irreversibility_signals

  unfoldable pub is_bulk : String → String → Bool
  unfolding bulk_signals contains_word_or_prefix
  is_bulk tool_name description =
      any_of
        (λ sig.
          contains_word_or_prefix (to_lower tool_name) sig
          || (not (description == "") && contains (to_lower description) sig))
        bulk_signals

  -- `HeuristicProfile`
  unfoldable pub heuristic_profile : String → String → List String → SafetyProfile
  heuristic_profile tool_name description schema = promote_pii (has_pii description schema) (
      promote_bulk (is_bulk tool_name description) (
        promote_irreversible (is_irreversible description)
          (base_profile (first_rule (to_lower tool_name) classification_rules))))
