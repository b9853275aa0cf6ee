-- ===== src/Enforcer/Resolver.antt =====
-- enforcer/resolver.go: the safety profile of a tool, from the overrides in memory, the user's own
-- overrides, the stored profiles, and the heuristics. The store is the source's interface
-- `ToolProfileStore`; none stands for its errors.
pub mod Tiers
pub mod Overrides
pub mod Tests
use Prim.Native.String.{len, slice, ◌++◌ as append}
use text.Mathlib.Text.{starts_with}
use palaestra_mcp_bridge.Common.{
  ℕ, String, Bool, true, false, ◌&&◌, ◌||◌, not, Option, none, some, List, [], ◌∷◌, ◌==◌,
  if◌then◌else◌,
}
use palaestra_mcp_bridge.Common.Dict.{Dict, lookup, insert, remove}
use palaestra_mcp_bridge.Enforcer.Types.{SafetyProfile, no_profile}
use palaestra_mcp_bridge.Enforcer.Heuristics.{heuristic_profile, contains}

pub record EnforcerOverrideRow : Type 0 where
  pub tool_name : String
  pub backend_id : String
  pub risk_level : String
  pub impact_scope : String
  pub resource_cost : ℕ
  pub requires_hitl : Bool
  pub pii_exposure : Bool
  pub user_id : String

pub record ToolProfileRow : Type 0 where
  pub backend_id : String
  pub tool_name : String
  pub risk_level : String
  pub impact_scope : String
  pub resource_cost : ℕ
  pub requires_hitl : Bool
  pub pii_exposure : Bool
  pub idempotent : Bool
  pub raw_profile : String

pub record ToolProfileStore : Type 0 where
  pub get_tool_profile : String → String → Option ToolProfileRow
  pub get_tool_prefix : String → Option String
  pub list_user_overrides : String → Option (List EnforcerOverrideRow)

-- `s[len(p):]`
abbrev drop_prefix : String → String → String
drop_prefix p s = slice s (len p) (len s)

unfoldable pub effective_prefix : Option String → String → String
effective_prefix none backend = append backend "_"
effective_prefix (some prefix) backend = if prefix == "" then append backend "_" else prefix

abbrev without_underscore : String → String
without_underscore result = if starts_with result "_" then drop_prefix "_" result else result

-- `stripNamespacePrefix`
unfoldable pub strip_namespace_prefix : ToolProfileStore → String → String → String
unfolding effective_prefix
strip_namespace_prefix store tool backend =
    let prefix = effective_prefix (store.get_tool_prefix backend) backend in
    if starts_with tool prefix then without_underscore (drop_prefix prefix tool) else tool

-- `sourceFromRawProfile`
unfoldable pub source_from_raw_profile : String → String
source_from_raw_profile raw =
    if contains raw "\"source\":\"inferred\"" then "inferred" else "self_reported"

-- `toolName + "|" + backendID`
unfoldable pub override_key : String → String → String
override_key tool backend = append tool (append "|" backend)

unfoldable pub from_override : String → String → SafetyProfile → SafetyProfile
from_override tool backend p = record p {
  tool_name = tool;
  backend_id = backend;
  source = "override";
}

unfoldable pub from_user_override : String → String → EnforcerOverrideRow → SafetyProfile
from_user_override tool backend o = record no_profile {
  tool_name = tool;
  backend_id = backend;
  risk = o.risk_level;
  impact = o.impact_scope;
  cost = o.resource_cost;
  requires_hitl = o.requires_hitl;
  pii_exposure = o.pii_exposure;
  source = "user_override";
}

unfoldable pub from_tool_profile : String → String → ToolProfileRow → SafetyProfile
unfolding source_from_raw_profile
from_tool_profile tool backend row = record no_profile {
  tool_name = tool;
  backend_id = backend;
  risk = row.risk_level;
  impact = row.impact_scope;
  cost = row.resource_cost;
  requires_hitl = row.requires_hitl;
  pii_exposure = row.pii_exposure;
  source = source_from_raw_profile row.raw_profile;
}

-- The first of the user's overrides for the tool on the backend.
unfoldable pub find_user_override :
    String → String → List EnforcerOverrideRow → Option EnforcerOverrideRow
find_user_override tool backend [] = none
find_user_override tool backend (o ∷ rest) =
    let further = find_user_override tool backend rest in
    if o.tool_name == tool && o.backend_id == backend then some o else further

abbrev user_override_in :
    String → String → Option (List EnforcerOverrideRow) → Option EnforcerOverrideRow
user_override_in tool backend none = none
user_override_in tool backend (some os) = find_user_override tool backend os

module _ (to_lower : String → String) where
  -- `inferDefaults`, with the names and the source that both callers set.
  unfoldable pub infer_defaults : String → String → SafetyProfile
  infer_defaults tool backend = record (heuristic_profile to_lower tool "" []) {
    tool_name = tool;
    backend_id = backend;
    source = "inferred";
  }

  -- The stored profile, or else the inferred one: the tiers that `Resolve` and `ResolveForUser`
  -- share. The store may be nil.
  unfoldable pub resolve_stored : Option ToolProfileStore → String → String → SafetyProfile
  unfolding strip_namespace_prefix
  resolve_stored none tool backend = infer_defaults tool backend
  resolve_stored (some store) tool backend =
      elim (store.get_tool_profile backend (strip_namespace_prefix store tool backend)) [
        | none ↦ infer_defaults tool backend
        | some row ↦ from_tool_profile tool backend row
      ]

  -- `Resolve`
  unfoldable pub resolve :
      Option ToolProfileStore → Dict SafetyProfile → String → String → SafetyProfile
  unfolding override_key
  resolve store overrides tool backend = elim (lookup (override_key tool backend) overrides) [
    | some p ↦ from_override tool backend p
    | none ↦ resolve_stored store tool backend
  ]

  -- The user's own override, if there is a store and the user is known.
  unfoldable pub personal_override :
      Option ToolProfileStore → String → String → String → Option EnforcerOverrideRow
  unfolding find_user_override
  personal_override none tool backend user = none
  personal_override (some store) tool backend user =
      if user == "" then none else user_override_in tool backend (store.list_user_overrides user)

  -- `ResolveForUser`
  unfoldable pub resolve_for_user :
      Option ToolProfileStore → Dict SafetyProfile → String → String → String → SafetyProfile
  unfolding override_key
  resolve_for_user store overrides tool backend user =
      elim (lookup (override_key tool backend) overrides) [
        | some p ↦ from_override tool backend p
        | none ↦ elim (personal_override store tool backend user) [
          | some o ↦ from_user_override tool backend o
          | none ↦ resolve_stored store tool backend
        ]
      ]

-- `RegisterOverride`: whether there was no error, and the overrides.
unfoldable pub register_override :
    String → String → SafetyProfile → Dict SafetyProfile → Bool × Dict SafetyProfile
unfolding override_key
register_override tool backend p overrides =
    if p.risk == ""
    then (false, overrides)
    else if p.impact == ""
    then (false, overrides)
    else (true, insert (override_key tool backend) p overrides)

-- `RemoveOverride`
unfoldable pub remove_override : String → String → Dict SafetyProfile → Bool × Dict SafetyProfile
unfolding override_key
remove_override tool backend overrides = elim (lookup (override_key tool backend) overrides) [
  | none ↦ (false, overrides)
  | some _ ↦ (true, remove (override_key tool backend) overrides)
]

-- `GetOverride`
unfoldable pub get_override : String → String → Dict SafetyProfile → Option SafetyProfile
unfolding override_key
get_override tool backend overrides = lookup (override_key tool backend) overrides
