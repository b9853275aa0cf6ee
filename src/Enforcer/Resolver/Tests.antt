-- ===== src/Enforcer/Resolver/Tests.antt =====
-- Runs of the resolver and its theorems on concrete stores.
use palaestra_mcp_bridge.Common.{
  ◌≡◌, refl, String, true, false, none, some, [], ◌∷◌, ◌==◌, ◌⊎◌, if◌then◌else◌,
}
use palaestra_mcp_bridge.Common.Dict.{Dict, lookup}
use palaestra_mcp_bridge.Enforcer.Types.{SafetyProfile, no_profile}
use palaestra_mcp_bridge.Enforcer.Resolver.{
  ToolProfileStore, ToolProfileRow, EnforcerOverrideRow, override_key, from_override,
  from_user_override, personal_override, resolve_for_user, strip_namespace_prefix,
}
use palaestra_mcp_bridge.Enforcer.Resolver.Tiers.{IsStoredSource, resolve_for_user_lem}

abbrev same_text : String → String
same_text s = s

abbrev one_profile : ToolProfileRow
one_profile = record {
  backend_id = "github";
  tool_name = "list_repos";
  risk_level = "low";
  impact_scope = "read";
  resource_cost = 1;
  requires_hitl = false;
  pii_exposure = false;
  idempotent = true;
  raw_profile = "{}";
}

abbrev own_override : EnforcerOverrideRow
own_override = record {
  tool_name = "github_list_repos";
  backend_id = "github";
  risk_level = "high";
  impact_scope = "read";
  resource_cost = 9;
  requires_hitl = true;
  pii_exposure = false;
  user_id = "u1";
}

abbrev small_store : ToolProfileStore
small_store = record {
  get_tool_profile = λ backend tool. if tool == "list_repos" then some one_profile else none;
  get_tool_prefix = λ _. none;
  list_user_overrides = λ user. some (own_override ∷ []);
}

stripped : strip_namespace_prefix small_store "github_list_repos" "github" ≡ "list_repos"
unfolding strip_namespace_prefix
stripped = refl

abbrev resolved : SafetyProfile
resolved = resolve_for_user same_text (some small_store) [] "github_list_repos" "github" "u1"

resolve_for_user_example :
    ((resolved.tool_name ≡ "github_list_repos") × (resolved.backend_id ≡ "github"))
    × (((resolved.source ≡ "override")
          × ((o : SafetyProfile) × (lookup {V = SafetyProfile}
                  (override_key "github_list_repos" "github")
                  []
                ≡ some o)
              × (resolved ≡ from_override "github_list_repos" "github" o)))
        ⊎ ((resolved.source ≡ "user_override")
            × (lookup {V = SafetyProfile} (override_key "github_list_repos" "github") [] ≡ none)
            × ((o : EnforcerOverrideRow) × (personal_override same_text
                    (some small_store)
                    "github_list_repos"
                    "github"
                    "u1"
                  ≡ some o)
                × (resolved ≡ from_user_override "github_list_repos" "github" o)))
        ⊎ (IsStoredSource resolved.source
            × (lookup {V = SafetyProfile} (override_key "github_list_repos" "github") [] ≡ none)
            × (personal_override same_text (some small_store) "github_list_repos" "github" "u1"
                ≡ none)))
resolve_for_user_example =
    resolve_for_user_lem same_text (some small_store) "github_list_repos" "github" [] "u1"

abbrev critical : SafetyProfile
critical = record no_profile { risk = "critical"; impact = "delete" }

abbrev one_override : Dict SafetyProfile
one_override = ("github_list_repos|github", critical) ∷ []
