-- ===== src/Enforcer/Resolver/Tiers.antt =====
-- Which tier a resolved profile comes from.
use palaestra_mcp_bridge.Common.{
  ◌≡◌, refl, String, Option, none, some, Bool-cases, Option-cases, inl, inr, ◌⊎◌,
}
use palaestra_mcp_bridge.Common.Dict.{Dict, lookup}
use palaestra_mcp_bridge.Enforcer.Types.{SafetyProfile}
use palaestra_mcp_bridge.Enforcer.Heuristics.{contains}
use palaestra_mcp_bridge.Enforcer.Resolver.{
  ToolProfileStore, EnforcerOverrideRow, source_from_raw_profile, override_key, from_override,
  from_user_override, from_tool_profile, infer_defaults, resolve_stored, resolve, personal_override,
  resolve_for_user, strip_namespace_prefix,
}

abbrev pub IsStoredSource : String → Type 0
IsStoredSource s = (s ≡ "self_reported") ⊎ (s ≡ "inferred")

raw_source : (raw : String) → IsStoredSource (source_from_raw_profile raw)
unfolding source_from_raw_profile
raw_source raw = elim (Bool-cases (contains raw "\"source\":\"inferred\"")) [
  | inl e ↦ rw e (inr refl)
  | inr e ↦ rw e (inl refl)
]

module _ (to_lower : String → String) (store : Option ToolProfileStore)
    (tool backend : String) where
  abbrev IsNamed : SafetyProfile → Type 0
  IsNamed p = (p.tool_name ≡ tool) × (p.backend_id ≡ backend)

  stored_source :
      (store' : Option ToolProfileStore)
      → let p = resolve_stored to_lower store' tool backend in IsNamed p × IsStoredSource p.source
  unfolding resolve_stored infer_defaults from_tool_profile
  stored_source none = ((refl, refl), inr refl)
  stored_source (some s) =
      elim (Option-cases (s.get_tool_profile backend (strip_namespace_prefix s tool backend))) [
        | inl e ↦ simp e ((refl, refl), inr refl)
        | inr (row, e) ↦ simp e ((refl, refl), raw_source row.raw_profile)
      ]

  module _ (overrides : Dict SafetyProfile) (user : String) where
    -- The profile that `ResolveForUser` returns is for the tool and the backend that were asked,
    -- and comes from the admin's override if there is one; else from the user's own override if
    -- there is one; and else its source is "self_reported" or "inferred".
    pub resolve_for_user_lem :
        let p = resolve_for_user to_lower store overrides tool backend user in
        let admin = lookup (override_key tool backend) overrides in
        let personal = personal_override to_lower store tool backend user in
        ((p.tool_name ≡ tool) × (p.backend_id ≡ backend))
        × (((p.source ≡ "override")
              × ((o : SafetyProfile) × (admin ≡ some o) × (p ≡ from_override tool backend o)))
            ⊎ ((p.source ≡ "user_override")
                × (admin ≡ none)
                × ((o : EnforcerOverrideRow) × (personal ≡ some o)
                    × (p ≡ from_user_override tool backend o)))
            ⊎ (IsStoredSource p.source × (admin ≡ none) × (personal ≡ none)))
    unfolding resolve_for_user from_override from_user_override
    resolve_for_user_lem = elim (Option-cases (lookup (override_key tool backend) overrides)) [
      | inr (o, e) ↦ rw (e, resolve_for_user) ((refl, refl), inl (refl, (o, refl, refl)))
      | inl e ↦ elim (Option-cases (personal_override to_lower store tool backend user)) [
        | inr (o, k) ↦
            rw (e, k, resolve_for_user) ((refl, refl), inr (inl (refl, refl, (o, refl, refl))))
        | inl k ↦
            let s = stored_source store in
            rw (e, k, resolve_for_user) (s.0, inr (inr (s.1, refl, refl)))
      ]
    ]

    -- Without a user, `ResolveForUser` and `Resolve` give the same profile.
    pub resolve_for_user-nobody :
        resolve_for_user to_lower store overrides tool backend ""
        ≡ resolve to_lower store overrides tool backend
    unfolding resolve_for_user resolve personal_override
    resolve_for_user-nobody = go store
      where
        go :
            (x : Option ToolProfileStore)
            → resolve_for_user to_lower x overrides tool backend ""
              ≡ resolve to_lower x overrides tool backend
        go none = refl
        go (some _) = refl
