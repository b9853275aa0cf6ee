-- ===== src/Enforcer/Resolver/Overrides.antt =====
-- The admin's overrides: what registering and removing them does to what is resolved.
use palaestra_mcp_bridge.Common.{
  ◌≡◌, ◌≢◌, refl, String, true, false, Option, none, ◌==◌, Option-cases, inl, inr, eq_refl, eq_iff,
  arith,
}
use palaestra_mcp_bridge.Common.Dict.{Dict, lookup, lookup-insert_self, lookup-remove}
use palaestra_mcp_bridge.Enforcer.Types.{SafetyProfile}
use palaestra_mcp_bridge.Enforcer.Resolver.{
  ToolProfileStore, override_key, from_override, resolve_stored, resolve, resolve_for_user,
  register_override, remove_override,
}

module _ (to_lower : String → String) (store : Option ToolProfileStore)
    (tool backend user : String) where
  -- An override that has a risk and an impact is accepted, and from then on decides for the tool on
  -- the backend for every user, whatever the users' own overrides and the store say.
  pub resolve_for_user-register_override :
      (p : SafetyProfile) (overrides : Dict SafetyProfile)
      → p.risk ≢ ""
      → p.impact ≢ ""
      → let (ok, overrides') = register_override tool backend p overrides in
        (ok ≡ true)
        × (resolve_for_user to_lower store overrides' tool backend user
            ≡ from_override tool backend p)
  unfolding resolve_for_user register_override
  resolve_for_user-register_override p overrides h k =
      let a : (p.risk == "") ≡ false = ground (arith, h, eq_iff p.risk "") in
      let b : (p.impact == "") ≡ false = ground (arith, k, eq_iff p.impact "") in
      rw (register_override, a, b)
        (
          refl,
          rw (resolve_for_user, lookup-insert_self (override_key tool backend) p overrides) refl,
        )

  -- After the removal of an override, what is resolved without a user is the stored or the inferred
  -- profile; the removal fails only if there is no override.
  pub resolve-remove_override :
      (overrides : Dict SafetyProfile)
      → let (ok, overrides') = remove_override tool backend overrides in
        (resolve to_lower store overrides' tool backend
          ≡ resolve_stored to_lower store tool backend)
        × (ok ≡ false → lookup (override_key tool backend) overrides ≡ none)
  unfolding resolve remove_override
  resolve-remove_override overrides =
      elim (Option-cases (lookup (override_key tool backend) overrides)) [
        | inl e ↦ rw (e, remove_override) (rw (e, resolve) refl, λ _. refl)
        | inr (o, e) ↦
            rw (e, remove_override)
              (
                rw (resolve, lookup-remove, eq_refl (override_key tool backend)) refl,
                λ f. absurd (cc f),
              )
      ]
