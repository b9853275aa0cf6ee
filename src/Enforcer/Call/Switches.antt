-- ===== src/Enforcer/Call/Switches.antt =====
-- The kill switches.
use palaestra_mcp_bridge.Common.{
  ◌≡◌, String, true, false, ◌||◌, ◌==◌, eq_iff, eq_refl, arith, if◌then◌else◌, Option-cases, inl,
  inr,
}
use palaestra_mcp_bridge.Common.Dict.{lookup, lookup-insert}
use palaestra_mcp_bridge.Enforcer.Call.{
  KillSwitches, enabled_in, is_kill_switch_active, enable_kill_switch, disable_kill_switch,
}

-- Once the switch of a scope is enabled, calls of the scope are stopped, and if the scope is
-- "global", all calls are; a switch that was on before stays on.
pub enable_kill_switch_lem :
    (scope at : String) (switches : KillSwitches)
    → is_kill_switch_active at (enable_kill_switch scope switches)
      ≡ (scope == at || (scope == "global" || is_kill_switch_active at switches))
unfolding is_kill_switch_active enable_kill_switch
enable_kill_switch_lem scope at switches =
    rw (lookup-insert scope at true switches, lookup-insert scope "global" true switches)
      (ground arith)

-- After the switch of a scope is disabled, calls of the scope are stopped by the global switch
-- alone, and by none if the scope is the global one.
pub disable_kill_switch_lem :
    (scope : String) (switches : KillSwitches)
    → is_kill_switch_active scope (disable_kill_switch scope switches)
      ≡ (if scope == "global" then false else enabled_in (lookup "global" switches))
unfolding is_kill_switch_active disable_kill_switch
disable_kill_switch_lem scope switches = elim (Option-cases (lookup scope switches)) [
  | inl e ↦ rw (e, disable_kill_switch) (ground (arith, e, eq_iff scope "global"))
  | inr (b, e) ↦
      rw (e, disable_kill_switch)
        (rw
          (
            lookup-insert scope scope false switches,
            lookup-insert scope "global" false switches,
            eq_refl scope,
          )
          (ground arith))
]
