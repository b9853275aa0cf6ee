-- ===== src/Enforcer/Engine/Rank.antt =====
-- How restrictive a decision is: by its action first, and then by its severity.
use palaestra_mcp_bridge.Common.{ℕ, ◌+◌, ◌*◌, ◌≤◌, ◌≡◌, String, true, false, arith, eq_iff}
use palaestra_mcp_bridge.Enforcer.Types.{EnforcerDecision}
use palaestra_mcp_bridge.Enforcer.Engine.{
  action_priority, severity_priority, should_update_decision,
}

-- DENY, the approvals of an admin, that of a user, WARN, ALLOW, others, each with five steps of
-- severity.
abbrev pub rank : EnforcerDecision → ℕ
rank d = 5 * action_priority d.action + severity_priority d.severity

pub severity_priority-le : (s : String) → severity_priority s ≤ 4
unfolding severity_priority
severity_priority-le s = ground arith

pub action_priority-le : (a : String) → action_priority a ≤ 5
unfolding action_priority
action_priority-le a = ground arith

-- Only DENY has the highest priority.
pub highest_denies : (a : String) → 5 ≤ action_priority a → a ≡ "DENY"
unfolding action_priority
highest_denies a h = ground (arith, eq_iff a "DENY")

pub update_rank :
    (current new : EnforcerDecision)
    → should_update_decision current new ≡ true
    → rank current ≤ rank new
unfolding should_update_decision
update_rank current new h =
    ground (arith, severity_priority-le current.severity, severity_priority-le new.severity)

pub keep_rank :
    (current new : EnforcerDecision)
    → should_update_decision current new ≡ false
    → rank new ≤ rank current
unfolding should_update_decision
keep_rank current new h =
    ground (arith, severity_priority-le current.severity, severity_priority-le new.severity)
