-- ===== src/Ratelimit/Cost.antt =====
-- ratelimit/ratelimit.go, the costs of a call: risk multipliers, risk scopes, user multipliers.
use palaestra_mcp_bridge.Common.{
  ℕ, ◌*◌, ◌≤◌, String, ◌≡◌, refl, ◌≢◌, Bool, true, false, ◌||◌, arith, ◌==◌, eq_iff, if◌then◌else◌,
}

-- The map `riskMultipliers`; a level that is not in it counts once.
unfoldable pub get_risk_multiplier : String → ℕ
get_risk_multiplier risk_level =
    if risk_level == "low"
    then 1
    else if risk_level == "med"
    then 2
    else if risk_level == "high"
    then 4
    else 1

unfoldable pub is_risk_scoped : String → Bool
is_risk_scoped impact_scope = impact_scope == "write" || impact_scope == "delete"

-- The risk cost and the resource cost.
unfoldable pub calculate_cost : ℕ → String → String → ℕ × ℕ
unfolding is_risk_scoped get_risk_multiplier
calculate_cost resource_cost risk_level impact_scope = (
  if is_risk_scoped impact_scope then resource_cost * get_risk_multiplier risk_level else 0,
  resource_cost,
)

unfoldable pub calculate_cost_with_multiplier : ℕ → String → String → ℕ → ℕ × ℕ
unfolding calculate_cost
calculate_cost_with_multiplier resource_cost risk_level impact_scope multiplier =
    let (risk_cost, result) = calculate_cost resource_cost risk_level impact_scope in
    (risk_cost * multiplier, result * multiplier)

multiplier_bounds : (l : String) → (1 ≤ get_risk_multiplier l) × (get_risk_multiplier l ≤ 4)
unfolding get_risk_multiplier
multiplier_bounds l = ground arith

mul_le_four : (c m : ℕ) → m ≤ 4 → c * m ≤ 4 * c
mul_le_four c m h = grind arith

le_mul : (c m : ℕ) → 1 ≤ m → c ≤ c * m
le_mul c m h = grind arith

-- Whatever the profile says, the resource cost is the declared cost, and the risk cost is 0 when
-- the impact scope is neither write nor delete, and otherwise lies between the declared cost and
-- four times it.
pub calculate_cost_bounds :
    (c : ℕ) (level scope : String)
    → ((calculate_cost c level scope).1 ≡ c)
      × (is_risk_scoped scope ≡ false → (calculate_cost c level scope).0 ≡ 0)
      × (is_risk_scoped scope ≡ true
          → (c ≤ (calculate_cost c level scope).0) × ((calculate_cost c level scope).0 ≤ 4 * c))
unfolding calculate_cost
calculate_cost_bounds c level scope = (
  refl,
  λ h. ground arith,
  λ h. ground (
    arith,
    le_mul c (get_risk_multiplier level) (multiplier_bounds level).0,
    mul_le_four c (get_risk_multiplier level) (multiplier_bounds level).1,
  ),
)

-- A level that is spelled neither "med" nor "high" is charged like "low" on a write or a delete;
-- so are the levels "medium" and "critical" of the enforcer.
pub calculate_cost_unlisted :
    (c : ℕ) (level scope : String)
    → level ≢ "med"
    → level ≢ "high"
    → calculate_cost c level scope ≡ calculate_cost c "low" scope
unfolding calculate_cost
calculate_cost_unlisted c level scope h k = ground (arith, eq_iff level "med", eq_iff level "high")
