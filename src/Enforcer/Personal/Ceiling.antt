-- ===== src/Enforcer/Personal/Ceiling.antt =====
-- Which personal rate limits are accepted, and what is read back.
use palaestra_mcp_bridge.Common.{
  ℕ, ◌*◌, ◌≤◌, ◌≡◌, refl, String, true, false, List, arith, Bool-cases, inl, inr, ltb, eqb,
  or-false,
}
use palaestra_mcp_bridge.Common.Dict.{lookup-insert_self}
use palaestra_mcp_bridge.Ratelimit.Manager.{BucketManager, set_user_config, get_user_config}
use palaestra_mcp_bridge.Ratelimit.Manager.Config.{DefaultConfig, get_default_config}
use palaestra_mcp_bridge.Enforcer.Personal.{
  UserRateLimitOverrideRow, too_permissive, set_user_rate_limit_override,
  get_effective_bucket_config, or_global,
}

-- Both capacities of the override are no larger than those of the backend.
abbrev pub IsBelow : DefaultConfig → UserRateLimitOverrideRow → Type 0
IsBelow global o =
    (o.risk_capacity ≤ global.risk_capacity) × (o.resource_capacity ≤ global.resource_capacity)

le_times : (own mult : ℕ) → 1 ≤ mult → own ≤ own * mult
le_times own mult h = grind arith

mult_pos : (m : ℕ) → 1 ≤ or_global m 1
mult_pos m = ground arith

below : (own global mult : ℕ) → 1 ≤ mult → own * mult ≤ global → own ≤ global
below own global mult h k = omega (arith, le_times own mult h, k)

own_below :
    (own global mult : ℕ)
    → 1 ≤ mult
    → ltb global (or_global own global * mult) ≡ false
    → own ≤ global
own_below own global mult h k = elim (Bool-cases (eqb own 0)) [
  | inl e ↦ ground arith
  | inr e ↦
      let k' : ltb global (own * mult) ≡ false = simp e at k in
      below own global mult h (ground arith)
]

accepted-IsBelow :
    (global : DefaultConfig) (o : UserRateLimitOverrideRow)
    → too_permissive global o ≡ false
    → IsBelow global o
unfolding too_permissive
accepted-IsBelow global o h =
    let mult = or_global o.cost_multiplier 1 in
    let (a, b) =
      or-false (ltb global.risk_capacity (or_global o.risk_capacity global.risk_capacity * mult))
        (ltb global.resource_capacity
          (or_global o.resource_capacity global.resource_capacity * mult))
        h in
    (
      own_below o.risk_capacity global.risk_capacity mult (mult_pos o.cost_multiplier) a,
      own_below o.resource_capacity global.resource_capacity mult (mult_pos o.cost_multiplier) b,
    )

-- A personal rate limit that is accepted has capacities no larger than the backend's, is in force
-- for the user and the backend from then on, and leaves the buckets as they are; one that is refused
-- changes neither the table nor the manager.
pub set_user_rate_limit_override_lem :
    (uuid : String) (o : UserRateLimitOverrideRow) (rows : List UserRateLimitOverrideRow)
    (m : BucketManager)
    → let (ok, rows', m') = set_user_rate_limit_override uuid o rows m in
      (ok ≡ true
        → IsBelow (get_default_config o.backend_id m) o
          × (get_effective_bucket_config o.user_id o.backend_id m'
              ≡ (o.risk_capacity, 0, o.resource_capacity, 0, o.cost_multiplier))
          × (m'.buckets ≡ m.buckets))
      × (ok ≡ false → (rows' ≡ rows) × (m' ≡ m))
unfolding set_user_rate_limit_override get_effective_bucket_config set_user_config get_user_config
set_user_rate_limit_override_lem uuid o rows m =
    elim (Bool-cases (too_permissive (get_default_config o.backend_id m) o)) [
      | inl e ↦ rw (e, set_user_rate_limit_override) (λ h. absurd (cc h), λ _. (refl, refl))
      | inr e ↦
          rw (e, set_user_rate_limit_override)
            (
              λ _. (
                accepted-IsBelow (get_default_config o.backend_id m) o e,
                rw lookup-insert_self refl,
                refl,
              ),
              λ h. absurd (cc h),
            )
    ]
