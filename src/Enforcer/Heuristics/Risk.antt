-- ===== src/Enforcer/Heuristics/Risk.antt =====
-- What holds of every profile that the heuristics give.
use palaestra_mcp_bridge.Common.{
  ℕ, ◌≤◌, ◌≡◌, ◌≢◌, refl, ap, String, Bool, true, false, ◌&&◌, ◌||◌, List, [], ◌∷◌, ◌==◌, eq_iff,
  arith, if◌then◌else◌, Bool-cases, inl, inr, ◌⊎◌, All,
}
use palaestra_mcp_bridge.Enforcer.Types.{SafetyProfile, RiskLevel}
use palaestra_mcp_bridge.Enforcer.Heuristics.{
  HeuristicRule, promote_risk, classification_rules, first_rule, base_profile, promote_irreversible,
  promote_bulk, promote_pii, has_pii, is_irreversible, is_bulk, heuristic_profile,
  contains_word_or_prefix, any_of,
}

abbrev pub IsRiskLevel : RiskLevel → Type 0
IsRiskLevel r = (r ≡ "low") ⊎ ((r ≡ "medium") ⊎ ((r ≡ "high") ⊎ (r ≡ "critical")))

abbrev risk_number : RiskLevel → ℕ
risk_number r = if r == "low" then 0 else if r == "medium" then 1 else if r == "high" then 2 else 3

promote_risk-IsRiskLevel : (r : RiskLevel) → IsRiskLevel (promote_risk r)
unfolding promote_risk
promote_risk-IsRiskLevel r = elim (Bool-cases (r == "low")) [
  | inl e ↦ rw e (inr (inl refl))
  | inr e ↦ elim (Bool-cases (r == "medium")) [
    | inl k ↦ rw (e, k) (inr (inr (inl refl)))
    | inr k ↦ rw (e, k) (inr (inr (inr refl)))
  ]
]

promote_risk_not_low : (r : RiskLevel) → promote_risk r ≢ "low"
unfolding promote_risk
promote_risk_not_low r = elim (Bool-cases (r == "low")) [
  | inl e ↦ rw e (λ h. absurd (cc (ap (λ x. x == "low") h)))
  | inr e ↦ elim (Bool-cases (r == "medium")) [
    | inl k ↦ rw (e, k) (λ h. absurd (cc (ap (λ x. x == "low") h)))
    | inr k ↦ rw (e, k) (λ h. absurd (cc (ap (λ x. x == "low") h)))
  ]
]

abbrev IsSane : RiskLevel → ℕ → Type 0
IsSane risk cost = IsRiskLevel risk × (1 ≤ cost) × (cost ≤ 20)

classification_rules-IsSane : All (λ r. IsSane r.risk r.cost) classification_rules
unfolding classification_rules
classification_rules-IsSane = (
  (inr (inr (inr refl)), omega arith, omega arith),
  (
    (inr (inr (inl refl)), omega arith, omega arith),
    (
      (inr (inr (inl refl)), omega arith, omega arith),
      (
        (inr (inr (inl refl)), omega arith, omega arith),
        (
          (inr (inl refl), omega arith, omega arith),
          (
            (inr (inl refl), omega arith, omega arith),
            (
              (inr (inl refl), omega arith, omega arith),
              ((inl refl, omega arith, omega arith), tt),
            ),
          ),
        ),
      ),
    ),
  ),
)

base_of_first :
    (lower : String) (rs : List HeuristicRule)
    → All (λ r. IsSane r.risk r.cost) rs
    → let p = base_profile (first_rule lower rs) in (p.source ≡ "inferred") × IsSane p.risk p.cost
unfolding first_rule base_profile
base_of_first lower [] h = (refl, (inr (inr (inl refl)), omega arith, omega arith))
base_of_first lower (r ∷ rs) h =
    elim (Bool-cases (any_of (contains_word_or_prefix lower) r.patterns)) [
      | inl e ↦ simp e (refl, h.0)
      | inr e ↦ simp e (base_of_first lower rs h.1)
    ]

pii_risk :
    (pii : Bool) (r : RiskLevel)
    → IsRiskLevel r
    → IsRiskLevel (if pii && r == "low" then "medium" else r)
pii_risk pii r h = elim (Bool-cases (pii && r == "low")) [
  | inl e ↦ rw e (inr (inl refl))
  | inr e ↦ rw e h
]

pii_not_low : (r : RiskLevel) → (if r == "low" then "medium" else r) ≢ "low"
pii_not_low r = elim (Bool-cases (r == "low")) [
  | inl e ↦ rw e (λ h. absurd (cc (ap (λ x. x == "low") h)))
  | inr e ↦ rw e (λ h. absurd (cc (e, (eq_iff r "low").1 h)))
]

kept_not_low :
    (pii : Bool) (r : RiskLevel) → r ≢ "low" → (if pii && r == "low" then "medium" else r) ≢ "low"
kept_not_low true r h = pii_not_low r
kept_not_low false r h = h

-- After the promotions of a base profile, but for that of personal data.
abbrev IsPromoted : SafetyProfile → Bool → Type 0
IsPromoted q strict =
    (q.source ≡ "inferred")
    × IsRiskLevel q.risk
    × (1 ≤ q.cost)
    × (q.cost ≤ 60)
    × (strict ≡ true → (q.requires_hitl ≡ true) × (q.risk ≢ "low"))

both_promotions :
    (irreversible bulk : Bool) (p : SafetyProfile)
    → (p.source ≡ "inferred") × IsSane p.risk p.cost
    → IsPromoted (promote_bulk bulk (promote_irreversible irreversible p)) (irreversible || bulk)
unfolding promote_bulk promote_irreversible
both_promotions true true p h = (
  h.0,
  promote_risk-IsRiskLevel (promote_risk p.risk),
  omega (arith, h.1.1, h.1.2),
  omega (arith, h.1.1, h.1.2),
  λ _. (refl, promote_risk_not_low (promote_risk p.risk)),
)
both_promotions true false p h = (
  h.0,
  promote_risk-IsRiskLevel p.risk,
  h.1.1,
  omega (arith, h.1.2),
  λ _. (refl, promote_risk_not_low p.risk),
)
both_promotions false true p h = (
  h.0,
  promote_risk-IsRiskLevel p.risk,
  omega (arith, h.1.1, h.1.2),
  omega (arith, h.1.1, h.1.2),
  λ _. (refl, promote_risk_not_low p.risk),
)
both_promotions false false p h = (h.0, h.1.0, h.1.1, omega (arith, h.1.2), λ e. absurd (cc e))

module _ (to_lower : String → String) (tool_name description : String) (schema : List String) where
  -- Every inferred profile has the source "inferred", one of the four risk levels and a cost of 1
  -- to 60; it says whether personal data is involved, and then the risk is not low; and where the
  -- description tells of something irreversible, or the name or the description of a bulk
  -- operation, it asks for a human and the risk is not low.
  pub heuristic_profile_lem :
      let p = heuristic_profile to_lower tool_name description schema in
      (p.source ≡ "inferred")
      × IsRiskLevel p.risk
      × (1 ≤ p.cost)
      × (p.cost ≤ 60)
      × (p.pii_exposure ≡ has_pii to_lower description schema)
      × (has_pii to_lower description schema ≡ true → p.risk ≢ "low")
      × ((is_irreversible to_lower description || is_bulk to_lower tool_name description) ≡ true
          → (p.requires_hitl ≡ true) × (p.risk ≢ "low"))
  unfolding heuristic_profile promote_pii
  heuristic_profile_lem =
      let irreversible = is_irreversible to_lower description in
      let bulk = is_bulk to_lower tool_name description in
      let pii = has_pii to_lower description schema in
      let base = base_profile (first_rule (to_lower tool_name) classification_rules) in
      let q = promote_bulk bulk (promote_irreversible irreversible base) in
      let h =
        both_promotions irreversible bulk base
          (base_of_first (to_lower tool_name) classification_rules classification_rules-IsSane) in
      (
        h.0,
        pii_risk pii q.risk h.1,
        h.2,
        h.3,
        refl,
        λ e. simp e (pii_not_low q.risk),
        λ e. ((h.4 e).0, kept_not_low pii q.risk (h.4 e).1),
      )
