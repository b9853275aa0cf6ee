-- ===== src/Enforcer/Engine/Reload.antt =====
-- The stored policies and the engine: enforcer/enforcer.go `loadPolicies`, `AddPolicy`,
-- `UpdatePolicy`, `DeletePolicy`, over the policy table of store/enforcer_store.go.
use palaestra_mcp_bridge.Common.{
  ◌≡◌, refl, ◌∙◌, String, true, false, inl, inr, List, [], ◌∷◌, ◌==◌, if◌then◌else◌, Bool-cases,
  leb, All, Option-cases,
}
use palaestra_mcp_bridge.Common.Dict.{lookup, lookup-insert}
use palaestra_mcp_bridge.Enforcer.Types.{CelPolicy}
use palaestra_mcp_bridge.Enforcer.Engine.{Cel, CelEngine, add_policy}

-- `DeletePolicy` and `UpdatePolicy` of the store.
unfoldable pub delete_row : String → List CelPolicy → List CelPolicy
delete_row id [] = []
delete_row id (p ∷ ps) = let rest = delete_row id ps in if p.id == id then rest else p ∷ rest

unfoldable pub update_row : CelPolicy → List CelPolicy → List CelPolicy
update_row q [] = []
update_row q (p ∷ ps) = (if p.id == q.id then q else p) ∷ update_row q ps

-- `ListPolicies` of the store reads the enabled rows alone, by ascending priority.
unfoldable pub insert_by_priority : CelPolicy → List CelPolicy → List CelPolicy
insert_by_priority q [] = q ∷ []
insert_by_priority q (p ∷ ps) =
    let rest = insert_by_priority q ps in if leb q.priority p.priority then q ∷ p ∷ ps else p ∷ rest

unfoldable pub list_policies : List CelPolicy → List CelPolicy
unfolding insert_by_priority
list_policies [] = []
list_policies (p ∷ ps) =
    let rest = list_policies ps in if p.enabled then insert_by_priority p rest else rest

module _ (cel : Cel) where
  open cel use {Program, compile}

  -- The loop of `loadPolicies`: a policy that does not compile is logged and skipped.
  unfoldable pub load_policies : List CelPolicy → CelEngine Program → CelEngine Program
  load_policies [] e = e
  load_policies (p ∷ ps) e = load_policies ps (add_policy cel p e).1

  -- The table and the engine.
  abbrev pub Policies : Type 0
  Policies = List CelPolicy × CelEngine Program

  -- `DeletePolicy`
  unfoldable pub delete_policy : String → Policies → Policies
  unfolding delete_row
  delete_policy id (rows, e) =
      let rows' = delete_row id rows in (rows', load_policies (list_policies rows') e)

  -- `UpdatePolicy`
  unfoldable pub update_policy : CelPolicy → Policies → Policies
  unfolding update_row
  update_policy p (rows, e) =
      let rows' = update_row p rows in (rows', load_policies (list_policies rows') e)

  add_policy-lookup_other :
      (p : CelPolicy) (e : CelEngine Program) (id : String)
      → (p.id == id) ≡ false
      → (lookup id (add_policy cel p e).1.programs ≡ lookup id e.programs)
        × (lookup id (add_policy cel p e).1.policies ≡ lookup id e.policies)
  unfolding add_policy
  add_policy-lookup_other p e id h = elim (Bool-cases p.enabled) [
    | inl on ↦ elim (Option-cases (compile p.expression)) [
      | inl bad ↦ simp (on, bad) (refl, refl)
      | inr (program, ok) ↦ simp (on, ok, lookup-insert, h) (refl, refl)
    ]
    | inr off ↦ simp off (refl, refl)
  ]

  abbrev Absent : String → List CelPolicy → Type 0
  Absent id = All (λ p. (p.id == id) ≡ false)

  load_policies-Absent :
      (id : String) (ps : List CelPolicy) (e : CelEngine Program)
      → Absent id ps
      → (lookup id (load_policies ps e).programs ≡ lookup id e.programs)
        × (lookup id (load_policies ps e).policies ≡ lookup id e.policies)
  unfolding load_policies
  load_policies-Absent id [] e h = (refl, refl)
  load_policies-Absent id (p ∷ ps) e h =
      let here = add_policy-lookup_other p e id h.0 in
      let later = load_policies-Absent id ps (add_policy cel p e).1 h.1 in
      (later.0 ∙ here.0, later.1 ∙ here.1)

  insert_by_priority-Absent :
      (id : String) (q : CelPolicy) (ps : List CelPolicy)
      → (q.id == id) ≡ false
      → Absent id ps
      → Absent id (insert_by_priority q ps)
  unfolding insert_by_priority
  insert_by_priority-Absent id q [] h k = (h, tt)
  insert_by_priority-Absent id q (p ∷ ps) h k = elim (Bool-cases (leb q.priority p.priority)) [
    | inl e ↦ rw e (h, k)
    | inr e ↦ rw e (k.0, insert_by_priority-Absent id q ps h k.1)
  ]

  list_policies-Absent :
      (id : String) (ps : List CelPolicy)
      → All (λ p. p.enabled ≡ true → (p.id == id) ≡ false) ps
      → Absent id (list_policies ps)
  unfolding list_policies
  list_policies-Absent id [] h = tt
  list_policies-Absent id (p ∷ ps) h = elim (Bool-cases p.enabled) [
    | inl e ↦
        simp e (
          insert_by_priority-Absent id p (list_policies ps) (h.0 e)
            (list_policies-Absent id ps h.1))
    | inr e ↦ simp e (list_policies-Absent id ps h.1)
  ]

  delete_row-Absent : (id : String) (ps : List CelPolicy) → Absent id (delete_row id ps)
  unfolding delete_row
  delete_row-Absent id [] = tt
  delete_row-Absent id (p ∷ ps) = elim (Bool-cases (p.id == id)) [
    | inl e ↦ rw e (delete_row-Absent id ps)
    | inr e ↦ rw e (e, delete_row-Absent id ps)
  ]

  enabled-Absent :
      (id : String) (ps : List CelPolicy)
      → Absent id ps
      → All (λ p. p.enabled ≡ true → (p.id == id) ≡ false) ps
  enabled-Absent id [] h = tt
  enabled-Absent id (p ∷ ps) h = (λ _. h.0, enabled-Absent id ps h.1)

  -- Deleting a policy takes every row under its id out of the table, enabled or not, and leaves its
  -- program and its policy in the engine as they were.
  pub delete_policy_keeps :
      (id : String) (rows : List CelPolicy) (e : CelEngine Program)
      → let (rows', e') = delete_policy id (rows, e) in
        Absent id rows'
        × (lookup id e'.programs ≡ lookup id e.programs)
        × (lookup id e'.policies ≡ lookup id e.policies)
  unfolding delete_policy
  delete_policy_keeps id rows e =
      let gone = delete_row-Absent id rows in
      let a = list_policies-Absent id (delete_row id rows) (enabled-Absent id _ gone) in
      let l = load_policies-Absent id (list_policies (delete_row id rows)) e a in (gone, l.0, l.1)

  update_row-disabled :
      (p : CelPolicy) (ps : List CelPolicy)
      → p.enabled ≡ false
      → All (λ q. q.enabled ≡ true → (q.id == p.id) ≡ false) (update_row p ps)
  unfolding update_row
  update_row-disabled p [] h = tt
  update_row-disabled p (q ∷ ps) h = elim (Bool-cases (q.id == p.id)) [
    | inl e ↦ rw e (λ on. absurd (cc (h, on)), update_row-disabled p ps h)
    | inr e ↦ rw e (λ _. e, update_row-disabled p ps h)
  ]

  -- Disabling a policy by an update leaves its program and its policy in the engine as they were.
  pub update_policy_keeps_disabled :
      (p : CelPolicy) (rows : List CelPolicy) (e : CelEngine Program)
      → p.enabled ≡ false
      → let (_, e') = update_policy p (rows, e) in
        (lookup p.id e'.programs ≡ lookup p.id e.programs)
        × (lookup p.id e'.policies ≡ lookup p.id e.policies)
  unfolding update_policy
  update_policy_keeps_disabled p rows e h =
      let a = list_policies-Absent p.id (update_row p rows) (update_row-disabled p rows h) in
      load_policies-Absent p.id (list_policies (update_row p rows)) e a
