-- ===== src/Enforcer/Approvals/Waiting.antt =====
-- The two ways to ask whether a request waits.
use palaestra_mcp_bridge.Common.{
  ℕ, ◌≡◌, refl, ◌∙◌, ap, sym, String, Bool, true, false, some, none, [], ◌∷◌, ◌==◌, ◌&&◌, eq_iff,
  Bool-cases, and-true, inl, inr, length, ltb, arith,
}
use palaestra_mcp_bridge.Enforcer.Approvals.{
  ApprovalRequestRow, Approvals, get_approval_request, select_where, is_approval_pending,
}
use palaestra_mcp_bridge.Enforcer.Approvals.Requests.{
  check_approval, check_row, check_found, still_pending,
}
use palaestra_mcp_bridge.Enforcer.Approvals.Decided.{HasUniqueIds}

abbrev waits : ℕ → String → ApprovalRequestRow → Bool
waits now id r = r.id == id && (r.status == "PENDING" && ltb now r.expires_at)

selected :
    (now : ℕ) (id : String) (t : Approvals)
    → HasUniqueIds t
    → ltb 0 (length (select_where (waits now id) t)) ≡ true
    → (r : ApprovalRequestRow) × (get_approval_request id t ≡ some r) × (waits now id r ≡ true)
unfolding select_where get_approval_request
selected now id [] u h = absurd (ground (arith, h))
selected now id (q ∷ qs) u h = elim (Bool-cases (waits now id q)) [
  | inl e ↦
      let hit = (and-true (q.id == id) (q.status == "PENDING" && ltb now q.expires_at) e).0 in
      simp hit (q, refl, e)
  | inr e ↦
      let (r, found, w) = selected now id qs u.1 (simp e at h) in
      elim (Bool-cases (q.id == id)) [
        | inr k ↦ simp k (r, found, w)
        | inl k ↦
            let gone : get_approval_request id qs ≡ none =
              ap (λ i. get_approval_request i qs) (sym ((eq_iff q.id id).0 k)) ∙ u.0 in
            absurd (cc (gone, found))
      ]
]

waiting_row :
    (now : ℕ) (id : String) (r : ApprovalRequestRow)
    → waits now id r ≡ true
    → check_row now r ≡ still_pending
waiting_row now id r w =
    let (_, p) = and-true (r.id == id) (r.status == "PENDING" && ltb now r.expires_at) w in
    let (s, x) = and-true (r.status == "PENDING") (ltb now r.expires_at) p in
    let late : ltb r.expires_at now ≡ false = ground (arith, x) in
    simp ((eq_iff r.status "PENDING").0 s, late) refl

-- In a table without duplicate ids, a request that `IsApprovalPending` finds is one that
-- `CheckApproval` reports, at the same time, as still pending.
pub check_approval-is_approval_pending :
    (now : ℕ) (id : String) (t : Approvals)
    → HasUniqueIds t
    → is_approval_pending now id t ≡ true
    → check_approval now id t ≡ still_pending
unfolding check_approval is_approval_pending
check_approval-is_approval_pending now id t u h =
    let (r, found, w) = selected now id t u h in ap (check_found now) found ∙ waiting_row now id r w
