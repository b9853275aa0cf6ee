-- ===== src/Enforcer/Approvals/Cleanup.antt =====
-- The cleanups change no answer about a request that waits, and delete only settled rows.
use palaestra_mcp_bridge.Common.{
  ℕ, ◌-◌, ◌+◌, ◌<◌, ◌≡◌, refl, ◌∙◌, ap, String, Bool, true, false, ◌&&◌, not, ◌⊎◌, inl, inr, Option,
  none, some, [], ◌∷◌, ◌==◌, eq_iff, arith, ltb, if◌then◌else◌, Bool-cases, Option-cases, and-true,
  eq_refl, Occurs,
}
use palaestra_mcp_bridge.Enforcer.Types.{EnforcerConfig, DecisionContext}
use palaestra_mcp_bridge.Enforcer.Approvals.{
  ApprovalRequestRow, Approvals, get_approval_request, select_where, expired_at, expire_row,
  is_terminal, cleanup_expired_approvals, cleanup_old_approvals, create_approval_request, inserted,
}
use palaestra_mcp_bridge.Enforcer.Approvals.Rows.{
  get_approval_request-update_where, changed, on_row,
}
use palaestra_mcp_bridge.Enforcer.Approvals.Requests.{
  check_approval, check_row, check_found, request_row, request_approval, approval_timeout,
  still_pending, expired,
}

check_expired_row :
    (now : ℕ) (r : ApprovalRequestRow)
    → check_row now (if expired_at now r then expire_row r else r) ≡ check_row now r
check_expired_row now r = go (expired_at now r) refl
  where
    go :
        (b : Bool)
        → expired_at now r ≡ b
        → check_row now (if b then expire_row r else r) ≡ check_row now r
    go true e =
        let (p, q) = and-true (r.status == "PENDING") (ltb r.expires_at now) e in
        simp ((eq_iff r.status "PENDING").0 p, q) refl
    go false e = refl

check_on_row :
    (now : ℕ) (o : Option ApprovalRequestRow)
    → check_found now (on_row (changed (expired_at now) expire_row) o) ≡ check_found now o
check_on_row now none = refl
check_on_row now (some r) = check_expired_row now r

-- `CheckApproval` gives the same answer before and after the cleanup of expired requests, at the
-- same time.
pub check_approval-cleanup_expired_approvals :
    (now : ℕ) (id : String) (t : Approvals)
    → check_approval now id (cleanup_expired_approvals now t) ≡ check_approval now id t
unfolding check_approval cleanup_expired_approvals
check_approval-cleanup_expired_approvals now id t =
    ap (check_found now)
      (get_approval_request-update_where (expired_at now) expire_row (λ r. refl) id t)
    ∙ check_on_row now (get_approval_request id t)

Occurs-select_where :
    (test : ApprovalRequestRow → Bool) (t : Approvals) (r : ApprovalRequestRow)
    → Occurs r t
    → Occurs r (select_where test t) ⊎ (test r ≡ false)
unfolding select_where
Occurs-select_where test [] r o = absurd o
Occurs-select_where test (q ∷ t) r (inl e) = elim (Bool-cases (test q)) [
  | inl k ↦ simp k (inl (inl e))
  | inr k ↦ inr (ap test e ∙ k)
]
Occurs-select_where test (q ∷ t) r (inr o) = elim (Bool-cases (test q)) [
  | inl k ↦ simp k (elim (Occurs-select_where test t r o) [ inl a ↦ inl (inr a) | inr b ↦ inr b ])
  | inr k ↦ simp k (Occurs-select_where test t r o)
]

-- A row that `CleanupOldApprovals` does not keep has a settled status and was requested before
-- the retention period.
pub cleanup_old_approvals_lem :
    (now older_than : ℕ) (t : Approvals) (r : ApprovalRequestRow)
    → Occurs r t
    → Occurs r (cleanup_old_approvals now older_than t)
      ⊎ ((is_terminal r.status ≡ true) × (r.requested_at + older_than < now))
unfolding cleanup_old_approvals
cleanup_old_approvals_lem now older_than t r o =
    elim (Occurs-select_where
      (λ r. not (is_terminal r.status && ltb r.requested_at (now - older_than))) t r o) [
        | inl k ↦ inl k
        | inr e ↦ inr (go (is_terminal r.status) e)
      ]
  where
    go :
        (b : Bool)
        → not (b && ltb r.requested_at (now - older_than)) ≡ false
        → (b ≡ true) × (r.requested_at + older_than < now)
    go true e = (refl, ground (arith, e))
    go false e = absurd (cc e)

pub created :
    (req : ApprovalRequestRow) (t t' : Approvals)
    → create_approval_request req t ≡ some t'
    → t' ≡ (inserted req ∷ t)
unfolding create_approval_request
created req t t' e = elim (Option-cases (get_approval_request req.id t)) [
  | inl h ↦
      let e' : some (inserted req ∷ t) ≡ some t' = rw (h, create_approval_request) at e in cc e'
  | inr (r, h) ↦ let e' : none ≡ some t' = rw (h, create_approval_request) at e in absurd (cc e')
]

pub fresh :
    (req : ApprovalRequestRow) (t t' : Approvals)
    → create_approval_request req t ≡ some t'
    → get_approval_request req.id t ≡ none
unfolding create_approval_request
fresh req t t' e = elim (Option-cases (get_approval_request req.id t)) [
  | inl h ↦ h
  | inr (r, h) ↦ let e' : none ≡ some t' = rw (h, create_approval_request) at e in absurd (cc e')
]

-- A request that `RequestApproval` creates waits until its timeout and is expired after it,
-- for as long as nothing else happens to it.
pub check_approval-request_approval :
    (config : EnforcerConfig) (ctx : DecisionContext) (now at : ℕ)
    (id safety_json policy_id message queue match_ctx : String) (t t' : Approvals)
    → request_approval config ctx now id safety_json policy_id message queue match_ctx t ≡ some t'
    → check_approval at id t'
      ≡ (if ltb (now + approval_timeout config queue) at then expired else still_pending)
unfolding check_approval request_approval create_approval_request get_approval_request
check_approval-request_approval config ctx now at id safety_json policy_id message queue match_ctx t
      t' e =
    let made =
      created (request_row config ctx now id safety_json policy_id message queue match_ctx) t t'
        e in
    rw (made, eq_refl id) refl
