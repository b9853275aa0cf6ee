-- ===== src/Enforcer/Approvals/Decided.antt =====
-- Who decided about a request, and the uniqueness of the ids, after each operation.
use palaestra_mcp_bridge.Common.{
  ℕ, ◌≡◌, ◌≢◌, refl, ◌∙◌, ap, String, Bool, true, false, none, [], ◌∷◌, ◌==◌, if◌then◌else◌,
  Bool-cases, ◌⊎◌, inl, inr, All, sym,
}
use palaestra_mcp_bridge.Enforcer.Approvals.{
  ApprovalRequestRow, Approvals, get_approval_request, update_where, select_where, approve_request,
  approve_row, deny_request, deny_row, mark_executing, executing_row, mark_completed, completed_row,
  mark_failed, failed_row, expired_at, expire_row, cleanup_expired_approvals,
}
use palaestra_mcp_bridge.Enforcer.Approvals.Rows.{
  All-update_where, get_approval_request-update_where, get_approval_request-select_where, changed,
  on_row,
}
use palaestra_mcp_bridge.Enforcer.Approvals.Requests.{
  Execution, exec_failed, exec_done, mark_execution,
}

-- A request that nobody approved or denied is pending or expired.
abbrev pub IsDecided : ApprovalRequestRow → Type 0
IsDecided r = r.approved_by ≡ none → (r.status ≡ "PENDING") ⊎ (r.status ≡ "EXPIRED")

-- No id stands twice.
abbrev pub HasUniqueIds : Approvals → Type 0
HasUniqueIds [] = Unit
HasUniqueIds (r ∷ rs) = (get_approval_request r.id rs ≡ none) × HasUniqueIds rs

pub HasUniqueIds-update_where :
    (test : ApprovalRequestRow → Bool) (set : ApprovalRequestRow → ApprovalRequestRow)
    → ((r : ApprovalRequestRow) → (set r).id ≡ r.id)
    → (t : Approvals) → HasUniqueIds t
    → HasUniqueIds (update_where test set t)
unfolding update_where
HasUniqueIds-update_where test set k [] h = tt
HasUniqueIds-update_where test set k (r ∷ rs) h = (
  get_approval_request-update_where test set k (changed test set r).id rs
      ∙ ap (on_row (changed test set)) (go (test r)),
  HasUniqueIds-update_where test set k rs h.1,
)
  where
    go : (b : Bool) → get_approval_request (if b then set r else r).id rs ≡ none
    go true = ap (λ i. get_approval_request i rs) (k r) ∙ h.0
    go false = h.0

pub HasUniqueIds-select_where :
    (test : ApprovalRequestRow → Bool) (t : Approvals)
    → HasUniqueIds t
    → HasUniqueIds (select_where test t)
unfolding select_where
HasUniqueIds-select_where test [] h = tt
HasUniqueIds-select_where test (r ∷ rs) h = elim (Bool-cases (test r)) [
  | inl e ↦
      simp e
        (get_approval_request-select_where test r.id rs h.0, HasUniqueIds-select_where test rs h.1)
  | inr e ↦ simp e (HasUniqueIds-select_where test rs h.1)
]

abbrev pub IsWellFormed : Approvals → Type 0
IsWellFormed t = All IsDecided t × HasUniqueIds t

-- The rows with the id have an approver.
abbrev pub HasApprover : String → ApprovalRequestRow → Type 0
HasApprover id r = IsDecided r × ((r.id == id) ≡ true → r.approved_by ≢ none)

pub approve_request-HasApprover :
    (now : ℕ) (id approver comments : String) (t : Approvals)
    → All IsDecided t
    → All (HasApprover id) (approve_request now id approver comments t)
unfolding approve_request approve_row
approve_request-HasApprover now id approver comments t h =
    All-update_where IsDecided (HasApprover id) (λ r. r.id == id)
      (approve_row now approver comments) (λ r e p. (λ n. absurd (cc n), λ _ n. absurd (cc n)))
      (λ r e p. (p, λ e' n. absurd (cc (e, e')))) t h

pub deny_request-IsDecided :
    (now : ℕ) (id approver reason : String) (t : Approvals)
    → All IsDecided t
    → All IsDecided (deny_request now id approver reason t)
unfolding deny_request deny_row
deny_request-IsDecided now id approver reason t h =
    All-update_where IsDecided IsDecided (λ r. r.id == id) (deny_row now approver reason)
      (λ r e p n. absurd (cc n)) (λ r e p. p) t h

pub forget : (id : String) (t : Approvals) → All (HasApprover id) t → All IsDecided t
forget id [] h = tt
forget id (r ∷ rs) h = (h.0.0, forget id rs h.1)

-- A change of the rows with the id that keeps who approved them.
mark-HasApprover :
    (id : String) (set : ApprovalRequestRow → ApprovalRequestRow)
    → ((r : ApprovalRequestRow) → (set r).approved_by ≡ r.approved_by)
    → (t : Approvals) → All (HasApprover id) t
    → All (HasApprover id) (update_where (λ r. r.id == id) set t)
mark-HasApprover id set k t h =
    All-update_where (HasApprover id) (HasApprover id) (λ r. r.id == id) set
      (λ r e p. (λ n. absurd (p.1 e (sym (k r) ∙ n)), λ _ n. p.1 e (sym (k r) ∙ n))) (λ r e p. p) t
      h

pub cleanup_expired_approvals-IsDecided :
    (now : ℕ) (t : Approvals) → All IsDecided t → All IsDecided (cleanup_expired_approvals now t)
unfolding cleanup_expired_approvals
cleanup_expired_approvals-IsDecided now t h =
    All-update_where IsDecided IsDecided (expired_at now) expire_row (λ r e p n. inr refl)
      (λ r e p. p) t h

pub mark_execution-HasApprover :
    (later : ℕ) (id : String) (x : Execution) (t : Approvals)
    → All (HasApprover id) t
    → All (HasApprover id) (mark_execution later id x (mark_executing id t))
unfolding mark_execution mark_executing mark_failed mark_completed executing_row failed_row
    completed_row
mark_execution-HasApprover later id (exec_failed err) t h =
    mark-HasApprover id (failed_row later err) (λ r. refl)
      (update_where (λ r. r.id == id) executing_row t)
      (mark-HasApprover id executing_row (λ r. refl) t h)
mark_execution-HasApprover later id (exec_done code body) t h =
    mark-HasApprover id (completed_row later code body) (λ r. refl)
      (update_where (λ r. r.id == id) executing_row t)
      (mark-HasApprover id executing_row (λ r. refl) t h)

pub mark_execution-HasUniqueIds :
    (later : ℕ) (id : String) (x : Execution) (t : Approvals)
    → HasUniqueIds t
    → HasUniqueIds (mark_execution later id x (mark_executing id t))
unfolding mark_execution mark_executing mark_failed mark_completed executing_row failed_row
    completed_row
mark_execution-HasUniqueIds later id (exec_failed err) t h =
    HasUniqueIds-update_where (λ r. r.id == id) (failed_row later err) (λ r. refl)
      (update_where (λ r. r.id == id) executing_row t)
      (HasUniqueIds-update_where (λ r. r.id == id) executing_row (λ r. refl) t h)
mark_execution-HasUniqueIds later id (exec_done code body) t h =
    HasUniqueIds-update_where (λ r. r.id == id) (completed_row later code body) (λ r. refl)
      (update_where (λ r. r.id == id) executing_row t)
      (HasUniqueIds-update_where (λ r. r.id == id) executing_row (λ r. refl) t h)

pub approve_request-HasUniqueIds :
    (now : ℕ) (id approver comments : String) (t : Approvals)
    → HasUniqueIds t
    → HasUniqueIds (approve_request now id approver comments t)
unfolding approve_request approve_row
approve_request-HasUniqueIds now id approver comments t h =
    HasUniqueIds-update_where (λ r. r.id == id) (approve_row now approver comments) (λ r. refl) t h
