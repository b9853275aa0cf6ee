-- ===== src/Enforcer/Approvals/Execute.antt =====
-- What `ExecuteApprovedRequest` leaves, in every case.
use palaestra_mcp_bridge.Common.{
  ℕ, ◌≡◌, refl, ◌∙◌, ap, String, false, Option, none, some, ◌==◌, Option-cases, inl, inr,
}
use palaestra_mcp_bridge.Enforcer.Approvals.{
  ApprovalRequestRow, Approvals, get_approval_request, update_where, approve_request, approve_row,
  mark_executing, executing_row, mark_completed, completed_row, mark_failed, failed_row,
}
use palaestra_mcp_bridge.Enforcer.Approvals.Rows.{update_same, update_other, on_row}
use palaestra_mcp_bridge.Enforcer.Approvals.Requests.{
  Executor, Execution, exec_failed, exec_done, mark_execution, execute_approved_request,
}

module _ (now later : ℕ) (id approver comments : String) where
  abbrev pub ended_failed : String → ApprovalRequestRow → ApprovalRequestRow
  ended_failed err r = record r {
    status = "FAILED";
    approved_by = some approver;
    approved_at = some now;
    comments = comments;
    executed_at = some later;
    error_msg = err;
  }

  abbrev pub ended_completed : ℕ → String → ApprovalRequestRow → ApprovalRequestRow
  ended_completed code body r = record r {
    status = "COMPLETED";
    approved_by = some approver;
    approved_at = some now;
    comments = comments;
    executed_at = some later;
    response_status = code;
    response_body = body;
  }

  -- The request as it stands at the end of an execution, whatever its status was.
  abbrev pub settled : Option Executor → ApprovalRequestRow → ApprovalRequestRow
  settled none r = record r {
    status = "APPROVED";
    approved_by = some approver;
    approved_at = some now;
    comments = comments;
  }
  settled (some run) r = elim (run r.user_id r.backend_id r.request_body) [
    | exec_failed err ↦ ended_failed err r
    | exec_done code body ↦ ended_completed code body r
  ]

  abbrev after_approval : Approvals → Approvals
  after_approval t = approve_request now id approver comments t

  approved_read :
      (t : Approvals)
      → get_approval_request id (after_approval t)
        ≡ on_row (approve_row now approver comments) (get_approval_request id t)
  unfolding approve_request approve_row
  approved_read t = update_same (approve_row now approver comments) (λ r. refl) id t

  approved_other :
      (at : String) (t : Approvals)
      → (id == at) ≡ false
      → get_approval_request at (after_approval t) ≡ get_approval_request at t
  unfolding approve_request approve_row
  approved_other at t h = update_other (approve_row now approver comments) (λ r. refl) id at h t

  -- The marks of an execution, read at the id.
  marked_read :
      (x : Execution) (t : Approvals) (r : ApprovalRequestRow)
      → get_approval_request id t ≡ some r
      → get_approval_request id (mark_execution later id x (mark_executing id t))
        ≡ some (elim x [
          | exec_failed err ↦ failed_row later err (executing_row r)
          | exec_done code body ↦ completed_row later code body (executing_row r)
        ])
  unfolding mark_execution mark_executing mark_failed mark_completed executing_row failed_row
      completed_row
  marked_read (exec_failed err) t r h =
      rw
        (
          update_same (failed_row later err) (λ r. refl) id,
          update_same executing_row (λ r. refl) id,
          h,
        )
        refl
  marked_read (exec_done code body) t r h =
      rw
        (
          update_same (completed_row later code body) (λ r. refl) id,
          update_same executing_row (λ r. refl) id,
          h,
        )
        refl

  marked_other :
      (x : Execution) (at : String) (t : Approvals)
      → (id == at) ≡ false
      → get_approval_request at (mark_execution later id x (mark_executing id t))
        ≡ get_approval_request at t
  unfolding mark_execution mark_executing mark_failed mark_completed executing_row failed_row
      completed_row
  marked_other (exec_failed err) at t h =
      update_other (failed_row later err) (λ r. refl) id at h
        (update_where (λ r. r.id == id) executing_row t)
      ∙ update_other executing_row (λ r. refl) id at h t
  marked_other (exec_done code body) at t h =
      update_other (completed_row later code body) (λ r. refl) id at h
        (update_where (λ r. r.id == id) executing_row t)
      ∙ update_other executing_row (λ r. refl) id at h t

  rows_agree :
      (run : Executor) (r : ApprovalRequestRow)
      → (elim (run r.user_id r.backend_id r.request_body) [
        | exec_failed err ↦ failed_row later err (executing_row (settled none r))
        | exec_done code body ↦ completed_row later code body (executing_row (settled none r))
      ])
        ≡ settled (some run) r
  unfolding executing_row failed_row completed_row
  rows_agree run r = go (run r.user_id r.backend_id r.request_body)
    where
      go :
          (x : Execution)
          → (elim x [
            | exec_failed err ↦ failed_row later err (executing_row (settled none r))
            | exec_done code body ↦ completed_row later code body (executing_row (settled none r))
          ])
            ≡ (elim x [
              | exec_failed err ↦ ended_failed err r
              | exec_done code body ↦ ended_completed code body r
            ])
      go (exec_failed err) = refl
      go (exec_done code body) = refl

  -- A request that exists, of any status, owner and queue, is approved and executed: it ends as
  -- APPROVED without an executor, and else as FAILED or COMPLETED with the executor's answer to
  -- its user, backend and body. The answer is the row that the table then holds.
  pub execute_approved_request_lem :
      (executor : Option Executor) (t : Approvals) (r : ApprovalRequestRow)
      → get_approval_request id t ≡ some r
      → let out = execute_approved_request executor now later id approver comments t in
        (out.0 ≡ some (settled executor r)) × (get_approval_request id out.1 ≡ out.0)
  unfolding execute_approved_request approve_row
  execute_approved_request_lem none t r h =
      let a : get_approval_request id (after_approval t) ≡ some (settled none r) =
        approved_read t ∙ ap (on_row (approve_row now approver comments)) h in
      rw (a, execute_approved_request) (refl, a)
  execute_approved_request_lem (some run) t r h =
      let a : get_approval_request id (after_approval t) ≡ some (settled none r) =
        approved_read t ∙ ap (on_row (approve_row now approver comments)) h in
      let m =
        marked_read (run r.user_id r.backend_id r.request_body) (after_approval t) (settled none r)
          a in
      rw (a, execute_approved_request) (m ∙ ap some (rows_agree run r), refl)

  -- A request that does not exist gives an error, and no request changes.
  pub execute_approved_request-missing :
      (executor : Option Executor) (t : Approvals)
      → get_approval_request id t ≡ none
      → (execute_approved_request executor now later id approver comments t).0 ≡ none
  unfolding execute_approved_request
  execute_approved_request-missing executor t h =
      let a : get_approval_request id (after_approval t) ≡ none =
        approved_read t ∙ ap (on_row (approve_row now approver comments)) h in
      rw (a, execute_approved_request) refl

  -- An execution leaves every other request as it was.
  pub execute_approved_request_other :
      (executor : Option Executor) (at : String) (t : Approvals)
      → (id == at) ≡ false
      → get_approval_request at
          (execute_approved_request executor now later id approver comments t).1
        ≡ get_approval_request at t
  unfolding execute_approved_request
  execute_approved_request_other executor at t h =
      elim (Option-cases (get_approval_request id (after_approval t))) [
        | inl e ↦ rw (e, execute_approved_request) (approved_other at t h)
        | inr (req, e) ↦ go executor req e
      ]
    where
      go :
          (x : Option Executor) (req : ApprovalRequestRow)
          → get_approval_request id (after_approval t) ≡ some req
          → get_approval_request at (execute_approved_request x now later id approver comments t).1
            ≡ get_approval_request at t
      go none req e = rw (e, execute_approved_request) (approved_other at t h)
      go (some run) req e =
          rw (e, execute_approved_request)
            (marked_other (run req.user_id req.backend_id req.request_body) at (after_approval t) h
              ∙ approved_other at t h)
