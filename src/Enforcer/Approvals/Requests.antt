-- ===== src/Enforcer/Approvals/Requests.antt =====
-- enforcer/enforcer.go: `RequestApproval`, `CheckApproval`, `ApproveRequest`, `DenyRequest`,
-- `ExecuteApprovedRequest` and `cleanupLoop`. The uuid, the JSON texts and the executor's answer
-- come from outside; a statement of the database that fails is not modelled.
use palaestra_mcp_bridge.Common.{
  ℕ, ◌+◌, String, ◌||◌, Option, none, some, ◌==◌, ltb, eqb, if◌then◌else◌,
}
use palaestra_mcp_bridge.Enforcer.Types.{EnforcerConfig, DecisionContext}
use palaestra_mcp_bridge.Enforcer.Approvals.{
  ApprovalRequestRow, Approvals, get_approval_request, create_approval_request, approve_request,
  mark_executing, mark_completed, mark_failed, cleanup_expired_approvals, cleanup_old_approvals,
}

-- Ten minutes in nanoseconds.
abbrev ten_minutes : ℕ
ten_minutes = 600000000000

-- The timeout of a queue.
unfoldable pub approval_timeout : EnforcerConfig → String → ℕ
approval_timeout config queue =
    if queue == "user"
    then if eqb config.user_approval_timeout 0 then ten_minutes else config.user_approval_timeout
    else if eqb config.admin_approval_timeout 0
    then config.approval_timeout
    else config.admin_approval_timeout

-- The row that `RequestApproval` builds, from the new id, the JSON of the profile and the time.
abbrev pub request_row :
    EnforcerConfig
    → DecisionContext
    → ℕ
    → String
    → String
    → String
    → String
    → String
    → String
    → ApprovalRequestRow
request_row config ctx now id safety_json policy_id message queue match_ctx = record {
  id = id;
  user_id = ctx.user_id;
  user_email = ctx.user_email;
  user_role = ctx.user_role;
  trust_level = ctx.trust_level;
  tool_name = ctx.tool;
  tool_args = ctx.args;
  backend_id = ctx.backend_id;
  safety_profile = safety_json;
  status = "PENDING";
  queue_type = queue;
  justification = ctx.justification;
  requested_at = now;
  expires_at = now + approval_timeout config queue;
  approved_by = none;
  approved_at = none;
  denial_reason = "";
  comments = "";
  policy_id = policy_id;
  violation_msg = message;
  match_context = match_ctx;
  request_body = ctx.request_body;
  response_status = 0;
  response_body = "";
  executed_at = none;
  error_msg = "";
}

-- `RequestApproval`: the new table, or the error of the store.
unfoldable pub request_approval :
    EnforcerConfig
    → DecisionContext
    → ℕ
    → String
    → String
    → String
    → String
    → String
    → String
    → Approvals
    → Option Approvals
request_approval config ctx now id safety_json policy_id message queue match_ctx =
    create_approval_request
      (request_row config ctx now id safety_json policy_id message queue match_ctx)

-- What `CheckApproval` answers.
pub data Check : Type 0 where
  approved still_pending expired not_found : Check
  denied : String → Check

abbrev pub check_row : ℕ → ApprovalRequestRow → Check
check_row now r =
    if r.status == "APPROVED"
    then approved
    else if r.status == "DENIED"
    then denied r.denial_reason
    else if r.status == "EXPIRED" || ltb r.expires_at now
    then expired
    else still_pending

abbrev pub check_found : ℕ → Option ApprovalRequestRow → Check
check_found now none = not_found
check_found now (some r) = check_row now r

-- `CheckApproval`
unfoldable pub check_approval : ℕ → String → Approvals → Check
check_approval now id t = check_found now (get_approval_request id t)

-- `ApproveRequest` of the enforcer: the body to replay, none if there is no such request.
unfoldable pub approve_and_fetch :
    ℕ → String → String → String → Approvals → Option String × Approvals
approve_and_fetch now id approver comments t =
    let t' = approve_request now id approver comments t in
    (elim (get_approval_request id t') [ none ↦ none | some req ↦ some req.request_body ], t')

-- The answer of the executor.
pub data Execution : Type 0 where
  exec_failed : String → Execution
  exec_done : ℕ → String → Execution

-- `ApprovalExecutor`: the user, the backend and the request's body.
abbrev pub Executor : Type 0
Executor = String → String → String → Execution

unfoldable pub mark_execution : ℕ → String → Execution → Approvals → Approvals
mark_execution later id (exec_failed err) t = mark_failed later id err t
mark_execution later id (exec_done code body) t = mark_completed later id code body t

-- `ExecuteApprovedRequest`, with the times of the approval and of the end of the execution: the
-- request as it is at the end, none for an error, and the table.
unfoldable pub execute_approved_request :
    Option Executor
    → ℕ
    → ℕ
    → String
    → String
    → String
    → Approvals
    → Option ApprovalRequestRow × Approvals
unfolding mark_execution
execute_approved_request executor now later id approver comments t =
    let t1 = approve_request now id approver comments t in
    elim (get_approval_request id t1) [
      | none ↦ (none, t1)
      | some req ↦ elim executor [
        | none ↦ (some req, t1)
        | some run ↦
            let t2 = mark_executing id t1 in
            let t3 = mark_execution later id (run req.user_id req.backend_id req.request_body) t2 in
            (get_approval_request id t3, t3)
      ]
    ]

-- One tick of `cleanupLoop`, at the retention period of the configuration.
unfoldable pub cleanup_tick : ℕ → ℕ → Approvals → Approvals
cleanup_tick now retention t =
    let t1 = cleanup_expired_approvals now t in
    if ltb 0 retention then cleanup_old_approvals now retention t1 else t1
