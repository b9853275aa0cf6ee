-- ===== src/Enforcer/Approvals.antt =====
-- The table of approval requests: store/enforcer_store.go. An UPDATE or a DELETE meets every row
-- that its condition selects; the id is the primary key. Times are numbers.
pub mod Rows
pub mod Requests
pub mod Cleanup
pub mod Execute
pub mod Decided
pub mod Queues
pub mod Waiting
pub mod Lifecycle
pub mod Tests
use palaestra_mcp_bridge.Common.{
  ℕ, ◌-◌, String, Bool, true, false, ◌&&◌, ◌||◌, not, Option, none, some, List, [], ◌∷◌, ◌==◌, ltb,
  if◌then◌else◌, length,
}

pub record ApprovalRequestRow : Type 0 where
  pub id : String
  pub user_id : String
  pub user_email : String
  pub user_role : String
  pub trust_level : ℕ
  pub tool_name : String
  pub tool_args : String
  pub backend_id : String
  pub safety_profile : String
  pub status : String
  pub queue_type : String
  pub justification : String
  pub requested_at : ℕ
  pub expires_at : ℕ
  pub approved_by : Option String
  pub approved_at : Option ℕ
  pub denial_reason : String
  pub comments : String
  pub policy_id : String
  pub violation_msg : String
  pub match_context : String
  pub request_body : String
  pub response_status : ℕ
  pub response_body : String
  pub executed_at : Option ℕ
  pub error_msg : String

abbrev pub Approvals : Type 0
Approvals = List ApprovalRequestRow

-- `GetApprovalRequest`: the row with the id, if there is one.
unfoldable pub get_approval_request : String → Approvals → Option ApprovalRequestRow
get_approval_request id [] = none
get_approval_request id (r ∷ rs) =
    let rest = get_approval_request id rs in if r.id == id then some r else rest

-- UPDATE enforcer_approvals SET … WHERE …
unfoldable pub update_where :
    (ApprovalRequestRow → Bool) → (ApprovalRequestRow → ApprovalRequestRow) → Approvals → Approvals
update_where test set [] = []
update_where test set (r ∷ rs) = (if test r then set r else r) ∷ update_where test set rs

-- SELECT … WHERE …
unfoldable pub select_where : (ApprovalRequestRow → Bool) → Approvals → Approvals
select_where test [] = []
select_where test (r ∷ rs) = let rest = select_where test rs in if test r then r ∷ rest else rest

-- What the columns of the INSERT leave at their default, the match context among them.
abbrev pub inserted : ApprovalRequestRow → ApprovalRequestRow
inserted req = record req {
  approved_by = none;
  approved_at = none;
  denial_reason = "";
  comments = "";
  match_context = "";
  response_status = 0;
  response_body = "";
  executed_at = none;
  error_msg = "";
}

-- `CreateApprovalRequest`: an error if the id is taken.
unfoldable pub create_approval_request : ApprovalRequestRow → Approvals → Option Approvals
create_approval_request req t = elim (get_approval_request req.id t) [
  | some _ ↦ none
  | none ↦ some (inserted req ∷ t)
]

abbrev has_id : String → ApprovalRequestRow → Bool
has_id id r = r.id == id

unfoldable pub approve_row : ℕ → String → String → ApprovalRequestRow → ApprovalRequestRow
approve_row now approver comments r = record r {
  status = "APPROVED";
  approved_by = some approver;
  approved_at = some now;
  comments = comments;
}

-- `ApproveRequest` of the store
unfoldable pub approve_request : ℕ → String → String → String → Approvals → Approvals
approve_request now id approver comments =
    update_where (has_id id) (approve_row now approver comments)

unfoldable pub deny_row : ℕ → String → String → ApprovalRequestRow → ApprovalRequestRow
deny_row now approver reason r = record r {
  status = "DENIED";
  approved_by = some approver;
  approved_at = some now;
  denial_reason = reason;
}

-- `DenyRequest` of the store
unfoldable pub deny_request : ℕ → String → String → String → Approvals → Approvals
deny_request now id approver reason = update_where (has_id id) (deny_row now approver reason)

unfoldable pub executing_row : ApprovalRequestRow → ApprovalRequestRow
executing_row r = record r { status = "EXECUTING" }

unfoldable pub mark_executing : String → Approvals → Approvals
mark_executing id = update_where (has_id id) executing_row

unfoldable pub completed_row : ℕ → ℕ → String → ApprovalRequestRow → ApprovalRequestRow
completed_row now code body r = record r {
  status = "COMPLETED";
  response_status = code;
  response_body = body;
  executed_at = some now;
}

unfoldable pub mark_completed : ℕ → String → ℕ → String → Approvals → Approvals
mark_completed now id code body = update_where (has_id id) (completed_row now code body)

unfoldable pub failed_row : ℕ → String → ApprovalRequestRow → ApprovalRequestRow
failed_row now err r = record r { status = "FAILED"; error_msg = err; executed_at = some now }

unfoldable pub mark_failed : ℕ → String → String → Approvals → Approvals
mark_failed now id err = update_where (has_id id) (failed_row now err)

abbrev pub expired_at : ℕ → ApprovalRequestRow → Bool
expired_at now r = r.status == "PENDING" && ltb r.expires_at now

abbrev pub expire_row : ApprovalRequestRow → ApprovalRequestRow
expire_row r = record r { status = "EXPIRED" }

-- `CleanupExpiredApprovals`
unfoldable pub cleanup_expired_approvals : ℕ → Approvals → Approvals
cleanup_expired_approvals now = update_where (expired_at now) expire_row

abbrev pub is_terminal : String → Bool
is_terminal s = s == "COMPLETED" || (s == "DENIED" || (s == "EXPIRED" || s == "FAILED"))

-- `CleanupOldApprovals`
unfoldable pub cleanup_old_approvals : ℕ → ℕ → Approvals → Approvals
cleanup_old_approvals now older_than =
    select_where (λ r. not (is_terminal r.status && ltb r.requested_at (now - older_than)))

-- `IsApprovalPending`
unfoldable pub is_approval_pending : ℕ → String → Approvals → Bool
is_approval_pending now id t =
    ltb 0
      (length (select_where (λ r. r.id == id && (r.status == "PENDING" && ltb now r.expires_at)) t))

abbrev pub pending_in : String → ApprovalRequestRow → Bool
pending_in queue r = r.status == "PENDING" && r.queue_type == queue

unfoldable pub count_user_pending_approvals : Approvals → ℕ
count_user_pending_approvals t = length (select_where (pending_in "user") t)

unfoldable pub count_admin_pending_approvals : Approvals → ℕ
count_admin_pending_approvals t = length (select_where (pending_in "admin") t)
