-- ===== src/Enforcer/Approvals/Lifecycle.antt =====
-- The tables that the operations on requests lead to, in any order and number.
use palaestra_mcp_bridge.Common.{
  ℕ, ◌≡◌, refl, String, Bool, true, false, Option, none, some, [], ◌==◌, ltb, if◌then◌else◌,
  Option-cases, inl, inr, sym, subst, ◌-◌, ◌&&◌, not,
}
use palaestra_mcp_bridge.Enforcer.Types.{EnforcerConfig, DecisionContext}
use palaestra_mcp_bridge.Enforcer.Approvals.{
  ApprovalRequestRow, Approvals, get_approval_request, create_approval_request, approve_request,
  deny_request, deny_row, expired_at, expire_row, is_terminal, cleanup_expired_approvals,
  cleanup_old_approvals,
}
use palaestra_mcp_bridge.Enforcer.Approvals.Rows.{All-select_where}
use palaestra_mcp_bridge.Enforcer.Approvals.Requests.{
  Executor, execute_approved_request, approve_and_fetch, cleanup_tick, request_approval,
  request_row,
}
use palaestra_mcp_bridge.Enforcer.Approvals.Cleanup.{created, fresh}
use palaestra_mcp_bridge.Enforcer.Approvals.Decided.{
  IsDecided, IsWellFormed, HasUniqueIds-update_where, HasUniqueIds-select_where,
  approve_request-HasApprover, deny_request-IsDecided, forget, cleanup_expired_approvals-IsDecided,
  mark_execution-HasApprover, mark_execution-HasUniqueIds, approve_request-HasUniqueIds,
}

-- The operations of the enforcer on the table, at any times and with any answers from outside.
pub data Reachable : Approvals → Type 0 where
  start : Reachable []
  request :
      {t t' : Approvals} (config : EnforcerConfig) (ctx : DecisionContext) (now : ℕ)
      (id safety_json policy_id message queue match_ctx : String)
      → request_approval config ctx now id safety_json policy_id message queue match_ctx t ≡ some t'
      → Reachable t
      → Reachable t'
  approve :
      {t : Approvals} (now : ℕ) (id approver comments : String)
      → Reachable t
      → Reachable (approve_and_fetch now id approver comments t).1
  deny :
      {t : Approvals} (now : ℕ) (id approver reason : String)
      → Reachable t
      → Reachable (deny_request now id approver reason t)
  execute :
      {t : Approvals} (executor : Option Executor) (now later : ℕ) (id approver comments : String)
      → Reachable t
      → Reachable (execute_approved_request executor now later id approver comments t).1
  cleanup :
      {t : Approvals} (now retention : ℕ) → Reachable t → Reachable (cleanup_tick now retention t)

approve_request-IsWellFormed :
    (now : ℕ) (id approver comments : String) (t : Approvals)
    → IsWellFormed t
    → IsWellFormed (approve_request now id approver comments t)
approve_request-IsWellFormed now id approver comments t h = (
  forget id (approve_request now id approver comments t)
      (approve_request-HasApprover now id approver comments t h.0),
  approve_request-HasUniqueIds now id approver comments t h.1,
)

approve_and_fetch-IsWellFormed :
    (now : ℕ) (id approver comments : String) (t : Approvals)
    → IsWellFormed t
    → IsWellFormed (approve_and_fetch now id approver comments t).1
unfolding approve_and_fetch
approve_and_fetch-IsWellFormed = approve_request-IsWellFormed

request_approval-IsWellFormed :
    (req : ApprovalRequestRow) (t t' : Approvals)
    → req.status ≡ "PENDING"
    → create_approval_request req t ≡ some t'
    → IsWellFormed t
    → IsWellFormed t'
request_approval-IsWellFormed req t t' p e h =
    subst IsWellFormed (sym (created req t t' e)) ((λ _. inl p, h.0), (fresh req t t' e, h.1))

execute_approved_request-IsWellFormed :
    (executor : Option Executor) (now later : ℕ) (id approver comments : String) (t : Approvals)
    → IsWellFormed t
    → IsWellFormed (execute_approved_request executor now later id approver comments t).1
unfolding execute_approved_request
execute_approved_request-IsWellFormed executor now later id approver comments t h =
    elim (Option-cases (get_approval_request id (approve_request now id approver comments t))) [
      | inl e ↦
          rw (e, execute_approved_request)
            (approve_request-IsWellFormed now id approver comments t h)
      | inr (req, e) ↦ go executor req e
    ]
  where
    go :
        (x : Option Executor) (req : ApprovalRequestRow)
        → get_approval_request id (approve_request now id approver comments t) ≡ some req
        → IsWellFormed (execute_approved_request x now later id approver comments t).1
    go none req e =
        rw (e, execute_approved_request) (approve_request-IsWellFormed now id approver comments t h)
    go (some run) req e =
        let t1 = approve_request now id approver comments t in
        let x = run req.user_id req.backend_id req.request_body in
        rw (e, execute_approved_request)
          (
            forget id _ (
                mark_execution-HasApprover later id x t1
                  (approve_request-HasApprover now id approver comments t h.0)),
            mark_execution-HasUniqueIds later id x t1
                (approve_request-HasUniqueIds now id approver comments t h.1),
          )

deny_request-IsWellFormed :
    (now : ℕ) (id approver reason : String) (t : Approvals)
    → IsWellFormed t
    → IsWellFormed (deny_request now id approver reason t)
unfolding deny_request deny_row
deny_request-IsWellFormed now id approver reason t h = (
  deny_request-IsDecided now id approver reason t h.0,
  HasUniqueIds-update_where (λ r. r.id == id) (deny_row now approver reason) (λ r. refl) t h.1,
)

cleanup_expired_approvals-IsWellFormed :
    (now : ℕ) (t : Approvals) → IsWellFormed t → IsWellFormed (cleanup_expired_approvals now t)
unfolding cleanup_expired_approvals
cleanup_expired_approvals-IsWellFormed now t h = (
  cleanup_expired_approvals-IsDecided now t h.0,
  HasUniqueIds-update_where (expired_at now) expire_row (λ r. refl) t h.1,
)

cleanup_old_approvals-IsWellFormed :
    (now older_than : ℕ) (t : Approvals)
    → IsWellFormed t
    → IsWellFormed (cleanup_old_approvals now older_than t)
unfolding cleanup_old_approvals
cleanup_old_approvals-IsWellFormed now older_than t h = (
  All-select_where IsDecided
      (λ r. not (is_terminal r.status && ltb r.requested_at (now - older_than))) t h.0,
  HasUniqueIds-select_where
      (λ r. not (is_terminal r.status && ltb r.requested_at (now - older_than))) t h.1,
)

cleanup_tick-IsWellFormed :
    (now retention : ℕ) (t : Approvals)
    → IsWellFormed t
    → IsWellFormed (cleanup_tick now retention t)
unfolding cleanup_tick
cleanup_tick-IsWellFormed now retention t h =
    let k = cleanup_expired_approvals-IsWellFormed now t h in
    go (ltb 0 retention) (cleanup_expired_approvals now t) k
  where
    go :
        (b : Bool) (u : Approvals)
        → IsWellFormed u
        → IsWellFormed (if b then cleanup_old_approvals now retention u else u)
    go true u k = cleanup_old_approvals-IsWellFormed now retention u k
    go false u k = k

-- In every table that the operations lead to, no id stands twice, and a request which nobody
-- approved or denied is pending or expired.
pub Reachable-IsWellFormed : {t : Approvals} → Reachable t → IsWellFormed t
unfolding request_approval
Reachable-IsWellFormed start = (tt, tt)
Reachable-IsWellFormed
      (request {t} {t'} config ctx now id safety_json policy_id message queue match_ctx e r) =
    request_approval-IsWellFormed
      (request_row config ctx now id safety_json policy_id message queue match_ctx) t t' refl e
      (Reachable-IsWellFormed r)
Reachable-IsWellFormed (approve {t} now id approver comments r) =
    approve_and_fetch-IsWellFormed now id approver comments t (Reachable-IsWellFormed r)
Reachable-IsWellFormed (deny {t} now id approver reason r) =
    deny_request-IsWellFormed now id approver reason t (Reachable-IsWellFormed r)
Reachable-IsWellFormed (execute {t} executor now later id approver comments r) =
    execute_approved_request-IsWellFormed executor now later id approver comments t
      (Reachable-IsWellFormed r)
Reachable-IsWellFormed (cleanup {t} now retention r) =
    cleanup_tick-IsWellFormed now retention t (Reachable-IsWellFormed r)
