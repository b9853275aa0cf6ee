-- ===== src/Enforcer/Approvals/Tests.antt =====
-- Runs of the approval requests and their theorems on concrete tables.
use palaestra_mcp_bridge.Common.{◌≡◌, refl, true, some, [], ◌∷◌}
use palaestra_mcp_bridge.Enforcer.Types.{EnforcerConfig, DecisionContext, no_profile, BucketStatus}
use palaestra_mcp_bridge.Enforcer.Approvals.{
  ApprovalRequestRow, Approvals, get_approval_request, create_approval_request,
}
use palaestra_mcp_bridge.Enforcer.Approvals.Requests.{
  Executor, exec_done, request_row, request_approval, execute_approved_request,
}
use palaestra_mcp_bridge.Enforcer.Approvals.Execute.{settled, execute_approved_request_lem}
use palaestra_mcp_bridge.Enforcer.Approvals.Decided.{IsWellFormed}
use palaestra_mcp_bridge.Enforcer.Approvals.Lifecycle.{
  Reachable, start, request, execute, Reachable-IsWellFormed,
}

abbrev config : EnforcerConfig
config = record {
  approval_timeout = 24;
  admin_approval_timeout = 0;
  user_approval_timeout = 10;
  enable_kill_switch = true;
  min_justification_length = 5;
  rate_window_duration = 60;
  inferred_cost_multiplier = 3;
}

abbrev no_tokens : BucketStatus
no_tokens = record { available = 0; capacity = 0; refill_rate = 0 }

abbrev call : DecisionContext
call = record {
  user_id = "u1";
  user_role = "user";
  user_email = "u1@example.org";
  trust_level = 50;
  tool = "drop_table";
  args = "{}";
  justification = "cleaning up";
  safety = no_profile;
  call_rate = 1;
  backend_id = "oracle";
  rate_limit = record { risk_bucket = no_tokens; resource_bucket = no_tokens };
  request_body = "body";
}

abbrev waiting : ApprovalRequestRow
waiting = request_row config call 100 "a1" "{}" "p1" "why" "user" ""

-- The executor answers 200 with the body it was given.
abbrev echo_executor : Executor
echo_executor user backend body = exec_done 200 body

abbrev denied_row : ApprovalRequestRow
denied_row = record waiting { id = "a2"; status = "DENIED"; approved_by = some "admin" }

abbrev two_requests : Approvals
two_requests = waiting ∷ denied_row ∷ []

-- The request had been denied before.
execute_approved_request_example :
    ((execute_approved_request (some echo_executor) 120 130 "a2" "u9" "ok" two_requests).0
      ≡ some (settled 120 130 "a2" "u9" "ok" (some echo_executor) denied_row))
    × (get_approval_request "a2"
          (execute_approved_request (some echo_executor) 120 130 "a2" "u9" "ok" two_requests).1
        ≡ (execute_approved_request (some echo_executor) 120 130 "a2" "u9" "ok" two_requests).0)
unfolding get_approval_request
execute_approved_request_example =
    execute_approved_request_lem 120 130 "a2" "u9" "ok" (some echo_executor) two_requests denied_row
      refl

abbrev one_executed : Approvals
one_executed =
    (execute_approved_request (some echo_executor) 120 130 "a1" "admin" "ok" (waiting ∷ [])).1

one_executed-Reachable : Reachable one_executed
unfolding request_approval create_approval_request get_approval_request
one_executed-Reachable =
    execute (some echo_executor) 120 130 "a1" "admin" "ok"
      (request config call 100 "a1" "{}" "p1" "why" "user" "" refl start)

Reachable-IsWellFormed_example : IsWellFormed one_executed
Reachable-IsWellFormed_example = Reachable-IsWellFormed one_executed-Reachable
