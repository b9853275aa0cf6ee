-- ===== src/Executor/Tests.antt =====
-- Executions on concrete values.
use palaestra_mcp_bridge.Common.{◌≡◌, refl, false, none, some, [], ◌∷◌}
use palaestra_mcp_bridge.Muxer.Routing.{trim_prefix}
use palaestra_mcp_bridge.Poolmgr.Pool.{Pool, touch_last_used}
use palaestra_mcp_bridge.Executor.{
  Json, failed, hangs_up, Others, strip_tool_prefix, take_and_execute, execute_with_process,
  wait_for_warm, execute_request, put_back,
}

-- Bodies that are the name of the tool, and responses that are errors without a code.
abbrev json : Json
json = record {
  params_name = λ body. some body;
  with_name = λ name body. name;
  request_id = λ body. some "7";
  with_id = λ id body. body;
  compact = λ body. some body;
  answer = λ response. failed none;
}

abbrev pool : Pool
pool = record {
  backend_id = "b1";
  command = "server";
  env = [];
  env_hash = "";
  warm = record { pid = 1; user_id = "u1" } ∷ record { pid = 2; user_id = "u1" } ∷ [];
  warm_capacity = 2;
  min_pool_size = 1;
  max_pool_size = 2;
  current_size = 2;
  spawn_attempts = 0;
  max_spawn_attempts = 3;
  backoff_delay = 0;
  last_failure_reason = "";
  closed = false;
  dedicated_user = "";
  last_used = 0;
  has_injector = false;
  stdio_framing = "";
}

abbrev unchanged : Pool → Pool
unchanged p = p

abbrev nobody : Others
nobody = record { between = unchanged; meanwhile = unchanged; rounds = [] }

-- While the request runs, a third process is started, and the channel is full then.
abbrev filled : Pool → Pool
filled p = record p { warm = record { pid = 3; user_id = "u1" } ∷ p.warm }

strip_tool_prefix_twice : strip_tool_prefix "git_git/push" "git" ≡ "push"
unfolding strip_tool_prefix trim_prefix
strip_tool_prefix_twice = refl

execute_request-full :
    execute_request json 5 "exec-5"
      (unchanged ∷ [])
      (record nobody { meanwhile = filled })
      hangs_up
      "b1"
      "git"
      "git_push"
      (some pool)
    ≡ none
unfolding execute_request wait_for_warm touch_last_used take_and_execute execute_with_process
    put_back
execute_request-full = refl
