-- ===== src/Poolmgr/Tests.antt =====
-- Pools on concrete values.
use palaestra_mcp_bridge.Common.{
  ◌≡◌, refl, String, Bool, true, false, none, some, [], ◌∷◌, ◌==◌, ◌⊎◌, Occurs, arith, eqb, not,
}
use palaestra_mcp_bridge.Common.Dict.{lookup}
use palaestra_mcp_bridge.Poolmgr.Env.{hash_env, exchange_pass, exchange_sort, join_bars}
use palaestra_mcp_bridge.Poolmgr.Process.{
  is_allowed_command, launch, shell, direct, is_simple_command,
}
use palaestra_mcp_bridge.Poolmgr.Pool.{
  Process, Pool, spawn_error, timed_out, wait_for_warm_with_max, new_pool_with_env, is_unavailable,
  stop, shutdown, touch_last_used, env_matches, take_from, try_acquire_warm, wait_rounds,
}
use palaestra_mcp_bridge.Poolmgr.Pool.Spawning.{spawn_run, spawn_run_exhausts}
use palaestra_mcp_bridge.Poolmgr.Pool.Waiting.{wait_for_warm_with_max_alive}
use palaestra_mcp_bridge.Poolmgr.Pool.Sameness.{env_matches-bar}
use palaestra_mcp_bridge.Poolmgr.Manager.{
  PoolManager, PoolSpec, pool_key, key_of, get_or_create_user_pool,
}
use palaestra_mcp_bridge.Poolmgr.Manager.{remove_pools_by_backend}
use palaestra_mcp_bridge.Poolmgr.Manager.Removal.{remove_pools_by_backend_lem}
use palaestra_mcp_bridge.Poolmgr.Pool.{spawn_and_handshake, timed_out}
use palaestra_mcp_bridge.Poolmgr.Pool.Spawning.{IsPaced, NextIsPaced, spawn_and_handshake-IsPaced}
use palaestra_mcp_bridge.Common.Dict.{Distinct, lookup}
use text.Mathlib.Text.{starts_with}
use Prim.Native.String.{◌++◌ as append}
use palaestra_mcp_bridge.Poolmgr.Manager.Table.{
  get_or_create_user_pool_lem, get_or_create_user_pool_keeps,
}

-- `npm install; curl …` is run by a shell.
npm_shell : launch "npm install; curl x" ≡ some shell
unfolding launch is_allowed_command is_simple_command
npm_shell = refl

removal_refused : launch "npm x; rm -r y" ≡ none
unfolding launch is_allowed_command
removal_refused = refl

path_direct : launch "/usr/bin/server a b" ≡ some direct
unfolding launch is_allowed_command is_simple_command
path_direct = refl

abbrev fresh_pool : Pool
fresh_pool = record {
  backend_id = "jira:u1";
  command = "cat";
  env = "A=1" ∷ [];
  env_hash = "A=1|";
  warm = [];
  warm_capacity = 2;
  min_pool_size = 1;
  max_pool_size = 2;
  current_size = 0;
  spawn_attempts = 0;
  max_spawn_attempts = 3;
  backoff_delay = 100000000;
  last_failure_reason = "";
  closed = false;
  dedicated_user = "u1";
  last_used = 5;
  has_injector = false;
  stdio_framing = "newline";
}

new_pool_lem :
    record (new_pool_with_env "jira:u1" 1 2 "cat" ("A=1" ∷ []) 5) {
      dedicated_user = "u1";
      stdio_framing = "newline";
    }
    ≡ fresh_pool
unfolding new_pool_with_env hash_env join_bars exchange_sort exchange_pass
new_pool_lem = refl

abbrev alive_unless_two : Process → Bool
alive_unless_two x = not (eqb x.pid 2)

abbrev one : Process
one = record { pid = 1; user_id = "" }

abbrev two : Process
two = record { pid = 2; user_id = "" }

env_matches-bar_example :
    env_matches ("A=1" ∷ "B=2" ∷ []) (new_pool_with_env "jira" 1 2 "cat" ("A=1|B=2" ∷ []) 5) ≡ true
env_matches-bar_example = env_matches-bar "jira" "cat" "A=1" "B=2" 1 2 5 refl

spawn_run_exhausts_example :
    let (q, next) = spawn_run (spawn_error ∷ timed_out "x" ∷ spawn_error ∷ []) fresh_pool in
    (is_unavailable q ≡ true) × (q.spawn_attempts ≡ 3) × (next ≡ stop)
spawn_run_exhausts_example =
    spawn_run_exhausts (spawn_error ∷ timed_out "x" ∷ spawn_error ∷ []) fresh_pool 2 refl refl
      (tt, (tt, (tt, tt))) (omega arith)

abbrev ready_pool : Pool
ready_pool = record fresh_pool { warm = two ∷ one ∷ []; current_size = 2 }

wait_for_warm_with_max_alive_example : alive_unless_two one ≡ true
unfolding wait_for_warm_with_max is_unavailable try_acquire_warm take_from wait_rounds
wait_for_warm_with_max_alive_example =
    wait_for_warm_with_max_alive alive_unless_two ((λ p. p) ∷ []) ready_pool one refl

abbrev manager : PoolManager
manager = record {
  pools = ("jira:u1", fresh_pool) ∷ ("wiki:u1", fresh_pool) ∷ [];
  command = "cat";
  pool_size = 1;
  idle_timeout = 100;
  shut_down = [];
}

abbrev other_token : PoolSpec
other_token = record {
  backend_id = "jira";
  user_id = "u1";
  command = "cat";
  min_pool_size = 0;
  max_pool_size = 2;
  env = "A=2" ∷ [];
  with_secrets = false;
  stdio_framing = "";
}

get_or_create_user_pool_example :
    let (p, m') = get_or_create_user_pool other_token 9 manager in
    (env_matches ("A=2" ∷ []) p ≡ true)
    × (lookup (key_of other_token) m'.pools ≡ some p)
    × ((other : String)
        → (key_of other_token == other) ≡ false
        → lookup other m'.pools ≡ lookup other manager.pools)
get_or_create_user_pool_example = get_or_create_user_pool_lem other_token 9 manager

get_or_create_user_pool_keeps_example :
    let (q, m') = get_or_create_user_pool other_token 9 manager in
    (q ≡ touch_last_used 9 fresh_pool) ⊎ Occurs (shutdown fresh_pool) m'.shut_down
unfolding lookup pool_key
get_or_create_user_pool_keeps_example =
    get_or_create_user_pool_keeps other_token 9 manager fresh_pool refl

manager-Distinct : Distinct manager.pools
unfolding lookup
manager-Distinct = (refl, (refl, tt))

remove_pools_by_backend_example :
    let m' = (remove_pools_by_backend "jira" manager).1 in
    ((user : String) → lookup (pool_key "jira" user) m'.pools ≡ none)
    × (lookup "jira" m'.pools ≡ none)
    × ((key : String)
        → (key == "jira") ≡ false
        → starts_with key (append "jira" ":") ≡ false
        → lookup key m'.pools ≡ lookup key manager.pools)
remove_pools_by_backend_example = remove_pools_by_backend_lem "jira" manager manager-Distinct

spawn_and_handshake-IsPaced_example :
    let (q, next) = spawn_and_handshake (timed_out "slow") fresh_pool in
    IsPaced q.backoff_delay × NextIsPaced next
spawn_and_handshake-IsPaced_example =
    spawn_and_handshake-IsPaced (timed_out "slow") fresh_pool (omega arith, omega arith)
