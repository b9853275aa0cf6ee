-- ===== src/Poolmgr/Pool.antt =====
-- The pool of one backend: poolmgr/pool.go. The channel of warm processes is a list with a
-- capacity; what a process does, and whether it lives, comes from outside. Times are nanoseconds.
pub mod Spawning
pub mod Waiting
pub mod Sameness
use palaestra_mcp_bridge.Common.{
  ℕ, suc, ◌+◌, ◌-◌, ◌*◌, String, Bool, true, false, ◌&&◌, not, Option, none, some, List, [], ◌∷◌,
  ◌++◌, ◌==◌, if◌then◌else◌, ltb, leb, eqb, length,
}
use palaestra_mcp_bridge.Poolmgr.Env.{hash_env}

pub record Process : Type 0 where
  pub pid : ℕ
  pub user_id : String

pub record Pool : Type 0 where
  pub backend_id : String
  pub command : String
  pub env : List String
  pub env_hash : String
  pub warm : List Process
  pub warm_capacity : ℕ
  pub min_pool_size : ℕ
  pub max_pool_size : ℕ
  pub current_size : ℕ
  pub spawn_attempts : ℕ
  pub max_spawn_attempts : ℕ
  pub backoff_delay : ℕ
  pub last_failure_reason : String
  pub closed : Bool
  pub dedicated_user : String
  pub last_used : ℕ
  pub has_injector : Bool
  pub stdio_framing : String

abbrev pub millisecond : ℕ
millisecond = 1000000

abbrev pub first_delay : ℕ
first_delay = 100 * millisecond

abbrev pub longest_delay : ℕ
longest_delay = 5000 * millisecond

abbrev at_least_one : ℕ → ℕ
at_least_one n = if ltb n 1 then 1 else n

-- `NewPoolWithEnv`; the first spawns are steps of their own.
unfoldable pub new_pool_with_env : String → ℕ → ℕ → String → List String → ℕ → Pool
new_pool_with_env backend least most command env now =
    let size = if eqb most 0 then least else most in
    record {
      backend_id = backend;
      command = command;
      env = env;
      env_hash = hash_env env;
      warm = [];
      warm_capacity = at_least_one size;
      min_pool_size = least;
      max_pool_size = size;
      current_size = 0;
      spawn_attempts = 0;
      max_spawn_attempts = 3;
      backoff_delay = first_delay;
      last_failure_reason = "";
      closed = false;
      dedicated_user = "";
      last_used = now;
      has_injector = false;
      stdio_framing = "";
    }

-- `NewPool`
unfoldable pub new_pool : String → ℕ → String → ℕ → Pool
new_pool backend size command now = new_pool_with_env backend size size command [] now

-- `NewPoolWithSecrets`
unfoldable pub new_pool_with_secrets : String → ℕ → ℕ → String → List String → ℕ → Pool
new_pool_with_secrets backend least most command env now =
    record (new_pool_with_env backend least most command env now) { has_injector = true }

-- `IsUnavailable`
unfoldable pub is_unavailable : Pool → Bool
is_unavailable p =
    if eqb p.max_spawn_attempts 0 then false else leb p.max_spawn_attempts p.spawn_attempts

-- `EnvMatches`
unfoldable pub env_matches : List String → Pool → Bool
env_matches env p = p.env_hash == hash_env env

-- What starting a process and shaking hands with it come to.
pub data Outcome : Type 0 where
  spawn_error : Outcome
  simple_ready : Process → Outcome
  handshake_done : Process → Outcome
  -- the process ended, with the reason that is recorded
  exited : String → Outcome
  -- the handshake took too long
  timed_out : String → Outcome

pub data Next : Type 0 where
  stop : Next
  retry_after : ℕ → Next

abbrev minimum : ℕ → ℕ → ℕ
minimum a b = if ltb b a then b else a

unfoldable pub doubled_delay : ℕ → ℕ
doubled_delay d = minimum (d * 2) longest_delay

abbrev pub exhausted : Pool → Bool
exhausted p = ltb 0 p.max_spawn_attempts && leb p.max_spawn_attempts p.spawn_attempts

-- A failed start: the delay grows before the attempts are compared.
unfoldable pub after_spawn_error : Pool → Pool × Next
after_spawn_error p =
    let failed = record p {
      spawn_attempts = suc p.spawn_attempts;
      backoff_delay = doubled_delay p.backoff_delay;
    } in
    if exhausted failed then (failed, stop) else (failed, retry_after p.backoff_delay)

-- A handshake that took too long: the delay grows only if there is another attempt.
unfoldable pub after_timeout : String → Pool → Pool × Next
after_timeout reason p =
    let failed = record p { spawn_attempts = suc p.spawn_attempts; last_failure_reason = reason } in
    if exhausted failed then (failed, stop) else (
      record failed { backoff_delay = doubled_delay p.backoff_delay },
      retry_after p.backoff_delay,
    )

-- `SetWarm`, once there is room in the channel, for which the code waits after it has counted
unfoldable pub set_warm : Process → Pool → Pool
set_warm x p = record p { current_size = suc p.current_size; warm = p.warm ++ (x ∷ []) }

-- One run of `spawnAndHandshake` that got a slot, on an open pool.
unfoldable pub attempt : Outcome → Pool → Pool × Next
attempt spawn_error p = after_spawn_error p
attempt (simple_ready x) p = (record (set_warm x p) { backoff_delay = first_delay }, stop)
attempt (handshake_done x) p =
    (record (set_warm x p) { spawn_attempts = 0; backoff_delay = first_delay }, stop)
attempt (exited reason) p =
    (record p { last_failure_reason = reason; backoff_delay = first_delay }, stop)
attempt (timed_out reason) p = after_timeout reason p

-- `spawnAndHandshake`
unfoldable pub spawn_and_handshake : Outcome → Pool → Pool × Next
spawn_and_handshake o p = if p.closed then (p, stop) else attempt o p

-- `ResetSpawnAttempts`: whether another spawn is triggered.
unfoldable pub reset_spawn_attempts : Pool → Pool × Bool
reset_spawn_attempts p =
    (record p { spawn_attempts = 0 }, leb p.max_spawn_attempts p.spawn_attempts)

-- What a receive from the warm processes gives: a process that is not alive is dropped. The count
-- stops at zero here, below which the code's goes when processes are sent back without being counted.
unfoldable pub take_from : (Process → Bool) → List Process → Pool → Option Process × Pool
take_from alive [] p = (none, p)
take_from alive (x ∷ rest) p =
    if alive x
    then (some x, record p { warm = rest; current_size = p.current_size - 1 })
    else (none, record p { warm = rest })

-- `TryAcquireWarm`
unfoldable pub try_acquire_warm : (Process → Bool) → Pool → Option Process × Pool
try_acquire_warm alive p = take_from alive p.warm p

-- `ReleaseWarm`: a process for which there is no room is killed.
unfoldable pub release_warm : Process → Pool → Pool
release_warm x p =
    if ltb (length p.warm) p.warm_capacity
    then set_warm x p
    else record p { current_size = suc p.current_size }

pub data Acquired : Type 0 where
  acquired : Process → Acquired
  unavailable : String → Acquired
  timeout : Acquired

-- `WaitForWarmWithMax` from its loop on: each round sees the pool as the others have left it.
unfoldable pub wait_rounds : (Process → Bool) → List (Pool → Pool) → Pool → Acquired × Pool
wait_rounds alive [] p =
    if is_unavailable p then (unavailable p.last_failure_reason, p) else (timeout, p)
wait_rounds alive (others ∷ rounds) p =
    let q = others p in
    let got = try_acquire_warm alive q in
    let rest = wait_rounds alive rounds got.1 in
    if is_unavailable q
    then (unavailable q.last_failure_reason, q)
    else elim got.0 [ none ↦ rest | some x ↦ (acquired x, got.1) ]

-- `WaitForWarmWithMax`
unfoldable pub wait_for_warm_with_max :
    (Process → Bool) → List (Pool → Pool) → Pool → Acquired × Pool
wait_for_warm_with_max alive rounds p =
    let got = try_acquire_warm alive p in
    if is_unavailable p
    then (unavailable p.last_failure_reason, p)
    else elim got.0 [ none ↦ wait_rounds alive rounds got.1 | some x ↦ (acquired x, got.1) ]

unfoldable pub shutdown : Pool → Pool
shutdown p = record p { closed = true }

unfoldable pub touch_last_used : ℕ → Pool → Pool
touch_last_used now p = record p { last_used = now }

unfoldable pub set_dedicated : String → Pool → Pool
set_dedicated user p = record p { dedicated_user = user }

unfoldable pub is_dedicated : Pool → Bool
is_dedicated p = not (p.dedicated_user == "")
