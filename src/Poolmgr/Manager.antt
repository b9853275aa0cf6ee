-- ===== src/Poolmgr/Manager.antt =====
-- The table of pools: poolmgr/manager.go. What the code shuts down is kept in a list, so that a
-- pool which is lost can be told from one which was shut down.
pub mod Table
pub mod Removal
use Prim.Native.String.{◌++◌ as append}
use text.Mathlib.Text.{starts_with}
use palaestra_mcp_bridge.Common.{
  ℕ, suc, ◌-◌, String, Bool, true, false, ◌&&◌, ◌||◌, not, Option, none, some, List, [], ◌∷◌, ◌==◌,
  if◌then◌else◌, ltb, length,
}
use palaestra_mcp_bridge.Common.Dict.{Dict, lookup, insert, remove}
use palaestra_mcp_bridge.Enforcer.Heuristics.{is_some}
use palaestra_mcp_bridge.Ratelimit.Manager.Config.{split_config_key}
use palaestra_mcp_bridge.Poolmgr.Pool.{
  Pool, new_pool, new_pool_with_env, new_pool_with_secrets, env_matches, shutdown, touch_last_used,
  set_dedicated, is_dedicated, is_unavailable, reset_spawn_attempts,
}

pub record PoolManager : Type 0 where
  pub pools : Dict Pool
  pub command : String
  pub pool_size : ℕ
  pub idle_timeout : ℕ
  pub shut_down : List Pool

-- `NewPoolManagerWithGC`
unfoldable pub new_pool_manager : String → ℕ → ℕ → PoolManager
new_pool_manager command size idle = record {
  pools = [];
  command = command;
  pool_size = size;
  idle_timeout = idle;
  shut_down = [];
}

abbrev or_created : String → Option Pool → Pool → PoolManager → Pool × PoolManager
or_created key (some p) fresh m = (p, m)
or_created key none fresh m = (fresh, record m { pools = insert key fresh m.pools })

-- `GetPool`
unfoldable pub get_pool : String → ℕ → PoolManager → Pool × PoolManager
get_pool backend now m =
    or_created backend (lookup backend m.pools) (new_pool backend m.pool_size m.command now) m

-- `GetOrCreatePool`
unfoldable pub get_or_create_pool : String → String → ℕ → ℕ → PoolManager → Pool × PoolManager
get_or_create_pool backend command size now m =
    or_created backend (lookup backend m.pools) (new_pool backend size command now) m

-- `backendID + ":" + userID`
unfoldable pub pool_key : String → String → String
pool_key backend user = append backend (append ":" user)

-- What a user asks of a pool.
pub record PoolSpec : Type 0 where
  pub backend_id : String
  pub user_id : String
  pub command : String
  pub min_pool_size : ℕ
  pub max_pool_size : ℕ
  pub env : List String
  pub with_secrets : Bool
  pub stdio_framing : String

-- Whether a pool that exists serves: the same environment, and an injector if there are secrets.
unfoldable pub fits_spec : PoolSpec → Pool → Bool
fits_spec a p = env_matches a.env p && (not a.with_secrets || p.has_injector)

abbrev pub key_of : PoolSpec → String
key_of a = pool_key a.backend_id a.user_id

unfoldable pub stopped : String → Pool → PoolManager → PoolManager
stopped key p m = record m { pools = remove key m.pools; shut_down = shutdown p ∷ m.shut_down }

unfoldable pub touched : String → ℕ → Pool → PoolManager → Pool × PoolManager
touched key now p m =
    let q = touch_last_used now p in (q, record m { pools = insert key q m.pools })

unfoldable pub found_pool : PoolSpec → ℕ → Option Pool → PoolManager → Option Pool × PoolManager
found_pool a now none m = (none, m)
found_pool a now (some p) m =
    let r = touched (key_of a) now p m in
    if fits_spec a p then (some r.0, r.1) else (none, stopped (key_of a) p m)

-- The first part of `GetOrCreateUserPoolWithSecrets`: the pool, or what goes on without it.
unfoldable pub find_user_pool : PoolSpec → ℕ → PoolManager → Option Pool × PoolManager
find_user_pool a now m = found_pool a now (lookup (key_of a) m.pools) m

unfoldable pub new_user_pool : PoolSpec → ℕ → Pool
new_user_pool a now =
    let least = if ltb a.min_pool_size 1 then 1 else a.min_pool_size in
    let most = if ltb a.max_pool_size least then least else a.max_pool_size in
    let p =
      if a.with_secrets
      then new_pool_with_secrets (key_of a) least most a.command a.env now
      else new_pool_with_env (key_of a) least most a.command a.env now in
    set_dedicated a.user_id
      (record p { stdio_framing = if a.stdio_framing == "" then "newline" else a.stdio_framing })

-- A pool that another call has put there meanwhile is taken if it fits, is shut down if only its
-- injector is missing, and is replaced otherwise.
unfoldable pub created_pool : PoolSpec → ℕ → Option Pool → PoolManager → Pool × PoolManager
created_pool a now none m =
    let fresh = new_user_pool a now in (fresh, record m { pools = insert (key_of a) fresh m.pools })
created_pool a now (some p) m =
    let fresh = new_user_pool a now in
    let m' = if env_matches a.env p then stopped (key_of a) p m else m in
    if fits_spec a p
    then touched (key_of a) now p m
    else (fresh, record m' { pools = insert (key_of a) fresh m'.pools })

-- The second part, after the lock was taken anew.
unfoldable pub create_user_pool : PoolSpec → ℕ → PoolManager → Pool × PoolManager
create_user_pool a now m = created_pool a now (lookup (key_of a) m.pools) m

unfoldable pub or_create : PoolSpec → ℕ → Option Pool × PoolManager → Pool × PoolManager
or_create a now (some p, m) = (p, m)
or_create a now (none, m) = create_user_pool a now m

-- `GetOrCreateUserPoolWithSecrets`, if no other call comes between the parts.
unfoldable pub get_or_create_user_pool : PoolSpec → ℕ → PoolManager → Pool × PoolManager
get_or_create_user_pool a now m = or_create a now (find_user_pool a now m)

-- `RemovePool`
unfoldable pub remove_pool : String → PoolManager → PoolManager
remove_pool backend m = elim (lookup backend m.pools) [ none ↦ m | some p ↦ stopped backend p m ]

-- The entries of a map that a test keeps, and the values of the others.
unfoldable pub keep_entries : (String → Pool → Bool) → Dict Pool → Dict Pool
keep_entries test [] = []
keep_entries test (e ∷ es) =
    let rest = keep_entries test es in if test e.0 e.1 then e ∷ rest else rest

unfoldable pub other_pools : (String → Pool → Bool) → Dict Pool → List Pool
other_pools test [] = []
other_pools test (e ∷ es) =
    let rest = other_pools test es in if test e.0 e.1 then rest else shutdown e.1 ∷ rest

abbrev append_pools : List Pool → List Pool → List Pool
append_pools [] qs = qs
append_pools (p ∷ ps) qs = p ∷ append_pools ps qs

unfoldable pub shut_others : (String → Pool → Bool) → PoolManager → PoolManager
shut_others test m = record m {
  pools = keep_entries test m.pools;
  shut_down = append_pools (other_pools test m.pools) m.shut_down;
}

abbrev pub of_other_backend : String → String → Pool → Bool
of_other_backend backend key p = not (key == backend || starts_with key (append backend ":"))

-- `RemovePoolsByBackend`, with the number of pools removed.
unfoldable pub remove_pools_by_backend : String → PoolManager → ℕ × PoolManager
remove_pools_by_backend backend m = (
  length (other_pools (of_other_backend backend) m.pools),
  shut_others (of_other_backend backend) m,
)

-- `ShutdownAll`
unfoldable pub shutdown_all : PoolManager → PoolManager
shutdown_all m = shut_others (λ key p. false) m

-- What `collectIdlePools` leaves: shared pools, and those used lately.
abbrev pub in_use : ℕ → ℕ → String → Pool → Bool
in_use idle now key p = not (is_dedicated p) || not (ltb idle (now - p.last_used))

-- `collectIdlePools`
unfoldable pub collect_idle_pools : ℕ → PoolManager → PoolManager
collect_idle_pools now m = shut_others (in_use m.idle_timeout now) m

pub record PoolStatus : Type 0 where
  pub backend_id : String
  pub user_id : String
  pub command : String
  pub warm_count : ℕ
  pub current_size : ℕ
  pub min_pool_size : ℕ
  pub max_pool_size : ℕ
  pub unavailable : Bool

unfoldable pub status_of : String × String → Pool → PoolStatus
status_of parts p = record {
  backend_id = parts.0;
  user_id = parts.1;
  command = p.command;
  warm_count = length p.warm;
  current_size = p.current_size;
  min_pool_size = p.min_pool_size;
  max_pool_size = p.max_pool_size;
  unavailable = is_unavailable p;
}

-- `GetAllPools`: the key is split at its first colon; a pool without one is not listed.
unfoldable pub get_all_pools : Dict Pool → List PoolStatus
get_all_pools [] = []
get_all_pools (e ∷ es) =
    let rest = get_all_pools es in
    elim (split_config_key e.0) [ none ↦ rest | some parts ↦ status_of parts e.1 ∷ rest ]

-- `ResetPool`
unfoldable pub reset_pool : String → String → PoolManager → PoolManager
reset_pool backend user m = elim (lookup (pool_key backend user) m.pools) [
  | none ↦ m
  | some p ↦ record m { pools = insert (pool_key backend user) (reset_spawn_attempts p).0 m.pools }
]
