-- ===== src/Poolmgr/Recycler.antt =====
-- The processes that are bound to users: poolmgr/recycler.go. Processes that are killed are not in
-- a pool any more.
use palaestra_mcp_bridge.Common.{
  ℕ, suc, ◌-◌, String, Bool, true, false, Option, none, some, List, [], ◌∷◌, ◌++◌, if◌then◌else◌,
}
use palaestra_mcp_bridge.Common.Dict.{Dict, lookup, insert, remove}
use palaestra_mcp_bridge.Poolmgr.Pool.{Pool, Process}

pub data RecyclePolicy : Type 0 where
  always : RecyclePolicy
  dedicated : RecyclePolicy
  on_error : RecyclePolicy

-- The recycler, and the pool of the backend with its count of active processes.
pub record SafetyRecycler : Type 0 where
  pub bound : Dict (Dict Process)
  pub recycle_policy : RecyclePolicy
  pub pool : Pool
  pub active_count : ℕ

-- `shouldRecycle`
unfoldable pub should_recycle : RecyclePolicy → Bool → Bool
should_recycle always failed = true
should_recycle on_error failed = failed
should_recycle dedicated failed = false

abbrev users_of : String → Dict (Dict Process) → Dict Process
users_of backend bound = elim (lookup backend bound) [ none ↦ [] | some users ↦ users ]

-- `GetDedicatedProcess`
unfoldable pub get_dedicated_process : String → String → SafetyRecycler → Option Process
get_dedicated_process backend user r = lookup user (users_of backend r.bound)

unfoldable pub bind :
    RecyclePolicy → String → String → Process → Dict (Dict Process) → Dict (Dict Process)
bind dedicated backend user x bound = insert backend (insert user x (users_of backend bound)) bound
bind always backend user x bound = bound
bind on_error backend user x bound = bound

unfoldable pub unbind : RecyclePolicy → String → String → Dict (Dict Process) → Dict (Dict Process)
unbind dedicated backend user bound = elim (lookup backend bound) [
  | none ↦ bound
  | some users ↦ insert backend (remove user users) bound
]
unbind always backend user bound = bound
unbind on_error backend user bound = bound

unfoldable pub acquire_from :
    List Process → String → String → SafetyRecycler → Option Process × SafetyRecycler
acquire_from [] backend user r = (none, r)
acquire_from (x ∷ rest) backend user r =
    let mine : Process = record x { user_id = user } in
    (
      some mine,
      record r {
        bound = bind r.recycle_policy backend user mine r.bound;
        pool = record r.pool { warm = rest };
        active_count = suc r.active_count;
      },
    )

-- `AcquireProcess`
unfoldable pub acquire_process : String → String → SafetyRecycler → Option Process × SafetyRecycler
acquire_process backend user r = acquire_from r.pool.warm backend user r

-- `ReleaseProcess`: whether a new process is started in place of the one killed.
unfoldable pub release_process :
    String → String → Process → Bool → SafetyRecycler → SafetyRecycler × Bool
release_process backend user x failed r =
    if should_recycle r.recycle_policy failed
    then (record r { active_count = r.active_count - 1 }, true)
    else (
      record r {
        bound = unbind r.recycle_policy backend user r.bound;
        pool = record r.pool { warm = r.pool.warm ++ (x ∷ []) };
        active_count = r.active_count - 1;
      },
      false,
    )

-- `SetRecyclePolicy`
unfoldable pub set_recycle_policy : RecyclePolicy → SafetyRecycler → SafetyRecycler
set_recycle_policy policy r = record r { recycle_policy = policy }

-- `ReleaseDedicated`: the process is killed.
unfoldable pub release_dedicated : String → String → SafetyRecycler → SafetyRecycler
release_dedicated backend user r = elim (get_dedicated_process backend user r) [
  | none ↦ r
  | some _ ↦ record r { bound = insert backend (remove user (users_of backend r.bound)) r.bound }
]
