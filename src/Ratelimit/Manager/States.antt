-- ===== src/Ratelimit/Manager/States.antt =====
-- Saving the buckets and loading them again: `GetAllStates`, `LoadStates`, `GetBucketStatus`.
use palaestra_mcp_bridge.Common.{
  ℕ, ◌≡◌, refl, ap, String, Option, none, some, List, [], ◌∷◌, map, All, arith, ◌==◌, eq_iff,
  if◌then◌else◌,
}
use palaestra_mcp_bridge.Common.Dict.{Dict, lookup, insert, lookup-insert, Distinct}
use palaestra_mcp_bridge.Ratelimit.State.{BucketState}
use palaestra_mcp_bridge.Ratelimit.Manager.{
  BucketManager, bucket_key, get_or_create, get_all_buckets, get_status, values,
}
use palaestra_mcp_bridge.Ratelimit.Manager.Steps.{get_or_create-lookup}

-- `BucketStateForDB`
pub record BucketStateForDb : Type 0 where
  pub user_id : String
  pub backend_id : String
  pub bucket_type : String
  pub current_level : ℕ
  pub capacity : ℕ
  pub refill_rate : ℕ
  pub last_refill_at : ℕ

abbrev to_db : BucketState → BucketStateForDb
to_db b = record {
  user_id = b.user_id;
  backend_id = b.backend_id;
  bucket_type = b.bucket_type;
  current_level = b.current_level;
  capacity = b.capacity;
  refill_rate = b.refill_rate;
  last_refill_at = b.last_refill_at;
}

-- `GetAllStates`
unfoldable pub get_all_states : BucketManager → List BucketStateForDb
unfolding get_all_buckets
get_all_states m = map to_db (get_all_buckets m)

-- The body of the loop of `LoadStates`: the level and the time are written through the pointer.
unfoldable pub load_state : ℕ → BucketStateForDb → BucketManager → BucketManager
load_state now s m =
    let (b, m') = get_or_create s.user_id s.backend_id s.bucket_type now m in
    record m' {
      buckets =
          insert (bucket_key s.user_id s.backend_id s.bucket_type)
            (record b { current_level = s.current_level; last_refill_at = s.last_refill_at })
            m'.buckets;
    }

-- `LoadStates`
unfoldable pub load_states : ℕ → List BucketStateForDb → BucketManager → BucketManager
unfolding load_state
load_states now [] m = m
load_states now (s ∷ ss) m = load_states now ss (load_state now s m)

-- `GetBucketStatus`: available, capacity, refill rate, with zeros for a bucket that is not there.
abbrev status_of : Option BucketState → ℕ × ℕ × ℕ
status_of none = (0, 0, 0)
status_of (some b) = (b.current_level, b.capacity, b.refill_rate)

unfoldable pub get_bucket_status : String → String → BucketManager → (ℕ × ℕ × ℕ) × (ℕ × ℕ × ℕ)
unfolding get_status
get_bucket_status user backend m =
    let (risk, resource) = get_status user backend m in (status_of risk, status_of resource)

-- The level of a bucket and the time of its last refill.
abbrev pub reading : Option BucketState → Option (ℕ × ℕ)
reading none = none
reading (some b) = some (b.current_level, b.last_refill_at)

abbrev or_else : Option (ℕ × ℕ) → Option (ℕ × ℕ) → Option (ℕ × ℕ)
or_else none o = o
or_else (some x) o = some x

-- Each bucket stands under the key of its user, backend and type.
abbrev pub IsKeyed : Dict BucketState → Type 0
IsKeyed = All (λ e. e.0 ≡ bucket_key e.1.user_id e.1.backend_id e.1.bucket_type)

load_state-reading :
    (now : ℕ) (s : BucketStateForDb) (m : BucketManager) (j : String)
    → reading (lookup j (load_state now s m).buckets) ≡ (
        if bucket_key s.user_id s.backend_id s.bucket_type == j
        then some (s.current_level, s.last_refill_at)
        else reading (lookup j m.buckets))
unfolding load_state
load_state-reading now s m j =
    rw
      (
        lookup-insert (bucket_key s.user_id s.backend_id s.bucket_type) j _ _,
        get_or_create-lookup s.user_id s.backend_id s.bucket_type now m j,
      )
      (ground arith)

load_all :
    (now : ℕ) (d : Dict BucketState) (n : BucketManager) (j : String)
    → IsKeyed d
    → Distinct d
    → reading (lookup j (load_states now (map to_db (values d)) n).buckets)
      ≡ or_else (reading (lookup j d)) (reading (lookup j n.buckets))
unfolding load_states lookup
load_all now [] n j k h = refl
load_all now ((key, b) ∷ d) n j k h = ground (
  arith,
  load_all now d (load_state now (to_db b) n) j k.1 h.1,
  load_state-reading now (to_db b) n j,
  eq_iff key j,
  eq_iff (bucket_key b.user_id b.backend_id b.bucket_type) j,
)

-- Loading what was saved, into a manager with no buckets and any configuration, gives every key
-- the level and the time of the last refill that it had, and no key besides.
pub load_states-get_all_states :
    (now : ℕ) (m n : BucketManager) (j : String)
    → IsKeyed m.buckets
    → Distinct m.buckets
    → n.buckets ≡ []
    → reading (lookup j (load_states now (get_all_states m) n).buckets)
      ≡ reading (lookup j m.buckets)
unfolding get_all_states lookup
load_states-get_all_states now m n j k h e =
    ground (arith, load_all now m.buckets n j k h, ap (lookup j) e)
