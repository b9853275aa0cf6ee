-- ===== src/Ratelimit/Manager/Limits.antt =====
-- No bucket of the manager ever holds more than its capacity.
use palaestra_mcp_bridge.Common.{
  ℕ, ◌≤◌, ◌≡◌, String, none, [], ◌∷◌, All, arith, Option-cases, inl, inr, refl, Bool-cases,
  if◌then◌else◌,
}
use palaestra_mcp_bridge.Common.Dict.{
  Dict, lookup, insert, All-lookup, All-insert, Distinct, Distinct-insert,
}
use palaestra_mcp_bridge.Ratelimit.State
use palaestra_mcp_bridge.Ratelimit.State.{
  BucketState, IsWithin, refill-IsWithin, consume-IsWithin, consume-SameBucket, refill-SameBucket,
}
use palaestra_mcp_bridge.Ratelimit.Manager.{
  BucketManager, bucket_key, get_or_create, fresh_bucket, consume_at, check_and_consume, refill_all,
  reset_user_buckets, map_values, set_config, set_user_config, delete_user_config, UserBucketConfig,
  reset_prefix, new_bucket_manager,
}
use palaestra_mcp_bridge.Ratelimit.Manager.States.{BucketStateForDb, load_state}
use text.Mathlib.Text.{starts_with}

-- A bucket stands under the key of its user, backend and type, and within its capacity.
abbrev pub IsGood : String → BucketState → Type 0
IsGood k b = (k ≡ bucket_key b.user_id b.backend_id b.bucket_type) × IsWithin b

-- All buckets are good, and no key stands twice.
abbrev pub WellFormed : BucketManager → Type 0
WellFormed m = All (λ e. IsGood e.0 e.1) m.buckets × Distinct m.buckets

insert-WellFormed :
    (k : String) (x : BucketState) (m : BucketManager)
    → WellFormed m
    → IsGood k x
    → WellFormed (record m { buckets = insert k x m.buckets })
insert-WellFormed k x m h g =
    (All-insert IsGood k x m.buckets h.0 g, Distinct-insert k x m.buckets h.1)

get_or_create-WellFormed :
    (u b t : String) (now : ℕ) (m : BucketManager)
    → WellFormed m
    → WellFormed (get_or_create u b t now m).1
unfolding get_or_create fresh_bucket
get_or_create-WellFormed u b t now m h = elim (Option-cases (lookup (bucket_key u b t) m.buckets)) [
  | inl e ↦ rw (e, get_or_create) (insert-WellFormed _ _ m h (refl, omega arith))
  | inr (x, e) ↦ rw (e, get_or_create) h
]

consume-IsGood :
    (k : String) (cost now : ℕ) (x : BucketState)
    → IsGood k x
    → IsGood k (State.consume cost now x).0
consume-IsGood k cost now x g =
    let s = consume-SameBucket cost now x in
    (rw (s.user, s.backend, s.type) g.0, consume-IsWithin cost now x g.1)

refill-IsGood :
    (k : String) (now : ℕ) (x : BucketState) → IsGood k x → IsGood k (State.refill now x)
refill-IsGood k now x g =
    let s = refill-SameBucket now x in
    (rw (s.user, s.backend, s.type) g.0, refill-IsWithin now x g.1)

consume_at-WellFormed :
    (k : String) (cost now : ℕ) (m : BucketManager)
    → WellFormed m
    → WellFormed (consume_at k cost now m).1
unfolding consume_at
consume_at-WellFormed k cost now m h = elim (Option-cases (lookup k m.buckets)) [
  | inl e ↦ rw (e, consume_at) h
  | inr (x, e) ↦
      rw (e, consume_at)
        (insert-WellFormed k _ m h
          (consume-IsGood k cost now x (All-lookup IsGood k m.buckets h.0 e)))
]

module _ (f : String → BucketState → BucketState) where
  lookup-map_values-none :
      (j : String) (d : Dict BucketState) → lookup j d ≡ none → lookup j (map_values f d) ≡ none
  unfolding map_values lookup
  lookup-map_values-none j [] e = refl
  lookup-map_values-none j ((k, x) ∷ d) e = ground (arith, lookup-map_values-none j d)

  map_values-WellFormed :
      (d : Dict BucketState)
      → ((k : String) (x : BucketState) → IsGood k x → IsGood k (f k x))
      → All (λ e. IsGood e.0 e.1) d × Distinct d
      → All (λ e. IsGood e.0 e.1) (map_values f d) × Distinct (map_values f d)
  unfolding map_values
  map_values-WellFormed [] keep h = (tt, tt)
  map_values-WellFormed ((k, x) ∷ d) keep h =
      let ih = map_values-WellFormed d keep (h.0.1, h.1.1) in
      ((keep k x h.0.0, ih.0), (lookup-map_values-none k d h.1.0, ih.1))

-- The calls that change the buckets or the configuration; the loading of saved states is apart.
pub data Operation : Type 0 where
  checks : String → String → ℕ → ℕ → Operation
  creates : String → String → String → Operation
  refills : Operation
  resets : String → String → Operation
  configures : String → String → ℕ → ℕ → Operation
  sets_user : UserBucketConfig → Operation
  deletes_user : String → String → Operation

unfoldable pub apply : ℕ → Operation → BucketManager → BucketManager
apply now (checks u b rc sc) m = (check_and_consume u b rc sc now m).1
apply now (creates u b t) m = (get_or_create u b t now m).1
apply now refills m = refill_all now m
apply now (resets u b) m = reset_user_buckets u b now m
apply now (configures b t c r) m = set_config b t c r m
apply now (sets_user cfg) m = set_user_config cfg m
apply now (deletes_user u b) m = delete_user_config u b m

reset-IsGood :
    (p : String) (now : ℕ) (k : String) (x : BucketState)
    → IsGood k x
    → IsGood k (
        if starts_with k p
        then record x { current_level = x.capacity; last_refill_at = now }
        else x)
reset-IsGood p now k x g = elim (Bool-cases (starts_with k p)) [
  | inl e ↦ rw e (g.0, omega arith)
  | inr e ↦ rw e g
]

-- Every operation of the manager but the loading of saved states, at any time, keeps each bucket
-- within its capacity and under its own key, and no key twice.
pub apply-WellFormed :
    (now : ℕ) (o : Operation) (m : BucketManager) → WellFormed m → WellFormed (apply now o m)
unfolding apply check_and_consume refill_all reset_user_buckets set_config set_user_config
    delete_user_config
apply-WellFormed now (checks u b rc sc) m h = consume_at-WellFormed _ sc now _ (
    consume_at-WellFormed _ rc now _
      (get_or_create-WellFormed u b "resource" now _ (get_or_create-WellFormed u b "risk" now m h)))
apply-WellFormed now (creates u b t) m h = get_or_create-WellFormed u b t now m h
apply-WellFormed now refills m h =
    map_values-WellFormed _ m.buckets (λ k x g. refill-IsGood k now x g) h
apply-WellFormed now (resets u b) m h =
    map_values-WellFormed _ m.buckets (reset-IsGood (reset_prefix u b) now) h
apply-WellFormed now (configures b t c r) m h = h
apply-WellFormed now (sets_user cfg) m h = h
apply-WellFormed now (deletes_user u b) m h = h

get_or_create-IsGood :
    (u b t : String) (now : ℕ) (m : BucketManager)
    → WellFormed m
    → IsGood (bucket_key u b t) (get_or_create u b t now m).0
unfolding get_or_create fresh_bucket
get_or_create-IsGood u b t now m h = elim (Option-cases (lookup (bucket_key u b t) m.buckets)) [
  | inl e ↦ rw (e, get_or_create) (refl, omega arith)
  | inr (x, e) ↦ rw (e, get_or_create) (All-lookup IsGood (bucket_key u b t) m.buckets h.0 e)
]

-- The level of the saved state fits the bucket that it is loaded into.
abbrev pub Fits : ℕ → BucketStateForDb → BucketManager → Type 0
Fits now s m =
    s.current_level ≤ (get_or_create s.user_id s.backend_id s.bucket_type now m).0.capacity

load_state-WellFormed :
    (now : ℕ) (s : BucketStateForDb) (m : BucketManager)
    → Fits now s m
    → WellFormed m
    → WellFormed (load_state now s m)
unfolding load_state
load_state-WellFormed now s m fits h =
    let found = get_or_create s.user_id s.backend_id s.bucket_type now m in
    insert-WellFormed (bucket_key s.user_id s.backend_id s.bucket_type)
      (record found.0 { current_level = s.current_level; last_refill_at = s.last_refill_at })
      found.1 (get_or_create-WellFormed s.user_id s.backend_id s.bucket_type now m h)
      ((get_or_create-IsGood s.user_id s.backend_id s.bucket_type now m h).0, fits)

-- A manager that was started empty and went through any operations at any times, and through the
-- steps of LoadStates for saved states that fit; the code loads those that do not as well.
pub data Reachable : BucketManager → Type 0 where
  started : Reachable new_bucket_manager
  stepped : {m : BucketManager} (now : ℕ) (o : Operation) → Reachable m → Reachable (apply now o m)
  loaded :
      {m : BucketManager} (now : ℕ) (s : BucketStateForDb)
      → Fits now s m
      → Reachable m
      → Reachable (load_state now s m)

-- In every manager that the operations reach from the empty one, and the loading of saved states
-- whose levels are within the configured capacities, each bucket holds at most its capacity and
-- stands under the key of its user, backend and type, and no key stands twice.
pub Reachable-WellFormed : {m : BucketManager} → Reachable m → WellFormed m
Reachable-WellFormed started = (tt, tt)
Reachable-WellFormed (stepped now o r) = apply-WellFormed now o _ (Reachable-WellFormed r)
Reachable-WellFormed (loaded now s fits r) =
    load_state-WellFormed now s _ fits (Reachable-WellFormed r)
