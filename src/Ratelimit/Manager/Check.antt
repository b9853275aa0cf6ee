-- ===== src/Ratelimit/Manager/Check.antt =====
-- What `CheckAndConsume` does to the two buckets of its user and backend, and to all others.
use palaestra_mcp_bridge.Common.{
  ℕ, ◌-◌, ◌≡◌, ◌∙◌, String, Bool, some, ◌==◌, if◌then◌else◌, arith, leb,
}
use palaestra_mcp_bridge.Common.Dict.{lookup, lookup-insert}
use palaestra_mcp_bridge.Ratelimit.State
use palaestra_mcp_bridge.Ratelimit.State.{BucketState}
use palaestra_mcp_bridge.Ratelimit.Manager.{
  BucketManager, bucket_key, get_or_create, check_and_consume,
}
use palaestra_mcp_bridge.Ratelimit.Manager.Steps.{
  get_or_create-lookup, get_or_create-config, get_or_create-user_configs, bucket_of, spent,
  check_and_consume-spent,
}

-- What a call answers for a cost and a bucket: whether the level after a refill covers the cost.
abbrev pub covers : ℕ → ℕ → BucketState → Bool
covers cost now b = leb cost (State.refill now b).current_level

consume-covers : (cost now : ℕ) (b : BucketState) → (State.consume cost now b).1 ≡ covers cost now b
unfolding State.consume
consume-covers cost now b = ground arith

consume-charge :
    (cost now : ℕ) (b : BucketState)
    → (State.consume cost now b).0 ≡ (
        let r = State.refill now b in
        record r { current_level = r.current_level - (if covers cost now b then cost else 0) })
unfolding State.consume
consume-charge cost now b = ground arith

-- The bucket after a call: refilled, and without the cost if the level covers it.
abbrev pub charged : ℕ → ℕ → BucketState → BucketState
charged cost now b =
    let r = State.refill now b in
    record r { current_level = r.current_level - (if covers cost now b then cost else 0) }

module _ (u b : String) (rc sc now : ℕ) (m : BucketManager) where
  spent-lookup :
      (j : String)
      → lookup j (spent u b rc sc now m).1.buckets ≡ (
          if bucket_key u b "resource" == j
          then some (charged sc now (bucket_of u b "resource" now m))
          else if bucket_key u b "risk" == j
          then some (charged rc now (bucket_of u b "risk" now m))
          else lookup j m.buckets)
  spent-lookup j =
      rw
        (
          lookup-insert (bucket_key u b "resource") j _ _,
          lookup-insert (bucket_key u b "risk") j _ _,
          get_or_create-lookup u b "resource" now (get_or_create u b "risk" now m).1 j,
          get_or_create-lookup u b "risk" now m j,
          consume-charge rc now (bucket_of u b "risk" now m),
          consume-charge sc now (bucket_of u b "resource" now m),
        )
        (ground arith)

  -- `CheckAndConsume` answers for each of the two buckets whether its level, after the refill that
  -- is due, covers the cost; a bucket that is not there counts as new and full. Afterwards each of
  -- the two buckets is refilled and charged by its own answer alone, every other bucket is as it
  -- was, and so are the configurations.
  pub check_and_consume_lem :
      (j : String)
      → let (answers, m') = check_and_consume u b rc sc now m in
        let risk = bucket_of u b "risk" now m in
        let resource = bucket_of u b "resource" now m in
        (answers ≡ (covers rc now risk, covers sc now resource))
        × (lookup j m'.buckets ≡ (
            if bucket_key u b "resource" == j
            then some (charged sc now resource)
            else if bucket_key u b "risk" == j
            then some (charged rc now risk)
            else lookup j m.buckets))
        × (m'.config ≡ m.config)
        × (m'.user_configs ≡ m.user_configs)
  check_and_consume_lem j = rw (check_and_consume-spent u b rc sc now m) (
    rw (
      consume-covers rc now (bucket_of u b "risk" now m),
      consume-covers sc now (bucket_of u b "resource" now m),
    ),
    spent-lookup j,
    get_or_create-config u b "resource" now (get_or_create u b "risk" now m).1
        ∙ get_or_create-config u b "risk" now m,
    get_or_create-user_configs u b "resource" now (get_or_create u b "risk" now m).1
        ∙ get_or_create-user_configs u b "risk" now m,
  )
