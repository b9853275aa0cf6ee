-- ===== src/Ratelimit/Manager/Steps.antt =====
-- `GetOrCreate` and `Consume` on the map of buckets, and the two of them in a row.
use palaestra_mcp_bridge.Common.{
  ℕ, ◌≡◌, sym, String, Bool, true, false, some, ◌==◌, eq_iff, eq_refl, if◌then◌else◌, arith,
  Option-cases, Bool-cases, inl, inr,
}
use palaestra_mcp_bridge.Common.Dict.{lookup, insert, lookup-insert}
use palaestra_mcp_bridge.Ratelimit.State
use palaestra_mcp_bridge.Ratelimit.State.{BucketState}
use palaestra_mcp_bridge.Ratelimit.Manager.{
  BucketManager, bucket_key, bucket_key-ne, get_or_create, fresh_bucket, get_config, consume_at,
  check_and_consume,
}

pub get_or_create-lookup :
    (u b t : String) (now : ℕ) (m : BucketManager) (j : String)
    → lookup j (get_or_create u b t now m).1.buckets
      ≡ (if bucket_key u b t == j then some (get_or_create u b t now m).0 else lookup j m.buckets)
unfolding get_or_create
get_or_create-lookup u b t now m j = elim (Option-cases (lookup (bucket_key u b t) m.buckets)) [
  | inl e ↦ rw (e, get_or_create) (lookup-insert (bucket_key u b t) j _ m.buckets)
  | inr (x, e) ↦ rw (e, get_or_create) (ground (arith, eq_iff (bucket_key u b t) j))
]

pub get_or_create-config :
    (u b t : String) (now : ℕ) (m : BucketManager) → (get_or_create u b t now m).1.config ≡ m.config
unfolding get_or_create
get_or_create-config u b t now m = ground arith

pub get_or_create-user_configs :
    (u b t : String) (now : ℕ) (m : BucketManager)
    → (get_or_create u b t now m).1.user_configs ≡ m.user_configs
unfolding get_or_create
get_or_create-user_configs u b t now m = ground arith

-- Only what is at its key and the configuration decide which bucket is handed out.
pub get_or_create-cong :
    (u b t : String) (now : ℕ) (m n : BucketManager)
    → lookup (bucket_key u b t) n.buckets ≡ lookup (bucket_key u b t) m.buckets
    → n.config ≡ m.config
    → (get_or_create u b t now n).0 ≡ (get_or_create u b t now m).0
unfolding get_or_create fresh_bucket get_config
get_or_create-cong u b t now m n e c = ground arith

pub consume_at-hit :
    (k : String) (cost now : ℕ) (m : BucketManager) {x : BucketState}
    → lookup k m.buckets ≡ some x
    → consume_at k cost now m ≡ (
      (State.consume cost now x).1,
      record m { buckets = insert k (State.consume cost now x).0 m.buckets },
    )
unfolding consume_at
consume_at-hit k cost now m e = rw (e, consume_at)

-- The bucket that a call meets: the one in the map, or a new one at its full capacity.
abbrev pub bucket_of : String → String → String → ℕ → BucketManager → BucketState
bucket_of u b t now m = (get_or_create u b t now m).0

-- The manager after a call, in one step.
abbrev pub spent : String → String → ℕ → ℕ → ℕ → BucketManager → (Bool × Bool) × BucketManager
spent u b rc sc now m =
    let m₂ = (get_or_create u b "resource" now (get_or_create u b "risk" now m).1).1 in
    let r = State.consume rc now (bucket_of u b "risk" now m) in
    let s = State.consume sc now (bucket_of u b "resource" now m) in
    (
      (r.1, s.1),
      record m₂ {
        buckets =
            insert (bucket_key u b "resource") s.0 (insert (bucket_key u b "risk") r.0 m₂.buckets);
      },
    )

key_test_self : (k : String) → (k == k) ≡ true
key_test_self k = eq_refl k

module _ (u b : String) where
  pub risk-ne : (bucket_key u b "risk" == bucket_key u b "resource") ≡ false
  risk-ne = elim (Bool-cases (bucket_key u b "risk" == bucket_key u b "resource")) [
    | inl e ↦ absurd (bucket_key-ne u b ((eq_iff _ _).0 e))
    | inr e ↦ e
  ]

  pub resource-ne : (bucket_key u b "resource" == bucket_key u b "risk") ≡ false
  resource-ne = elim (Bool-cases (bucket_key u b "resource" == bucket_key u b "risk")) [
    | inl e ↦ absurd (bucket_key-ne u b (sym ((eq_iff _ _).0 e)))
    | inr e ↦ e
  ]

module _ (u b : String) (now : ℕ) (m : BucketManager) where
  with_risk : BucketManager
  with_risk = (get_or_create u b "risk" now m).1

  with_both : BucketManager
  unfolding with_risk
  with_both = (get_or_create u b "resource" now with_risk).1

  with_both-risk :
      lookup (bucket_key u b "risk") with_both.buckets ≡ some (bucket_of u b "risk" now m)
  unfolding with_both
  with_both-risk = rw (
    get_or_create-lookup u b "resource" now (get_or_create u b "risk" now m).1,
    resource-ne u b,
    get_or_create-lookup u b "risk" now m,
    key_test_self (bucket_key u b "risk"),
  )

  resource_bucket :
      (get_or_create u b "resource" now (get_or_create u b "risk" now m).1).0
      ≡ bucket_of u b "resource" now m
  resource_bucket =
      get_or_create-cong u b "resource" now m (get_or_create u b "risk" now m).1
        (rw (get_or_create-lookup u b "risk" now m, risk-ne u b))
        (get_or_create-config u b "risk" now m)

  with_both-resource :
      lookup (bucket_key u b "resource") with_both.buckets ≡ some (bucket_of u b "resource" now m)
  unfolding with_both
  with_both-resource = rw (
    get_or_create-lookup u b "resource" now (get_or_create u b "risk" now m).1,
    key_test_self (bucket_key u b "resource"),
    resource_bucket,
  )

pub check_and_consume-spent :
    (u b : String) (rc sc now : ℕ) (m : BucketManager)
    → check_and_consume u b rc sc now m ≡ spent u b rc sc now m
unfolding check_and_consume with_both
check_and_consume-spent u b rc sc now m = rw (
  consume_at-hit (bucket_key u b "risk") rc now (with_both u b now m) (with_both-risk u b now m),
  consume_at-hit (bucket_key u b "resource") sc now
      (record (with_both u b now m) {
        buckets =
            insert (bucket_key u b "risk") (State.consume rc now (bucket_of u b "risk" now m)).0
              (with_both u b now m).buckets;
      })
      {x = bucket_of u b "resource" now m}
      (rw (lookup-insert, risk-ne u b) (with_both-resource u b now m)),
)
