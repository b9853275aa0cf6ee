-- ===== src/Poolmgr/Manager/Table.antt =====
-- The pool of a user: poolmgr/manager.go GetOrCreateUserPoolWithSecrets.
use palaestra_mcp_bridge.Common.{
  ℕ, ◌≡◌, refl, sym, ◌∙◌, subst, String, true, false, Option, none, some, ◌==◌, ◌⊎◌, inl, inr,
  Bool-cases, Occurs, eq_refl, and-true,
}
use palaestra_mcp_bridge.Common.Dict.{
  lookup, insert, remove, lookup-insert, lookup-remove, lookup-insert_self,
}
use palaestra_mcp_bridge.Poolmgr.Env.{hash_env}
use palaestra_mcp_bridge.Poolmgr.Pool.{
  Pool, new_pool_with_env, new_pool_with_secrets, env_matches, shutdown, touch_last_used,
  set_dedicated,
}
use palaestra_mcp_bridge.Poolmgr.Manager.{
  PoolManager, PoolSpec, key_of, fits_spec, stopped, touched, find_user_pool, new_user_pool,
  found_pool, created_pool, or_create, create_user_pool, get_or_create_user_pool,
}

new_user_pool_matches : (a : PoolSpec) (now : ℕ) → env_matches a.env (new_user_pool a now) ≡ true
unfolding env_matches new_user_pool set_dedicated new_pool_with_env new_pool_with_secrets
new_user_pool_matches a now = elim (Bool-cases a.with_secrets) [
  | inl e ↦ simp e (eq_refl (hash_env a.env))
  | inr e ↦ simp e (eq_refl (hash_env a.env))
]

-- What the caller gets: a pool whose environment has the same hash, which the table has at its key, while the other
-- keys are as before.
abbrev pub IsServed : PoolSpec → PoolManager → Pool × PoolManager → Type 0
IsServed a m r =
    (env_matches a.env r.0 ≡ true)
    × (lookup (key_of a) r.1.pools ≡ some r.0)
    × ((other : String)
        → (key_of a == other) ≡ false
        → lookup other r.1.pools ≡ lookup other m.pools)

touched-IsServed :
    (a : PoolSpec) (now : ℕ) (p : Pool) (m : PoolManager)
    → fits_spec a p ≡ true
    → IsServed a m (touched (key_of a) now p m)
unfolding touched fits_spec touch_last_used env_matches
touched-IsServed a now p m h = (
  (and-true _ _ h).0,
  lookup-insert_self (key_of a) (touch_last_used now p) m.pools,
  λ other ne. rw (lookup-insert, ne) refl,
)

inserted-IsServed :
    (a : PoolSpec) (now : ℕ) (m m' : PoolManager)
    → ((other : String)
        → (key_of a == other) ≡ false
        → lookup other m'.pools ≡ lookup other m.pools)
    → IsServed a m (
      new_user_pool a now,
      record m' { pools = insert (key_of a) (new_user_pool a now) m'.pools },
    )
inserted-IsServed a now m m' same = (
  new_user_pool_matches a now,
  lookup-insert_self (key_of a) (new_user_pool a now) m'.pools,
  λ other ne. rw (lookup-insert, ne) (same other ne),
)

stopped_same :
    (a : PoolSpec) (p : Pool) (m : PoolManager) (other : String)
    → (key_of a == other) ≡ false
    → lookup other (stopped (key_of a) p m).pools ≡ lookup other m.pools
unfolding stopped
stopped_same a p m other ne = rw (lookup-remove, ne) refl

created_pool-IsServed :
    (a : PoolSpec) (now : ℕ) (o : Option Pool) (m : PoolManager)
    → IsServed a m (created_pool a now o m)
unfolding created_pool
created_pool-IsServed a now none m = inserted-IsServed a now m m (λ other ne. refl)
created_pool-IsServed a now (some p) m = elim (Bool-cases (fits_spec a p)) [
  | inl f ↦ simp f (touched-IsServed a now p m f)
  | inr f ↦ elim (Bool-cases (env_matches a.env p)) [
    | inl g ↦ simp (f, g) (inserted-IsServed a now m (stopped (key_of a) p m) (stopped_same a p m))
    | inr g ↦ simp (f, g) (inserted-IsServed a now m m (λ other ne. refl))
  ]
]

-- What holds of the pool that was found, or is created after the first part.
found_pool-IsServed :
    (a : PoolSpec) (now : ℕ) (o : Option Pool) (m : PoolManager)
    → IsServed a m (or_create a now (found_pool a now o m))
unfolding found_pool or_create create_user_pool
found_pool-IsServed a now none m = created_pool-IsServed a now (lookup (key_of a) m.pools) m
found_pool-IsServed a now (some p) m = elim (Bool-cases (fits_spec a p)) [
  | inl f ↦ simp f (touched-IsServed a now p m f)
  | inr f ↦
      let m' = stopped (key_of a) p m in
      let (x, y, same) = created_pool-IsServed a now (lookup (key_of a) m'.pools) m' in
      simp f (x, y, λ other ne. same other ne ∙ stopped_same a p m other ne)
]

-- A user always gets a pool whose environment has the hash of the one that was asked for, which does
-- not tell all environments apart; it is the one in the table at the key of the backend and the user,
-- and no other key changes.
pub get_or_create_user_pool_lem :
    (a : PoolSpec) (now : ℕ) (m : PoolManager)
    → let (p, m') = get_or_create_user_pool a now m in
      (env_matches a.env p ≡ true)
      × (lookup (key_of a) m'.pools ≡ some p)
      × ((other : String)
          → (key_of a == other) ≡ false
          → lookup other m'.pools ≡ lookup other m.pools)
unfolding get_or_create_user_pool find_user_pool
get_or_create_user_pool_lem a now m = found_pool-IsServed a now (lookup (key_of a) m.pools) m

abbrev IsKept : Pool → ℕ → Pool × PoolManager → Type 0
IsKept p now r = (r.0 ≡ touch_last_used now p) ⊎ Occurs (shutdown p) r.1.shut_down

found_pool-IsKept :
    (a : PoolSpec) (now : ℕ) (p : Pool) (m : PoolManager)
    → IsKept p now (or_create a now (found_pool a now (some p) m))
unfolding found_pool or_create create_user_pool touched stopped created_pool
found_pool-IsKept a now p m = elim (Bool-cases (fits_spec a p)) [
  | inl f ↦ simp f (inl refl)
  | inr f ↦
      let gone : lookup (key_of a) (remove (key_of a) m.pools) ≡ none =
        rw (lookup-remove, eq_refl (key_of a)) refl in
      simp (f, gone) (inr (inl refl))
]

-- The pool that the user had is used on, or was shut down.
pub get_or_create_user_pool_keeps :
    (a : PoolSpec) (now : ℕ) (m : PoolManager) (p : Pool)
    → lookup (key_of a) m.pools ≡ some p
    → let (q, m') = get_or_create_user_pool a now m in
      (q ≡ touch_last_used now p) ⊎ Occurs (shutdown p) m'.shut_down
unfolding get_or_create_user_pool find_user_pool
get_or_create_user_pool_keeps a now m p e =
    subst (λ o. IsKept p now (or_create a now (found_pool a now o m))) (sym e)
      (found_pool-IsKept a now p m)

replaced :
    (a : PoolSpec) (now : ℕ) (m : PoolManager) (p : Pool)
    → env_matches a.env p ≡ false
    → let (q, m') = created_pool a now (some p) m in
      (lookup (key_of a) m'.pools ≡ some q)
      × (q ≡ new_user_pool a now)
      × (m'.shut_down ≡ m.shut_down)
unfolding created_pool fits_spec
replaced a now m p g =
    simp g (lookup-insert_self (key_of a) (new_user_pool a now) m.pools, refl, refl)

-- A pool with another environment, which another call has put into the table between the two parts,
-- is replaced without being shut down.
pub create_user_pool_replaces :
    (a : PoolSpec) (now : ℕ) (m : PoolManager) (p : Pool)
    → lookup (key_of a) m.pools ≡ some p
    → env_matches a.env p ≡ false
    → let (q, m') = create_user_pool a now m in
      (lookup (key_of a) m'.pools ≡ some q)
      × (q ≡ new_user_pool a now)
      × (m'.shut_down ≡ m.shut_down)
unfolding create_user_pool
create_user_pool_replaces a now m p e g =
    subst
      (λ o.
        let (q, m') = created_pool a now o m in
        (lookup (key_of a) m'.pools ≡ some q)
        × (q ≡ new_user_pool a now)
        × (m'.shut_down ≡ m.shut_down))
      (sym e) (replaced a now m p g)
