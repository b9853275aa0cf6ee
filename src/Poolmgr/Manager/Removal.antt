-- ===== src/Poolmgr/Manager/Removal.antt =====
-- What is left of the table: poolmgr/manager.go RemovePoolsByBackend and collectIdlePools.
use Prim.Native.String.{◌++◌ as append}
use text.Mathlib.Text.{starts_with}
use text.Mathlib.TextPositions.{starts_with-append}
use text.Mathlib.TextLemmas.{append_assoc}
use palaestra_mcp_bridge.Common.{
  ℕ, ◌-◌, ◌≡◌, refl, sym, ap, ◌∙◌, subst, String, Bool, true, false, Option, none, some, [], ◌∷◌,
  ◌==◌, inl, inr, if◌then◌else◌, Bool-cases, eq_refl, eq_iff, arith, ◌&&◌, ltb, not, ◌||◌,
}
use palaestra_mcp_bridge.Common.Dict.{Dict, lookup, Distinct}
use palaestra_mcp_bridge.Poolmgr.Pool.{Pool, is_dedicated}
use palaestra_mcp_bridge.Poolmgr.Manager.{
  PoolManager, pool_key, keep_entries, shut_others, of_other_backend, remove_pools_by_backend,
  in_use, collect_idle_pools,
}

-- What is read at a key that the test keeps or not.
abbrev pub kept_value : Bool → Pool → Option Pool
kept_value true p = some p
kept_value false p = none

abbrev pub kept_option : (String → Pool → Bool) → String → Option Pool → Option Pool
kept_option test key none = none
kept_option test key (some p) = kept_value (test key p) p

lookup-keep_absent :
    (test : String → Pool → Bool) (key : String) (m : Dict Pool)
    → lookup key m ≡ none
    → lookup key (keep_entries test m) ≡ none
unfolding lookup keep_entries
lookup-keep_absent test key [] h = refl
lookup-keep_absent test key ((k, p) ∷ m) h = ground (arith, lookup-keep_absent test key m)

pub lookup-keep_entries :
    (test : String → Pool → Bool) (key : String) (m : Dict Pool)
    → Distinct m
    → lookup key (keep_entries test m) ≡ kept_option test key (lookup key m)
unfolding lookup keep_entries
lookup-keep_entries test key [] d = refl
lookup-keep_entries test key ((k, p) ∷ m) (d, ds) = elim (Bool-cases (k == key)) [
  | inl e ↦
      let same = (eq_iff k key).0 e in
      elim (Bool-cases (test k p)) [
        | inl f ↦ rw (f, e) (sym (ap (λ b. kept_value b p) (subst (λ j. test j p ≡ true) same f)))
        | inr f ↦
            rw (f, e)
              (lookup-keep_absent test key m (subst (λ j. lookup j m ≡ none) same d)
                ∙ sym (ap (λ b. kept_value b p) (subst (λ j. test j p ≡ false) same f)))
      ]
  | inr e ↦ elim (Bool-cases (test k p)) [
    | inl f ↦ rw (f, e) (lookup-keep_entries test key m ds)
    | inr f ↦ rw (f, e) (lookup-keep_entries test key m ds)
  ]
]

of_pool_key :
    (backend user : String) → starts_with (pool_key backend user) (append backend ":") ≡ true
unfolding pool_key
of_pool_key backend user =
    subst (λ s. starts_with s (append backend ":") ≡ true) (append_assoc backend ":" user)
      (starts_with-append (append backend ":") user)

-- In a table where no key stands twice: after the removal of a backend, no user has a pool of it, and
-- there is none under its bare id; under the keys that neither are this id nor begin with it and a
-- colon, the pools are as before.
pub remove_pools_by_backend_lem :
    (backend : String) (m : PoolManager)
    → Distinct m.pools
    → let m' = (remove_pools_by_backend backend m).1 in
      ((user : String) → lookup (pool_key backend user) m'.pools ≡ none)
      × (lookup backend m'.pools ≡ none)
      × ((key : String)
          → (key == backend) ≡ false
          → starts_with key (append backend ":") ≡ false
          → lookup key m'.pools ≡ lookup key m.pools)
unfolding remove_pools_by_backend shut_others
remove_pools_by_backend_lem backend m d = (
  λ user.
      lookup-keep_entries (of_other_backend backend) (pool_key backend user) m.pools d
      ∙ dropped (pool_key backend user) (lookup (pool_key backend user) m.pools)
          (gone_by_prefix (pool_key backend user) (of_pool_key backend user)),
  lookup-keep_entries (of_other_backend backend) backend m.pools d
      ∙ dropped backend (lookup backend m.pools) (gone_by_name (eq_refl backend)),
  λ key ne nf.
      lookup-keep_entries (of_other_backend backend) key m.pools d
      ∙ held key (lookup key m.pools) ne nf,
)
  where
    gone_by_prefix :
        (key : String)
        → starts_with key (append backend ":") ≡ true
        → (key == backend || starts_with key (append backend ":")) ≡ true
    gone_by_prefix key h = ground (arith, h)

    gone_by_name :
        (backend == backend) ≡ true
        → (backend == backend || starts_with backend (append backend ":")) ≡ true
    gone_by_name h = ground (arith, h)

    dropped :
        (key : String) (o : Option Pool)
        → (key == backend || starts_with key (append backend ":")) ≡ true
        → kept_option (of_other_backend backend) key o ≡ none
    dropped key none h = refl
    dropped key (some p) h = ap (λ b. kept_value (not b) p) h

    held :
        (key : String) (o : Option Pool)
        → (key == backend) ≡ false
        → starts_with key (append backend ":") ≡ false
        → kept_option (of_other_backend backend) key o ≡ o
    held key none h k = refl
    held key (some p) h k = rw (h, k) refl

-- The collection of idle pools removes a pool exactly if it is dedicated and was not used for longer
-- than the timeout.
pub collect_idle_pools_lem :
    (now : ℕ) (m : PoolManager) (key : String) (p : Pool)
    → Distinct m.pools
    → lookup key m.pools ≡ some p
    → lookup key (collect_idle_pools now m).pools
      ≡ (if is_dedicated p && ltb m.idle_timeout (now - p.last_used) then none else some p)
unfolding collect_idle_pools shut_others
collect_idle_pools_lem now m key p d e =
    lookup-keep_entries (in_use m.idle_timeout now) key m.pools d
    ∙ ap (kept_option (in_use m.idle_timeout now) key) e
    ∙ tests (is_dedicated p) (ltb m.idle_timeout (now - p.last_used))
  where
    tests : (a b : Bool) → kept_value (not a || not b) p ≡ (if a && b then none else some p)
    tests true true = refl
    tests true false = refl
    tests false b = refl
