-- ===== src/Poolmgr/Pool/Waiting.antt =====
-- What a wait hands out: poolmgr/pool.go WaitForWarmWithMax.
use palaestra_mcp_bridge.Common.{
  ◌≡◌, subst, Bool, true, some, List, [], ◌∷◌, arith, Bool-cases, Option-cases, inl, inr,
}
use palaestra_mcp_bridge.Poolmgr.Pool.{
  Process, Pool, take_from, try_acquire_warm, wait_rounds, wait_for_warm_with_max, acquired,
  is_unavailable,
}

take_from_alive :
    (alive : Process → Bool) (w : List Process) (p : Pool) (x : Process)
    → (take_from alive w p).0 ≡ some x
    → alive x ≡ true
unfolding take_from
take_from_alive alive [] p x e = absurd (cc e)
take_from_alive alive (y ∷ w) p x e = ground (arith, e)

wait_rounds_alive :
    (alive : Process → Bool) (rounds : List (Pool → Pool)) (p : Pool) (x : Process)
    → (wait_rounds alive rounds p).0 ≡ acquired x
    → alive x ≡ true
unfolding wait_rounds try_acquire_warm
wait_rounds_alive alive [] p x e = elim (Bool-cases (is_unavailable p)) [
  | inl k ↦ absurd (cc (rw k at e))
  | inr k ↦ absurd (cc (rw k at e))
]
wait_rounds_alive alive (others ∷ rounds) p x e =
    let q = others p in
    elim (Bool-cases (is_unavailable q)) [
      | inl k ↦ absurd (cc (rw k at e))
      | inr k ↦ elim (Option-cases (take_from alive q.warm q).0) [
        | inl m ↦ wait_rounds_alive alive rounds (take_from alive q.warm q).1 x (rw (k, m) at e)
        | inr (y, m) ↦
            subst (λ z. alive z ≡ true) (cc (rw (k, m) at e)) (take_from_alive alive q.warm q y m)
      ]
    ]

-- However the others change the pool meanwhile, a wait hands out a process that is alive.
pub wait_for_warm_with_max_alive :
    (alive : Process → Bool) (rounds : List (Pool → Pool)) (p : Pool) (x : Process)
    → (wait_for_warm_with_max alive rounds p).0 ≡ acquired x
    → alive x ≡ true
unfolding wait_for_warm_with_max try_acquire_warm
wait_for_warm_with_max_alive alive rounds p x e = elim (Bool-cases (is_unavailable p)) [
  | inl k ↦ absurd (cc (rw k at e))
  | inr k ↦ elim (Option-cases (take_from alive p.warm p).0) [
    | inl m ↦ wait_rounds_alive alive rounds (take_from alive p.warm p).1 x (rw (k, m) at e)
    | inr (y, m) ↦
        subst (λ z. alive z ≡ true) (cc (rw (k, m) at e)) (take_from_alive alive p.warm p y m)
  ]
]
