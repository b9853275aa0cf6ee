-- ===== src/Poolmgr/Pool/Spawning.antt =====
-- Failing spawns: the delays between the attempts, and the end of the attempts.
use palaestra_mcp_bridge.Common.{
  ℕ, zero, suc, ◌+◌, ◌≤◌, ◌<◌, ◌≡◌, refl, sym, ap, subst, String, Bool, true, false, List, [], ◌∷◌,
  ltb, leb, if◌then◌else◌, arith, All, length, Bool-cases, inl, inr, ◌&&◌,
}
use palaestra_mcp_bridge.Poolmgr.Pool.{
  Pool, Outcome, spawn_error, simple_ready, handshake_done, exited, timed_out, Next, stop,
  retry_after, first_delay, longest_delay, doubled_delay, exhausted, after_spawn_error,
  after_timeout, attempt, spawn_and_handshake, is_unavailable,
}

-- The delay lies between a tenth of a second and five seconds.
abbrev pub IsPaced : ℕ → Type 0
IsPaced d = (first_delay ≤ d) × (d ≤ longest_delay)

abbrev pub NextIsPaced : Next → Type 0
NextIsPaced stop = Unit
NextIsPaced (retry_after d) = IsPaced d

doubled_delay-IsPaced : (d : ℕ) → IsPaced d → IsPaced (doubled_delay d)
unfolding doubled_delay
doubled_delay-IsPaced d h = ground arith

after_spawn_error-IsPaced :
    (p : Pool)
    → IsPaced p.backoff_delay
    → IsPaced (after_spawn_error p).0.backoff_delay × NextIsPaced (after_spawn_error p).1
unfolding after_spawn_error
after_spawn_error-IsPaced p h =
    go (ltb 0 p.max_spawn_attempts && leb p.max_spawn_attempts (suc p.spawn_attempts)) refl
  where
    go :
        (b : Bool)
        → (ltb 0 p.max_spawn_attempts && leb p.max_spawn_attempts (suc p.spawn_attempts)) ≡ b
        → IsPaced (after_spawn_error p).0.backoff_delay × NextIsPaced (after_spawn_error p).1
    go true e = rw (e, after_spawn_error) (doubled_delay-IsPaced p.backoff_delay h, tt)
    go false e = rw (e, after_spawn_error) (doubled_delay-IsPaced p.backoff_delay h, h)

after_timeout-IsPaced :
    (reason : String) (p : Pool)
    → IsPaced p.backoff_delay
    → IsPaced (after_timeout reason p).0.backoff_delay × NextIsPaced (after_timeout reason p).1
unfolding after_timeout
after_timeout-IsPaced reason p h =
    go (ltb 0 p.max_spawn_attempts && leb p.max_spawn_attempts (suc p.spawn_attempts)) refl
  where
    go :
        (b : Bool)
        → (ltb 0 p.max_spawn_attempts && leb p.max_spawn_attempts (suc p.spawn_attempts)) ≡ b
        → IsPaced (after_timeout reason p).0.backoff_delay × NextIsPaced (after_timeout reason p).1
    go true e = rw (e, after_timeout) (h, tt)
    go false e = rw (e, after_timeout) (doubled_delay-IsPaced p.backoff_delay h, h)

-- However a spawn ends, a delay between a tenth of a second and five seconds stays there, and the
-- time to the next attempt lies there as well.
pub spawn_and_handshake-IsPaced :
    (o : Outcome) (p : Pool)
    → IsPaced p.backoff_delay
    → let (q, next) = spawn_and_handshake o p in IsPaced q.backoff_delay × NextIsPaced next
unfolding spawn_and_handshake attempt
spawn_and_handshake-IsPaced o p h = elim (Bool-cases p.closed) [
  | inl e ↦ rw e (h, tt)
  | inr e ↦ simp e (go o)
]
  where
    go : (o : Outcome) → IsPaced (attempt o p).0.backoff_delay × NextIsPaced (attempt o p).1
    go spawn_error = after_spawn_error-IsPaced p h
    go (simple_ready x) = (omega arith, tt)
    go (handshake_done x) = (omega arith, tt)
    go (exited reason) = (omega arith, tt)
    go (timed_out reason) = after_timeout-IsPaced reason p h

abbrev continued : Next → Pool × Next → Pool × Next → Pool × Next
continued stop r rest = r
continued (retry_after _) r rest = rest

-- The attempts that follow each other while the last one asks for another.
unfoldable pub spawn_run : List Outcome → Pool → Pool × Next
spawn_run [] p = (p, retry_after p.backoff_delay)
spawn_run (o ∷ os) p =
    let r = spawn_and_handshake o p in let rest = spawn_run os r.0 in continued r.1 r rest

abbrev pub IsFailure : Outcome → Type 0
IsFailure spawn_error = Unit
IsFailure (timed_out reason) = Unit
IsFailure _ = ⊥

-- One failure: what it leaves, and whether it is the last.
failed_once :
    (o : Outcome) (p : Pool)
    → IsFailure o
    → p.closed ≡ false
    → let (q, next) = spawn_and_handshake o p in
      (q.spawn_attempts ≡ suc p.spawn_attempts)
      × (q.max_spawn_attempts ≡ p.max_spawn_attempts)
      × (q.closed ≡ false)
      × (next ≡ (if exhausted q then stop else retry_after p.backoff_delay))
unfolding spawn_and_handshake attempt after_spawn_error after_timeout
failed_once spawn_error p f c = ground (arith, c)
failed_once (timed_out reason) p f c = ground (arith, c)
failed_once (simple_ready x) p f c = absurd f
failed_once (handshake_done x) p f c = absurd f
failed_once (exited x) p f c = absurd f

run_stop :
    (o : Outcome) (os : List Outcome) (p : Pool)
    → (spawn_and_handshake o p).1 ≡ stop
    → spawn_run (o ∷ os) p ≡ spawn_and_handshake o p
unfolding spawn_run
run_stop o os p e = let r = spawn_and_handshake o p in ap (λ n. continued n r (spawn_run os r.0)) e

run_retry :
    (o : Outcome) (os : List Outcome) (p : Pool) (d : ℕ)
    → (spawn_and_handshake o p).1 ≡ retry_after d
    → spawn_run (o ∷ os) p ≡ spawn_run os (spawn_and_handshake o p).0
unfolding spawn_run
run_retry o os p d e =
    let r = spawn_and_handshake o p in ap (λ n. continued n r (spawn_run os r.0)) e

exhausted_at :
    (p : Pool)
    → 0 < p.max_spawn_attempts
    → p.spawn_attempts ≡ p.max_spawn_attempts
    → (exhausted p ≡ true) × (is_unavailable p ≡ true)
unfolding is_unavailable
exhausted_at p l e = ground arith

exhausted_before : (p : Pool) → p.spawn_attempts < p.max_spawn_attempts → exhausted p ≡ false
exhausted_before p l = ground arith

-- What a run of failures has come to.
abbrev IsOver : ℕ → Pool × Next → Type 0
IsOver most r = (is_unavailable r.0 ≡ true) × (r.0.spawn_attempts ≡ most) × (r.1 ≡ stop)

-- An open pool with room for one more than `left` failures, on which every attempt fails to spawn or
-- times out in its handshake, makes one more than `left` of the attempts, and is unavailable then.
-- Processes that exit during the handshake are not among these failures.
pub spawn_run_exhausts :
    (os : List Outcome) (p : Pool) (left : ℕ)
    → p.closed ≡ false
    → p.spawn_attempts + suc left ≡ p.max_spawn_attempts
    → All IsFailure os
    → left < length os
    → let (q, next) = spawn_run os p in
      (is_unavailable q ≡ true) × (q.spawn_attempts ≡ p.max_spawn_attempts) × (next ≡ stop)
spawn_run_exhausts [] p left c a f l = absurd (omega arith)
spawn_run_exhausts (o ∷ os) p zero c a f l =
    let (n, m, c2, x) = failed_once o p f.0 c in
    let (over, gone) =
      exhausted_at (spawn_and_handshake o p).0 (omega (arith, a, m)) (omega (arith, a, n, m)) in
    subst (IsOver p.max_spawn_attempts) (sym (run_stop o os p (rw over at x)))
      (gone, omega (arith, a, n), rw over at x)
spawn_run_exhausts (o ∷ os) p (suc left) c a f l =
    let (n, m, c2, x) = failed_once o p f.0 c in
    let q = (spawn_and_handshake o p).0 in
    let before = exhausted_before q (omega (arith, a, n, m)) in
    let ih = spawn_run_exhausts os q left c2 (omega (arith, a, n, m)) f.1 (omega arith) in
    subst (IsOver p.max_spawn_attempts) (sym (run_retry o os p p.backoff_delay (rw before at x)))
      (subst (λ k. IsOver k (spawn_run os q)) m ih)
