-- ===== src/Enforcer/Call/Rates.antt =====
-- The call rate of a window.
use palaestra_mcp_bridge.Common.{
  ℕ, suc, ◌≡◌, refl, String, true, false, ◌&&◌, List, [], ◌∷◌, ◌==◌, eq_iff, eq_refl, arith, eqb,
  Bool-cases, and-true, inl, inr,
}
use palaestra_mcp_bridge.Enforcer.Call.{
  RateBucket, same_window, count_at, increment_at, window_start_at, increment_rate_bucket,
  get_call_rate,
}

same_window_self :
    (user tool : String) (start n : ℕ)
    → same_window user tool start
        (record { user_id = user; tool_name = tool; window_start = start; count = n })
      ≡ true
unfolding same_window
same_window_self user tool start n = rw (eq_refl user, eq_refl tool) (ground arith)

distinct_windows :
    (user tool : String) (start : ℕ) (user' tool' : String) (start' : ℕ) (b : RateBucket)
    → (user == user' && (tool == tool' && eqb start start')) ≡ false
    → same_window user tool start b ≡ true
    → same_window user' tool' start' b ≡ false
unfolding same_window
distinct_windows user tool start user' tool' start' b h k =
    let (p, q) = and-true (b.user_id == user) (b.tool_name == tool && eqb b.window_start start) k in
    let (r, t) = and-true (b.tool_name == tool) (eqb b.window_start start) q in
    let w : b.window_start ≡ start = ground arith in
    rw ((eq_iff b.user_id user).0 p, (eq_iff b.tool_name tool).0 r, w) h

count_at-increment_at :
    (user tool : String) (start : ℕ) (bs : List RateBucket)
    → count_at user tool start (increment_at user tool start bs) ≡ suc (count_at user tool start bs)
unfolding count_at increment_at
count_at-increment_at user tool start [] = rw (same_window_self user tool start 1) refl
count_at-increment_at user tool start (b ∷ bs) = elim (Bool-cases (same_window user tool start b)) [
  | inl e ↦ simp e refl
  | inr e ↦ simp e (count_at-increment_at user tool start bs)
]

-- Where the keys differ, the other count stays.
increment_at_other :
    (user tool : String) (start : ℕ) (user' tool' : String) (start' : ℕ) (bs : List RateBucket)
    → (user == user' && (tool == tool' && eqb start start')) ≡ false
    → count_at user' tool' start' (increment_at user tool start bs) ≡ count_at user' tool' start' bs
unfolding count_at increment_at
increment_at_other user tool start user' tool' start' [] h =
    rw
      (distinct_windows user tool start user' tool' start'
        (record { user_id = user; tool_name = tool; window_start = start; count = 1 }) h
        (same_window_self user tool start 1))
      refl
increment_at_other user tool start user' tool' start' (b ∷ bs) h =
    elim (Bool-cases (same_window user tool start b)) [
      | inl e ↦
          let d = distinct_windows user tool start user' tool' start' b h e in simp (e, d) refl
      | inr e ↦ simp (e, increment_at_other user tool start user' tool' start' bs h) refl
    ]

-- An increment returns one more than the rate of the window before, which is what is read from
-- then on in the window; the rate of another user or tool is as before.
pub increment_rate_bucket_lem :
    (now later window : ℕ) (user tool user' tool' : String) (bs : List RateBucket)
    → window_start_at later window ≡ window_start_at now window
    → let (n, bs') = increment_rate_bucket now window user tool bs in
      (n ≡ suc (get_call_rate now window user tool bs))
      × (get_call_rate later window user tool bs' ≡ n)
      × ((user == user' && tool == tool') ≡ false
          → get_call_rate later window user' tool' bs' ≡ get_call_rate now window user' tool' bs)
unfolding increment_rate_bucket get_call_rate
increment_rate_bucket_lem now later window user tool user' tool' bs h = (
  count_at-increment_at user tool (window_start_at now window) bs,
  rw h refl,
  λ k. rw h (
      increment_at_other user tool (window_start_at now window) user' tool'
        (window_start_at now window) bs (ground (arith, k))),
)
