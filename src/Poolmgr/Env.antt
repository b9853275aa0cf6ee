-- ===== src/Poolmgr/Env.antt =====
-- The comparison of environments: poolmgr/pool.go hashEnv and EnvMatches.
use Prim.Native.Nat.{Ordering}
use Prim.Native.String.{◌++◌ as append, compare}
use text.Mathlib.TextLemmas.{append_assoc}
use palaestra_mcp_bridge.Common.{
  ◌∙◌, ap, ℕ, zero, suc, ◌≡◌, String, Bool, true, false, List, [], ◌∷◌, if◌then◌else◌, length,
}

-- Go's `a > b` on strings.
abbrev pub after : String → String → Bool
after a b = elim (compare a b) [ Ordering.gt ↦ true | _ ↦ false ]

-- The inner loop: the least element comes to the front, and an element that it passes takes its
-- place.
unfoldable pub exchange_pass : String → List String → String × List String
exchange_pass x [] = (x, [])
exchange_pass x (y ∷ ys) =
    let swapped = exchange_pass y ys in
    let kept = exchange_pass x ys in
    if after x y then (swapped.0, x ∷ swapped.1) else (kept.0, y ∷ kept.1)

-- The outer loop, for the elements that are left.
unfoldable pub exchange_sort : ℕ → List String → List String
exchange_sort zero xs = xs
exchange_sort (suc n) [] = []
exchange_sort (suc n) (x ∷ xs) = let round = exchange_pass x xs in round.0 ∷ exchange_sort n round.1

unfoldable pub join_bars : List String → String
join_bars [] = ""
join_bars (e ∷ es) = append e (append "|" (join_bars es))

-- `hashEnv`
unfoldable pub hash_env : List String → String
hash_env env = join_bars (exchange_sort (length env) env)

-- An entry with a bar in it is not told from two entries: such environments have the same hash, and
-- a pool with the one passes for a pool with the other.
pub hash_env_bar :
    (a b : String)
    → after a b ≡ false
    → hash_env (append a (append "|" b) ∷ []) ≡ hash_env (a ∷ b ∷ [])
unfolding hash_env exchange_sort exchange_pass join_bars
hash_env_bar a b h =
    rw h (append_assoc a (append "|" b) "|" ∙ ap (append a) (append_assoc "|" b "|"))
