-- ===== src/Poolmgr/Pool/Sameness.antt =====
-- When a pool passes for one of an environment: poolmgr/pool.go EnvMatches.
use palaestra_mcp_bridge.Common.{◌≡◌, ap, ◌∙◌, String, ℕ, true, false, [], ◌∷◌, ◌==◌, eq_refl}
use Prim.Native.String.{◌++◌ as append}
use palaestra_mcp_bridge.Poolmgr.Env.{after, hash_env, hash_env_bar}
use palaestra_mcp_bridge.Poolmgr.Pool.{new_pool_with_env, env_matches}

-- A new pool whose environment is one entry with a bar in it passes for a pool of the two entries on
-- both sides of the bar, if these are in the order of the sort.
pub env_matches-bar :
    (backend command a b : String) (least most now : ℕ)
    → after a b ≡ false
    → env_matches
        (a ∷ b ∷ [])
        (new_pool_with_env backend least most command (append a (append "|" b) ∷ []) now)
      ≡ true
unfolding env_matches new_pool_with_env
env_matches-bar backend command a b least most now h =
    ap (λ hash. hash == hash_env (a ∷ b ∷ [])) (hash_env_bar a b h)
    ∙ eq_refl (hash_env (a ∷ b ∷ []))
