-- ===== src/Ratelimit/Manager/Config.antt =====
-- The configured limits of the backends: `SetDefaultConfig`, `GetDefaultConfig`, `GetAllConfigs`.
use Prim.Native.Char.{Char, code}
use Prim.Native.String.{◌++◌ as append}
use text.Mathlib.TextLemmas.{nil-append, cons-append, append_cancel_right}
use palaestra_mcp_bridge.Common.{
  ℕ, ◌≡◌, ◌≢◌, sym, ap, ◌∙◌, String, false, Option, none, some, List, [], ◌∷◌, arith, ◌==◌, eq_iff,
  if◌then◌else◌, eqb,
}
use palaestra_mcp_bridge.Common.Dict.{Dict, lookup, insert, lookup-insert}
use palaestra_mcp_bridge.Ratelimit.Manager.{
  BucketManager, BucketConfig, set_config, get_config, config_key, values,
}

-- `SetDefaultConfig`
unfoldable pub set_default_config : String → ℕ → ℕ → ℕ → ℕ → BucketManager → BucketManager
set_default_config backend risk_capacity risk_refill resource_capacity resource_refill m =
    set_config backend "resource" resource_capacity resource_refill
      (set_config backend "risk" risk_capacity risk_refill m)

-- The four numbers that `GetDefaultConfig` returns.
pub record DefaultConfig : Type 0 where
  pub risk_capacity : ℕ
  pub risk_refill : ℕ
  pub resource_capacity : ℕ
  pub resource_refill : ℕ

abbrev capacity_of : Option BucketConfig → ℕ
capacity_of none = 0
capacity_of (some c) = c.capacity

abbrev refill_of : Option BucketConfig → ℕ
refill_of none = 0
refill_of (some c) = c.refill_rate

-- `GetDefaultConfig`: zeros where nothing was set.
unfoldable pub get_default_config : String → BucketManager → DefaultConfig
get_default_config backend m =
    let risk = get_config backend "risk" m in
    let resource = get_config backend "resource" m in
    record {
      risk_capacity = capacity_of risk;
      risk_refill = refill_of risk;
      resource_capacity = capacity_of resource;
      resource_refill = refill_of resource;
    }

-- `splitConfigKey`: at the first colon.
unfoldable pub split_config_key : String → Option (String × String)
split_config_key String.[] = none
split_config_key (String.◌∷◌ c s) =
    let rest = split_config_key s in
    if eqb (code c) 58
    then some (String.[], s)
    else elim rest [ none ↦ none | some (b, t) ↦ some (String.◌∷◌ c b, t) ]

pub record BackendConfig : Type 0 where
  pub backend_id : String
  pub risk_capacity : ℕ
  pub risk_refill : ℕ
  pub res_capacity : ℕ
  pub res_refill : ℕ

abbrev existing_or_new : String → Option BackendConfig → BackendConfig
existing_or_new backend none = record {
  backend_id = backend;
  risk_capacity = 0;
  risk_refill = 0;
  res_capacity = 0;
  res_refill = 0;
}
existing_or_new backend (some e) = e

-- The body of the loop of `GetAllConfigs`, for one entry whose key was split.
unfoldable pub add_config : String → String → BucketConfig → Dict BackendConfig → Dict BackendConfig
add_config backend type cfg configs =
    let existing = existing_or_new backend (lookup backend configs) in
    insert backend
      (if type == "risk"
        then record existing { risk_capacity = cfg.capacity; risk_refill = cfg.refill_rate }
        else if type == "resource"
        then record existing { res_capacity = cfg.capacity; res_refill = cfg.refill_rate }
        else existing)
      configs

unfoldable pub collect_configs : Dict BucketConfig → Dict BackendConfig → Dict BackendConfig
unfolding split_config_key add_config
collect_configs [] configs = configs
collect_configs ((key, cfg) ∷ rest) configs = collect_configs rest (elim (split_config_key key) [
  | none ↦ configs
  | some (backend, type) ↦ add_config backend type cfg configs
])

-- `GetAllConfigs`
unfoldable pub get_all_configs : BucketManager → List BackendConfig
unfolding collect_configs
get_all_configs m = values (collect_configs m.config [])

last_code : ℕ → String → ℕ
last_code d String.[] = d
last_code d (String.◌∷◌ c s) = last_code (code c) s

last_code-append : (d : ℕ) (s t : String) → last_code d (append s t) ≡ last_code (last_code d s) t
unfolding last_code
last_code-append d String.[] t = rw (nil-append t)
last_code-append d (String.◌∷◌ c s) t = rw (cons-append c s t) (last_code-append (code c) s t)

type_of_key : (a b : String) → config_key a "risk" ≢ config_key b "resource"
unfolding config_key last_code
type_of_key a b h =
    let e =
      sym (last_code-append 0 a ":risk") ∙ ap (last_code 0) h ∙ last_code-append 0 b ":resource" in
    absurd (omega (arith, e))

config_key_inj : (a b t : String) → config_key a t ≡ config_key b t → a ≡ b
unfolding config_key
config_key_inj a b t h = append_cancel_right a b (append ":" t) h

key_test : (a b t : String) → (config_key a t == config_key b t) ≡ (a == b)
key_test a b t = ground (
  arith,
  eq_iff (config_key a t) (config_key b t),
  eq_iff a b,
  config_key_inj a b t,
  ap (λ x. config_key x t) {x = a} {y = b},
)

other_test : (a b : String) → (config_key a "resource" == config_key b "risk") ≡ false
other_test a b =
    ground (arith, eq_iff (config_key a "resource") (config_key b "risk"), type_of_key b a)

other_test' : (a b : String) → (config_key a "risk" == config_key b "resource") ≡ false
other_test' a b =
    ground (arith, eq_iff (config_key a "risk") (config_key b "resource"), type_of_key a b)

-- `GetDefaultConfig` returns for a backend the four numbers that `SetDefaultConfig` set for it
-- last, and what it returns for any other backend is not changed by that.
pub get_default_config-set_default_config :
    (a b : String) (rc rr sc sr : ℕ) (m : BucketManager)
    → get_default_config b (set_default_config a rc rr sc sr m) ≡ (
        if a == b
        then record {
          risk_capacity = rc;
          risk_refill = rr;
          resource_capacity = sc;
          resource_refill = sr;
        }
        else get_default_config b m)
unfolding get_default_config set_default_config set_config get_config
get_default_config-set_default_config a b rc rr sc sr m =
    simp (lookup-insert, key_test, other_test, other_test') (ground arith)

-- No character of the text is a colon.
abbrev pub NoColon : String → Type 0
NoColon String.[] = Unit
NoColon (String.◌∷◌ c s) = (eqb (code c) 58 ≡ false) × NoColon s

abbrev colon : Char
colon = ":"

split_joined : (b t : String) → NoColon b → split_config_key (append b (append ":" t)) ≡ some (b, t)
unfolding split_config_key
split_joined String.[] t h =
    rw (nil-append (append ":" t)) (rw (cons-append colon String.[] t, nil-append t))
split_joined (String.◌∷◌ c b) t h =
    rw (cons-append c b (append ":" t), split_config_key, h.0, split_joined b t h.1)

-- A key of the configuration splits into the backend and the type that it was joined from, for a
-- backend whose name has no colon.
pub split_config_key-config_key :
    (b t : String) → NoColon b → split_config_key (config_key b t) ≡ some (b, t)
unfolding config_key
split_config_key-config_key b t h = split_joined b t h
