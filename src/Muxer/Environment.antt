-- ===== src/Muxer/Environment.antt =====
-- The environment of a backend's process for a user: muxer/muxer.go BuildEnvForUser. The system's
-- variables are those of PATH, HOME and USER that are set.
use palaestra_mcp_bridge.Common.{
  ◌≡◌, refl, ap, ◌∙◌, subst, String, Option, none, some, [], ◌∷◌, ◌==◌, ◌⊎◌, inl, inr,
  if◌then◌else◌, Bool-cases, eq_iff,
}
use palaestra_mcp_bridge.Common.Dict.{Dict, lookup, insert, lookup-insert, Distinct}
use palaestra_mcp_bridge.Auth.Tables.{UserRow}
use palaestra_mcp_bridge.Muxer.Routing.{ToolMuxer, ResolvedConfig, get_backend_config}
use palaestra_mcp_bridge.Muxer.Templates.{
  TextLibrary, TemplateError, resolve_env_templates, env_map_has_templates,
}

-- `for k, v := range m { env[k] = v }`
unfoldable pub insert_all : Dict String → Dict String → Dict String
insert_all [] env = env
insert_all (e ∷ es) env = insert_all es (insert e.0 e.1 env)

-- The key that a user's key is mapped to.
abbrev pub mapped_key : Dict String → String → String
mapped_key mappings key = elim (lookup key mappings) [ none ↦ key | some k ↦ k ]

unfoldable pub map_keys : Dict String → Dict String → Dict String → Dict String
map_keys mappings [] out = out
map_keys mappings (e ∷ es) out = map_keys mappings es (insert (mapped_key mappings e.0) e.1 out)

-- Step 2: nothing changes without mappings.
unfoldable pub apply_mappings : Dict String → Dict String → Dict String
apply_mappings [] env = env
apply_mappings (e ∷ es) env = map_keys (e ∷ es) env []

pub data EnvResult : Type 0 where
  built : Dict String → EnvResult
  no_user : EnvResult
  bad_template : TemplateError → EnvResult

-- The first three steps: the system's variables, the user's tokens, the mappings, and the
-- variables of the backend.
unfoldable pub merged_env : Dict String → Dict String → ResolvedConfig → Dict String
merged_env system tokens c =
    insert_all c.env (apply_mappings c.env_mappings (insert_all tokens system))

abbrev of_resolution : Dict String ⊎ TemplateError → EnvResult
of_resolution (inl env) = built env
of_resolution (inr e) = bad_template e

unfoldable pub resolve_for : TextLibrary → Option UserRow → Dict String → EnvResult
resolve_for lib none env = no_user
resolve_for lib (some u) env = of_resolution (resolve_env_templates lib u env)

-- Step 4, with the answer of GetUser.
unfoldable pub resolve_env : TextLibrary → Option UserRow → Dict String → EnvResult
resolve_env lib user env = if env_map_has_templates env then resolve_for lib user env else built env

abbrev or_nothing : Option (Dict String) → Dict String
or_nothing none = []
or_nothing (some t) = t

-- `BuildEnvForUser` over a store, with the user's tokens for the backend (none if they could not be
-- read); a backend without configuration gets the tokens alone.
unfoldable pub build_env_for_user :
    TextLibrary
    → ToolMuxer
    → Dict String
    → Option (Dict String)
    → Option UserRow
    → String
    → EnvResult
build_env_for_user lib m system tokens user backend =
    let own = or_nothing tokens in
    elim (get_backend_config backend m) [
      | none ↦ built (insert_all own system)
      | some c ↦ resolve_env lib user (merged_env system own c)
    ]

lookup-insert_all_absent :
    (key : String) (m env : Dict String)
    → lookup key m ≡ none
    → lookup key (insert_all m env) ≡ lookup key env
unfolding insert_all lookup
lookup-insert_all_absent key [] env h = refl
lookup-insert_all_absent key ((k, v) ∷ m) env h = elim (Bool-cases (k == key)) [
  | inl e ↦ absurd (cc (rw e at h))
  | inr e ↦
      lookup-insert_all_absent key m (insert k v env) (rw e at h)
      ∙ lookup-insert k key v env
      ∙ rw e refl
]

-- In a map no key stands twice, so that what is written last is what the map has.
lookup-insert_all :
    (key v : String) (m env : Dict String)
    → Distinct m
    → lookup key m ≡ some v
    → lookup key (insert_all m env) ≡ some v
unfolding insert_all lookup
lookup-insert_all key v [] env d h = absurd (cc h)
lookup-insert_all key v ((k, w) ∷ m) env (d, ds) h = elim (Bool-cases (k == key)) [
  | inl e ↦
      let same = (eq_iff k key).0 e in
      lookup-insert_all_absent key m (insert k w env) (subst (λ j. lookup j m ≡ none) same d)
      ∙ lookup-insert k key w env
      ∙ rw e (rw e at h)
  | inr e ↦ lookup-insert_all key v m (insert k w env) ds (rw e at h)
]

-- A variable of the backend goes before the user's tokens and the system's variables.
pub merged_env_backend :
    (system tokens : Dict String) (c : ResolvedConfig) (key v : String)
    → Distinct c.env
    → lookup key c.env ≡ some v
    → lookup key (merged_env system tokens c) ≡ some v
unfolding merged_env
merged_env_backend system tokens c key v d h =
    lookup-insert_all key v c.env (apply_mappings c.env_mappings (insert_all tokens system)) d h

-- Without mappings, a token of the user goes before the system's variables and stands unless the
-- backend sets the key itself, and a key of neither is the system's.
pub merged_env_user :
    (system tokens : Dict String) (c : ResolvedConfig) (key : String)
    → Distinct tokens
    → c.env_mappings ≡ []
    → lookup key c.env ≡ none
    → ((v : String) → lookup key tokens ≡ some v → lookup key (merged_env system tokens c) ≡ some v)
      × (lookup key tokens ≡ none → lookup key (merged_env system tokens c) ≡ lookup key system)
unfolding merged_env apply_mappings
merged_env_user system tokens c key d e h = (
  λ v k.
      lookup-insert_all_absent key c.env (apply_mappings c.env_mappings (insert_all tokens system))
        h
      ∙ unmapped
      ∙ lookup-insert_all key v tokens system d k,
  λ k.
      lookup-insert_all_absent key c.env (apply_mappings c.env_mappings (insert_all tokens system))
        h
      ∙ unmapped
      ∙ lookup-insert_all_absent key tokens system k,
)
  where
    unmapped :
        lookup key (apply_mappings c.env_mappings (insert_all tokens system))
        ≡ lookup key (insert_all tokens system)
    unmapped = ap (λ ms. lookup key (apply_mappings ms (insert_all tokens system))) e
