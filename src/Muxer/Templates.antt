-- ===== src/Muxer/Templates.antt =====
-- The templates in the values of environments: muxer/template.go. Texts are walked character by
-- character; the functions of Go's libraries are a parameter.
use Prim.Native.Char.{Char, code}
use Prim.Native.String.{◌++◌ as append, len}
use palaestra_mcp_bridge.Common.{
  ◌⊎◌, inl, inr, ℕ, zero, suc, String, Bool, false, ◌&&◌, ◌||◌, not, Option, none, some, List, [],
  ◌∷◌, ◌==◌, if◌then◌else◌, eqb,
}
use palaestra_mcp_bridge.Common.Dict.{Dict}
use palaestra_mcp_bridge.Enforcer.Heuristics.{contains}
use palaestra_mcp_bridge.Auth.Tables.{UserRow}

-- strings.ToLower, strings.ToUpper, url.QueryEscape, strings.TrimSpace, strings.ReplaceAll, and the
-- first eight bytes of a SHA-256 sum in hexadecimal.
pub record TextLibrary : Type 0 where
  pub to_lower : String → String
  pub to_upper : String → String
  pub query_escape : String → String
  pub trim_space : String → String
  pub replace_all : String → String → String → String
  pub short_sum : String → String

-- `funcSanitised`
unfoldable pub sanitised : TextLibrary → String → String
sanitised lib s = lib.replace_all (lib.replace_all (lib.to_lower s) "@" "_at_") "." "_"

-- `funcHashed`
unfoldable pub hashed : TextLibrary → String → String
hashed lib s = append "u" (lib.short_sum (lib.to_lower s))

-- `templateFuncs`
unfoldable pub template_function : TextLibrary → String → String → Option String
template_function lib name s =
    if name == "sanitised"
    then some (sanitised lib s)
    else if name == "hashed"
    then some (hashed lib s)
    else if name == "lower"
    then some (lib.to_lower s)
    else if name == "upper"
    then some (lib.to_upper s)
    else if name == "urlencoded"
    then some (lib.query_escape s)
    else none

-- `allowedFields`
unfoldable pub allowed_field : String → UserRow → Option String
allowed_field key u =
    if key == "users.email"
    then some u.email
    else if key == "users.username"
    then some u.email
    else if key == "users.id"
    then some u.id
    else if key == "users.role"
    then some u.role
    else none

abbrev pub is_char : ℕ → Char → Bool
is_char n c = eqb (code c) n

-- strings.Split at the bar, 124.
unfoldable pub split_bars : String → List String
split_bars String.[] = "" ∷ []
split_bars (String.◌∷◌ c s) =
    let rest = split_bars s in
    if is_char 124 c
    then "" ∷ rest
    else elim rest [ [] ↦ [] | part ∷ parts ↦ String.◌∷◌ c part ∷ parts ]

-- The text before the first dot, 46; none if there is no dot.
unfoldable pub source_of : String → Option String
source_of String.[] = none
source_of (String.◌∷◌ c s) =
    let rest = source_of s in
    if is_char 46 c then some "" else elim rest [ none ↦ none | some t ↦ some (String.◌∷◌ c t) ]

pub data TemplateError : Type 0 where
  mismatched : TemplateError
  missing_source : TemplateError
  unknown_source : String → TemplateError
  unknown_field : String → TemplateError
  empty_value : String → TemplateError
  unknown_function : String → TemplateError

pub data Resolved : Type 0 where
  resolved : String → Resolved
  failed : TemplateError → Resolved

unfoldable pub apply_functions : TextLibrary → List String → String → Resolved
apply_functions lib [] s = resolved s
apply_functions lib (f ∷ fs) s = elim (template_function lib (lib.trim_space f) s) [
  | none ↦ failed (unknown_function (lib.trim_space f))
  | some t ↦ apply_functions lib fs t
]

unfoldable pub resolve_field : TextLibrary → UserRow → String → List String → Resolved
resolve_field lib u key fs = elim (source_of key) [
  | none ↦ failed missing_source
  | some source ↦
      if not (source == "users")
      then failed (unknown_source source)
      else elim (allowed_field key u) [
        | none ↦ failed (unknown_field key)
        | some v ↦ if v == "" then failed (empty_value key) else apply_functions lib fs v
      ]
]

-- The replacement of one match, by the text between its braces.
unfoldable pub resolve_match : TextLibrary → UserRow → String → Resolved
resolve_match lib u inner = elim (split_bars (lib.trim_space inner)) [
  | [] ↦ failed missing_source
  | key ∷ fs ↦ resolve_field lib u (lib.trim_space key) fs
]

-- The longest beginning without a closing brace, 125, and what follows.
unfoldable pub until_brace : String → String × String
until_brace String.[] = ("", "")
until_brace (String.◌∷◌ c s) =
    let rest = until_brace s in
    if is_char 125 c then ("", String.◌∷◌ c s) else (String.◌∷◌ c rest.0, rest.1)

unfoldable pub two_braces : ℕ → String → Option String
two_braces n String.[] = none
two_braces n (String.◌∷◌ c String.[]) = none
two_braces n (String.◌∷◌ c (String.◌∷◌ d s)) = if is_char n c && is_char n d then some s else none

unfoldable pub closed_match : String × String → Option (String × String)
closed_match (inner, rest) =
    if inner == ""
    then none
    else elim (two_braces 125 rest) [ none ↦ none | some after ↦ some (inner, after) ]

-- A match of templatePattern at the beginning: the text between the braces and what follows.
unfoldable pub match_template : String → Option (String × String)
match_template s = elim (two_braces 123 s) [
  | none ↦ none
  | some body ↦ closed_match (until_brace body)
]

unfoldable pub prepend : (String → String) → Resolved → Resolved
prepend f (resolved s) = resolved (f s)
prepend f (failed e) = failed e

-- ReplaceAllStringFunc, which keeps the first error. The fuel is the length, since each round
-- consumes a character.
unfoldable pub replace_templates : TextLibrary → UserRow → ℕ → String → Resolved
replace_templates lib u zero s = resolved s
replace_templates lib u (suc fuel) String.[] = resolved ""
replace_templates lib u (suc fuel) (String.◌∷◌ c s) = elim (match_template (String.◌∷◌ c s)) [
  | none ↦ prepend (λ t. String.◌∷◌ c t) (replace_templates lib u fuel s)
  | some (inner, rest) ↦ elim (resolve_match lib u inner) [
    | failed e ↦ failed e
    | resolved v ↦ prepend (append v) (replace_templates lib u fuel rest)
  ]
]

-- strings.Count of two equal characters, which do not overlap; `half` tells that the first of a pair
-- went before.
unfoldable pub count_pairs : ℕ → Bool → String → ℕ
count_pairs n half String.[] = 0
count_pairs n half (String.◌∷◌ c s) =
    let rest = count_pairs n (is_char n c && not half) s in
    if is_char n c && half then suc rest else rest

-- `resolveValue`
unfoldable pub resolve_value : TextLibrary → UserRow → String → Resolved
resolve_value lib u s =
    if not (contains s "{{")
    then resolved s
    else if not (eqb (count_pairs 123 false s) (count_pairs 125 false s))
    then failed mismatched
    else replace_templates lib u (len s) s

abbrev with_value : String → Resolved → Dict String ⊎ TemplateError → Dict String ⊎ TemplateError
with_value key (failed e) rest = inr e
with_value key (resolved v) (inr e) = inr e
with_value key (resolved v) (inl m) = inl ((key, v) ∷ m)

-- `ResolveEnvTemplates`
unfoldable pub resolve_env_templates :
    TextLibrary → UserRow → Dict String → Dict String ⊎ TemplateError
resolve_env_templates lib u [] = inl []
resolve_env_templates lib u (e ∷ es) =
    with_value e.0 (resolve_value lib u e.1) (resolve_env_templates lib u es)

-- `envMapHasTemplates`
unfoldable pub env_map_has_templates : Dict String → Bool
env_map_has_templates [] = false
env_map_has_templates (e ∷ es) = contains e.1 "{{" || env_map_has_templates es
