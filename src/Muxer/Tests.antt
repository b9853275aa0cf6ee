-- ===== src/Muxer/Tests.antt =====
-- Routing, environments, templates and schemas on concrete values.
use palaestra_mcp_bridge.Common.{◌≡◌, refl, ap, String, true, none, some, [], ◌∷◌, inl, inr, Occurs}
use palaestra_mcp_bridge.Auth.Tables.{UserRow}
use palaestra_mcp_bridge.Muxer.Routing.{
  ToolMuxer, ResolvedConfig, has_prefix, find_backend_for_tool, strip_prefix_from_name, add_prefix,
}
use palaestra_mcp_bridge.Muxer.Prefixes.{
  strip_prefix_from_name-add_prefix, find_backend_for_tool_unique,
}
use palaestra_mcp_bridge.Muxer.Templates.{
  TextLibrary, resolve_value, resolved, failed, unknown_source, unknown_function, allowed_field,
  apply_functions, closed_match, count_pairs, match_template, prepend, replace_templates,
  resolve_field, resolve_match, source_of, split_bars, template_function, two_braces, until_brace,
}
use palaestra_mcp_bridge.Muxer.Augment.{AugmentSpec}

abbrev library : TextLibrary
library = record {
  to_lower = λ s. s;
  to_upper = λ s. s;
  query_escape = λ s. s;
  trim_space = λ s. s;
  replace_all = λ s a b. s;
  short_sum = λ s. "00";
}

abbrev ann : UserRow
ann = record { id = "u1"; email = "ann@x"; password = ""; role = "user" }

field_resolves : resolve_value library ann "db_{{users.id|lower}}_x" ≡ resolved "db_u1_x"
unfolding resolve_value count_pairs replace_templates match_template two_braces prepend closed_match
    until_brace resolve_match split_bars resolve_field source_of allowed_field apply_functions
    template_function
field_resolves = refl

source_refused : resolve_value library ann "{{env.PATH}}" ≡ failed (unknown_source "env")
unfolding resolve_value count_pairs replace_templates match_template two_braces closed_match
    until_brace resolve_match split_bars resolve_field source_of
source_refused = refl

function_refused :
    resolve_value library ann "{{users.id|rot13}}" ≡ failed (unknown_function "rot13")
unfolding resolve_value count_pairs replace_templates match_template two_braces closed_match
    until_brace resolve_match split_bars resolve_field source_of allowed_field apply_functions
    template_function
function_refused = refl

-- A pair of braces with nothing between them is no match, and is left as it is.
empty_braces_left : resolve_value library ann "{{}}" ≡ resolved "{{}}"
unfolding resolve_value count_pairs replace_templates match_template two_braces closed_match
    until_brace prepend
empty_braces_left = refl

abbrev muxer : ToolMuxer
muxer = record {
  backend_prefixes = ("wiki", "b2") ∷ ("jira", "b1") ∷ [];
  store = none;
  config = [];
}

strip_prefix_from_name_example :
    strip_prefix_from_name "jira" (add_prefix "jira" "list_issues") ≡ "list_issues"
strip_prefix_from_name_example = strip_prefix_from_name-add_prefix "jira" "list_issues" refl refl

find_backend_for_tool_unique_example : find_backend_for_tool "jira_list" muxer ≡ some ("b1", "jira")
find_backend_for_tool_unique_example =
    find_backend_for_tool_unique "jira_list" "b1" "jira" muxer (inr (inl refl)) refl only
  where
    only :
        (p b : String)
        → Occurs {A = String × String} (p, b) muxer.backend_prefixes
        → has_prefix p "jira_list" ≡ true
        → (b ≡ "b1") × (p ≡ "jira")
    only p b (inl e) h = absurd (cc (h, ap (λ x. has_prefix x.0 "jira_list") e))
    only p b (inr (inl e)) h = (ap (λ x. x.1) e, ap (λ x. x.0) e)
    only p b (inr (inr e)) h = absurd e

abbrev settings : ResolvedConfig
settings = record {
  command = "cat";
  pool_size = 1;
  min_pool_size = 1;
  max_pool_size = 1;
  env = ("URL", "http://x") ∷ [];
  env_mappings = [];
  stdio_framing = "newline";
}

abbrev justification : AugmentSpec
justification = record {
  name = "justification";
  type = "string";
  description = "why";
  min_length = 10;
  required = true;
  exempt_backends = "sys" ∷ [];
}
