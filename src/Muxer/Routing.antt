-- ===== src/Muxer/Routing.antt =====
-- Which backend a tool belongs to, and the names with and without prefix: muxer/muxer.go. The
-- backends of the database come first, those of the configuration if there are none.
use Prim.Native.String.{◌++◌ as append, len, slice}
use text.Mathlib.Text.{starts_with}
use palaestra_mcp_bridge.Common.{
  ℕ, String, Bool, ◌||◌, Option, none, some, List, [], ◌∷◌, ◌==◌, if◌then◌else◌, eqb,
}
use palaestra_mcp_bridge.Common.Dict.{Dict, lookup, insert}
use palaestra_mcp_bridge.Common.Tables.{find_where}

-- A backend of the database, with its JSON columns read; none is a column that is no object.
pub record Backend : Type 0 where
  pub id : String
  pub command : String
  pub pool_size : ℕ
  pub min_pool_size : ℕ
  pub max_pool_size : ℕ
  pub tool_prefix : String
  pub env : Option (Dict String)
  pub env_mappings : Option (Dict String)
  pub stdio_framing : String

-- A backend of the configuration.
pub record BackendConfig : Type 0 where
  pub command : String
  pub pool_size : ℕ
  pub tool_prefix : String
  pub env : Dict String
  pub stdio_framing : String

pub record ToolMuxer : Type 0 where
  pub backend_prefixes : Dict String
  -- what the store lists; none if there is no store
  pub store : Option (List Backend)
  pub config : Dict BackendConfig

unfoldable pub prefixes_of_backends : List Backend → Dict String → Dict String
prefixes_of_backends [] m = m
prefixes_of_backends (b ∷ bs) m =
    prefixes_of_backends bs (if b.tool_prefix == "" then m else insert b.tool_prefix b.id m)

unfoldable pub prefixes_of_config : Dict BackendConfig → Dict String → Dict String
prefixes_of_config [] m = m
prefixes_of_config (c ∷ cs) m =
    prefixes_of_config cs (if c.1.tool_prefix == "" then m else insert c.1.tool_prefix c.0 m)

unfoldable pub load_prefixes : Option (List Backend) → Dict BackendConfig → Dict String
load_prefixes none config = prefixes_of_config config []
load_prefixes (some []) config = prefixes_of_config config []
load_prefixes (some (b ∷ bs)) config = prefixes_of_backends (b ∷ bs) []

-- `NewToolMuxerWithStore`
unfoldable pub new_tool_muxer : Option (List Backend) → Dict BackendConfig → ToolMuxer
new_tool_muxer store config = record {
  backend_prefixes = load_prefixes store config;
  store = store;
  config = config;
}

-- `RefreshPrefixes`
unfoldable pub refresh_prefixes : ToolMuxer → ToolMuxer
refresh_prefixes m = record m { backend_prefixes = load_prefixes m.store m.config }

abbrev ids_of : List Backend → List String
ids_of [] = []
ids_of (b ∷ bs) = b.id ∷ ids_of bs

abbrev keys_of : Dict BackendConfig → List String
keys_of [] = []
keys_of (c ∷ cs) = c.0 ∷ keys_of cs

-- `listBackendIDs`
unfoldable pub list_backend_ids : ToolMuxer → List String
list_backend_ids m = elim m.store [
  | none ↦ keys_of m.config
  | some bs ↦ elim bs [ [] ↦ keys_of m.config | b ∷ rest ↦ b.id ∷ ids_of rest ]
]

-- Whether a name belongs to a prefix.
abbrev pub has_prefix : String → String → Bool
has_prefix prefix name =
    starts_with name (append prefix "_") || starts_with name (append prefix "/")

-- The loop over the prefixes, in the order in which the map is walked.
unfoldable pub find_prefix : String → Dict String → Option (String × String)
find_prefix name [] = none
find_prefix name ((prefix, id) ∷ rest) =
    let further = find_prefix name rest in
    if has_prefix prefix name then some (id, prefix) else further

-- The fallback for a single backend.
unfoldable pub only_backend : List String → Option (String × String)
only_backend [] = none
only_backend (id ∷ []) = some (id, "")
only_backend (id ∷ other ∷ rest) = none

abbrev pub or_else : Option (String × String) → Option (String × String) → Option (String × String)
or_else none other = other
or_else (some x) other = some x

-- `FindBackendForTool`: the backend and the prefix.
unfoldable pub find_backend_for_tool : String → ToolMuxer → Option (String × String)
find_backend_for_tool name m =
    or_else (find_prefix name m.backend_prefixes) (only_backend (list_backend_ids m))

-- strings.TrimPrefix
unfoldable pub trim_prefix : String → String → String
trim_prefix s p = if starts_with s p then slice s (len p) (len s) else s

-- The name that `stripPrefixFromName` puts in place of the name.
unfoldable pub strip_prefix_from_name : String → String → String
strip_prefix_from_name prefix name =
    trim_prefix (trim_prefix name (append prefix "_")) (append prefix "/")

-- `AddPrefix` of a router, on the name.
unfoldable pub add_prefix : String → String → String
add_prefix prefix name = if prefix == "" then name else append prefix (append "_" name)

-- `GetPrefixForBackend`
unfoldable pub get_prefix_for_backend : String → Dict String → String
get_prefix_for_backend id [] = ""
get_prefix_for_backend id ((prefix, b) ∷ rest) =
    let further = get_prefix_for_backend id rest in if b == id then prefix else further

pub record ResolvedConfig : Type 0 where
  pub command : String
  pub pool_size : ℕ
  pub min_pool_size : ℕ
  pub max_pool_size : ℕ
  pub env : Dict String
  pub env_mappings : Dict String
  pub stdio_framing : String

abbrev or_empty : Option (Dict String) → Dict String
or_empty none = []
or_empty (some m) = m

abbrev or_newline : String → String
or_newline framing = if framing == "" then "newline" else framing

unfoldable pub of_backend : Backend → ResolvedConfig
of_backend b =
    let least = if eqb b.min_pool_size 0 then 1 else b.min_pool_size in
    record {
      command = b.command;
      pool_size = b.pool_size;
      min_pool_size = least;
      max_pool_size = if eqb b.max_pool_size 0 then least else b.max_pool_size;
      env = or_empty b.env;
      env_mappings = or_empty b.env_mappings;
      stdio_framing = or_newline b.stdio_framing;
    }

unfoldable pub of_config : BackendConfig → ResolvedConfig
of_config c = record {
  command = c.command;
  pool_size = c.pool_size;
  min_pool_size = c.pool_size;
  max_pool_size = c.pool_size;
  env = c.env;
  env_mappings = [];
  stdio_framing = or_newline c.stdio_framing;
}

abbrev stored_backend : String → Option (List Backend) → Option Backend
stored_backend id none = none
stored_backend id (some bs) = find_where (λ b. b.id == id) bs

-- `getBackendConfig`
unfoldable pub get_backend_config : String → ToolMuxer → Option ResolvedConfig
get_backend_config id m = elim (stored_backend id m.store) [
  | some b ↦ some (of_backend b)
  | none ↦ elim (lookup id m.config) [ none ↦ none | some c ↦ some (of_config c) ]
]
