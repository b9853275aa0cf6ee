-- ===== src/Poolmgr/Process.antt =====
-- Which commands may be started, and how: poolmgr/process.go isSimpleCommand, isAllowedCommand and
-- the choice of the program in spawnProcessRaw.
use Prim.Native.String.{slice}
use text.Mathlib.Text.{starts_with, find?}
use palaestra_mcp_bridge.Common.{
  String, Bool, ◌&&◌, ◌||◌, not, Option, none, some, List, [], ◌∷◌, ◌==◌, if◌then◌else◌, ltb,
}
use palaestra_mcp_bridge.Enforcer.Heuristics.{contains, any_of}

-- `isSimpleCommand`
unfoldable pub is_simple_command : String → Bool
is_simple_command c =
    c == "cat"
    || (c == "npx"
        || (c == "yes"
            || (c == "false"
                || (c == "sh -c 'echo invalid'" || starts_with c "github-mcp-server"))))

abbrev pub dangerous : List String
dangerous =
    "rm -" ∷ "rmdir" ∷ "del " ∷ "format" ∷ "mkfs" ∷ "dd if=" ∷ ">/dev/" ∷ "&& rm" ∷ "|| rm" ∷ "; rm"
    ∷ "| rm" ∷ "`" ∷ "$(" ∷ "\\x" ∷ []

abbrev pub simple : List String
simple = "cat" ∷ "npx" ∷ "yes" ∷ "false" ∷ "echo" ∷ "sleep" ∷ "env" ∷ []

abbrev pub allowed_prefixes : List String
allowed_prefixes =
    "npx " ∷ "npm " ∷ "node " ∷ "github-mcp-server" ∷ "github-mcp-server " ∷ "uvx " ∷ "bunx "
    ∷ "sleep " ∷ "echo " ∷ "env " ∷ "go run " ∷ []

abbrev pub shell_characters : List String
shell_characters = ";" ∷ "|" ∷ "&" ∷ "`" ∷ "$" ∷ "(" ∷ ")" ∷ "<" ∷ ">" ∷ []

-- The text before the first blank, unless that begins the command.
abbrev command_part : String → String
command_part c = elim (find? c " ") [ none ↦ c | some i ↦ if ltb 0 i then slice c 0 i else c ]

-- `isAllowedCommand`
unfoldable pub is_allowed_command : String → Bool
is_allowed_command c =
    not (any_of (contains c) dangerous)
    && (any_of (λ s. c == s) simple
        || (any_of (starts_with c) allowed_prefixes
            || ((starts_with c "/" && not (any_of (contains (command_part c)) shell_characters))
                || (starts_with c "sh -c '" || starts_with c "sh -c \""))))

pub data Launch : Type 0 where
  builtin : Launch
  -- the words of the command, without a shell
  direct : Launch
  -- sh -c with the whole command
  shell : Launch

-- What `spawnProcessRaw` starts; none is its error.
unfoldable pub launch : String → Option Launch
launch c =
    if c == "mcp-bridge-builtin"
    then some builtin
    else if not (is_allowed_command c)
    then none
    else if (is_simple_command c || starts_with c "npx ")
        && (not (contains c ";") && (not (contains c "&&") && not (contains c "||")))
    then some direct
    else if starts_with c "/"
    then some direct
    else some shell
