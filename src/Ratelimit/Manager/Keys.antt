-- ===== src/Ratelimit/Manager/Keys.antt =====
-- The keys of the maps: identifiers joined by colons.
use palaestra_mcp_bridge.Common.{String, ◌≡◌, ◌≢◌, eq_iff, arith}
use Prim.Native.String.{◌++◌ as append}
use text.Mathlib.TextLemmas.{append_cancel_left}

-- `bucketKey`
unfoldable pub bucket_key : String → String → String → String
bucket_key user backend type = append user (append ":" (append backend (append ":" type)))

-- The key of `config`, and of `userConfigs`.
unfoldable pub config_key : String → String → String
config_key backend type = append backend (append ":" type)

-- One user and backend have different keys for different types.
pub bucket_key-type :
    (user backend t u : String) → bucket_key user backend t ≡ bucket_key user backend u → t ≡ u
unfolding bucket_key
bucket_key-type user backend t u h = append_cancel_left ":" t u (
    append_cancel_left backend (append ":" t) (append ":" u) (
      append_cancel_left ":" (append backend (append ":" t)) (append backend (append ":" u)) (
        append_cancel_left user (append ":" (append backend (append ":" t)))
          (append ":" (append backend (append ":" u))) h)))

pub bucket_key-ne :
    (user backend : String) → bucket_key user backend "risk" ≢ bucket_key user backend "resource"
bucket_key-ne user backend h =
    let e = bucket_key-type user backend "risk" "resource" h in
    ground (arith, eq_iff "risk" "resource")
