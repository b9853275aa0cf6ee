-- ===== src/Executor.antt =====
-- The execution of an approved request: web/approval_executor.go, over the pools of Poolmgr. The
-- JSON library, the reactions of a process and what others do to the pool meanwhile come from outside.
pub mod Replies
mod Tests
use Prim.Native.String.{◌++◌ as append}
use palaestra_mcp_bridge.Common.{
  ℕ, String, Bool, true, false, ◌||◌, Option, none, some, List, [], ◌∷◌, ◌++◌, ◌==◌, ltb, leb,
  length, if◌then◌else◌,
}
use palaestra_mcp_bridge.Muxer.Routing.{trim_prefix}
use palaestra_mcp_bridge.Poolmgr.Pool.{Process, Pool, touch_last_used}

-- What the code reads of a response; a code below zero is none.
pub data RpcAnswer : Type 0 where
  unparsed : RpcAnswer
  failed : Option ℕ → RpcAnswer
  succeeded : RpcAnswer

-- The JSON functions: the name in the params and the body with another; the id of a message as it is
-- printed, none if the body is no message, and the body with another; the compact form.
pub record Json : Type 0 where
  pub params_name : String → Option String
  pub with_name : String → String → String
  pub request_id : String → Option String
  pub with_id : String → String → String
  pub compact : String → Option String
  pub answer : String → RpcAnswer

-- What comes through the channel of RegisterRequest, which that function closes after 30 seconds: so
-- the branch of the code after 60 seconds, which kills the process, is not reached.
pub data Reaction : Type 0 where
  responds : String → Reaction
  hangs_up : Reaction

-- What is returned, with the text that was written to the process.
pub record Execution : Type 0 where
  pub status : ℕ
  pub body : String
  pub error : Bool
  pub sent : Option String

-- `stripToolPrefix`
unfoldable pub strip_tool_prefix : String → String → String
strip_tool_prefix name prefix =
    if prefix == ""
    then name
    else trim_prefix (trim_prefix name (append prefix "_")) (append prefix "/")

-- `stripPrefixFromRequestBody`
unfoldable pub strip_prefix_from_request_body : Json → String → String → String
strip_prefix_from_request_body j body prefix = elim (j.params_name body) [
  | none ↦ body
  | some name ↦
      let stripped = strip_tool_prefix name prefix in
      if stripped == name then body else j.with_name stripped body
]

-- The status for an error of the backend: its code, if it can be one.
unfoldable pub http_status : Option ℕ → ℕ
http_status none = 400
http_status (some code) = if ltb code 100 || leb 600 code then 400 else code

-- The body with an id, and the line that is written.
unfoldable pub identified : Json → String → String → String → String
identified j fresh id body = if id == "" || id == "<nil>" then j.with_id fresh body else body

unfoldable pub line_of : Json → String → String
line_of j body = elim (j.compact body) [ none ↦ append body "\n" | some text ↦ append text "\n" ]

abbrev pub sent_back : Process → Pool → Pool
sent_back proc p = record p { warm = p.warm ++ (proc ∷ []) }

-- `pool.Warm <- proc`: it waits while the channel is full, and each round shows what the others do
-- then; none if there is never room.
unfoldable pub put_back : List (Pool → Pool) → Process → Pool → Option Pool
put_back [] proc p = if ltb (length p.warm) p.warm_capacity then some (sent_back proc p) else none
put_back (others ∷ rounds) proc p =
    let later = put_back rounds proc (others p) in
    if ltb (length p.warm) p.warm_capacity then some (sent_back proc p) else later

-- What comes of a response.
unfoldable pub read_answer : String → String → RpcAnswer → Execution
read_answer line response unparsed = record {
  status = 200;
  body = response;
  error = false;
  sent = some line;
}
read_answer line response (failed code) = record {
  status = http_status code;
  body = response;
  error = true;
  sent = some line;
}
read_answer line response succeeded = record {
  status = 200;
  body = response;
  error = false;
  sent = some line;
}

abbrev pub timed_out : String → Execution
timed_out line = record { status = 504; body = ""; error = true; sent = some line }

unfoldable pub react : Json → String → Reaction → Execution
react j line hangs_up = timed_out line
react j line (responds response) =
    if response == "" then timed_out line else read_answer line response (j.answer response)

abbrev pub refused : ℕ → Execution
refused status = record { status = status; body = ""; error = true; sent = none }

-- The answer of `executeWithProcess`
unfoldable pub answer_of : Json → String → Reaction → String → Execution
answer_of j fresh reaction body = elim (j.request_id body) [
  | none ↦ refused 400
  | some id ↦ react j (line_of j (identified j fresh id body)) reaction
]

-- What others do to the pool: between the wait for a process and its receive, while the request runs,
-- and while the process cannot be sent back.
pub record Others : Type 0 where
  pub between : Pool → Pool
  pub meanwhile : Pool → Pool
  pub rounds : List (Pool → Pool)

abbrev pub returned : Execution → Option Pool → Option (Execution × Option Pool)
returned r none = none
returned r (some p) = some (r, some p)

-- `executeWithProcess`; none if it never returns, since the process cannot be sent back.
unfoldable pub execute_with_process :
    Json → String → Reaction → Others → Process → String → Pool → Option (Execution × Option Pool)
execute_with_process j fresh reaction o proc body p =
    returned (answer_of j fresh reaction body) (put_back o.rounds proc (o.meanwhile p))

-- `WaitForWarm`: each round sees the pool as the others have left it.
unfoldable pub wait_for_warm : List (Pool → Pool) → Pool → Bool × Pool
wait_for_warm [] p = (false, p)
wait_for_warm (others ∷ rounds) p =
    let q = others p in
    let rest = wait_for_warm rounds q in elim q.warm [ [] ↦ rest | x ∷ xs ↦ (true, q) ]

-- The process is taken from the channel, unless another has been faster.
unfoldable pub take_and_execute :
    Json → String → Reaction → Others → String → Pool → Option (Execution × Option Pool)
take_and_execute j fresh reaction o body p = elim p.warm [
  | [] ↦ some (refused 503, some p)
  | proc ∷ rest ↦ execute_with_process j fresh reaction o proc body (record p { warm = rest })
]

-- `ExecuteRequest`, with the pool that is found, if there is one, and the prefix of the backend
unfoldable pub execute_request :
    Json
    → ℕ
    → String
    → List (Pool → Pool)
    → Others
    → Reaction
    → String
    → String
    → String
    → Option Pool
    → Option (Execution × Option Pool)
execute_request j now fresh waits o reaction backend prefix body none = some (refused 0, none)
execute_request j now fresh waits o reaction backend prefix body (some p) =
    let (ready, q) = wait_for_warm waits (touch_last_used now p) in
    let text = if prefix == "" then body else strip_prefix_from_request_body j body prefix in
    let result = take_and_execute j fresh reaction o text (o.between q) in
    if backend == ""
    then some (refused 0, some p)
    else if ready
    then result
    else some (refused 503, some q)
