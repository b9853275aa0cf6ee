-- ===== src/Lib.antt =====
-- A model of the Palaestra MCP bridge, a gateway that routes tool calls of agents to backend servers,
-- and of what makes it correct: who may call (OAuth, API keys, invitations), what a call may do (rate
-- limits, policies, safety profiles, approvals), where it goes (the multiplexer), and the pools of
-- processes that serve it.
--
-- Parts and files, with the Go code that they translate:
--
--   Common          helpers: tests on numbers, lists, maps as association lists, tables as lists of
--                   rows (Tables).
--   Ratelimit       ratelimit/ratelimit.go.
--     Cost            GetRiskMultiplier, IsRiskScoped, CalculateCost.
--     Clock           the arithmetic of refills.
--     Bucket          Bucket; Bucket/Fill on NextFullIn.
--     State           BucketState; State/Rate on the rate that it enforces.
--     Manager         BucketManager and the operations of RateLimitManager; below it the keys, single
--                     steps, CheckAndConsume, the limits, the users' configurations, the saved states.
--   Enforcer        the package enforcer, and its tables in store/enforcer_store.go.
--     Types           types.go: constants, records; Types/Actions the registered sets of actions.
--     Engine          cel_engine.go: AddPolicy, RemovePolicy, Evaluate, LookupDisposition; below it
--                     the order on decisions (Rank), the result of Evaluate (Restrictive), the
--                     dispositions, and the reload of stored policies (Reload: enforcer.go
--                     UpdatePolicy, DeletePolicy, loadPolicies).
--     Heuristics      heuristics.go, whole; Heuristics/Words on the search for words, Heuristics/Risk
--                     on the profiles.
--     Resolver        resolver.go: Resolve, ResolveForUser, RegisterOverride, RemoveOverride.
--     Approvals       the table of approval requests; Approvals/Requests: RequestApproval,
--                     CheckApproval, ApproveRequest, ExecuteApprovedRequest and the cleanup of
--                     enforcer.go; below it what each operation does, and the tables that any sequence
--                     of operations leads to (Lifecycle).
--     Personal        enforcer.go SetUserRateLimitOverride and GetEffectiveBucketConfig.
--     Call            enforcer.go HandleToolCall and Evaluate, with the kill switches, the call rates
--                     and the audit log of the store; Call/Gates on the stages, Call/Outcomes on whole
--                     calls.
--   Auth            auth/auth.go over store/oauth.go, store/apikey.go and store/user.go.
--     Tables          users, clients, codes, sessions, API keys.
--     Endpoints       registration, authorization, token, and the middleware; Codes, Access, Grants and
--                     Lifecycle on codes, on who is let in, and on the states that requests lead to.
--   Invites         store/invite.go, web/invite.go, internal/usertypes; Signup and Once
--                   on what an invitation gives, and that it serves once.
--   Login           the login of the web interface and its second factor: Twofa (store/twofa.go, the
--                   sessions of store/apikey.go, internal/twofa/twofa.go), Handlers (web/auth.go,
--                   web/twofa.go, autoLogin); Safety and Phases on whom it lets in.
--   Muxer           the package muxer: Routing (muxer.go: backends and prefixes of tools), Templates
--                   (template.go), Environment (BuildEnvForUser), Augment (augment.go).
--   Poolmgr         the package poolmgr: Process (process.go), Env (hashEnv and EnvMatches), Pool
--                   (pool.go; Waiting, Spawning, Sameness), Manager (manager.go), Recycler (recycler.go).
--   Gateway         mcpbridge_routing.go handleToolsCall and muxer.go HandleToolsCall, up to the choice
--                   of the backend; Gateway/Enforcement on the enforcer's part in it, Gateway/KillSwitch
--                   on its kill switches.
--   Executor        web/approval_executor.go; Executor/Replies on what an execution gives back.
--
-- A request passes the middleware of Auth, over the users that Auth, Invites and Login share.
-- Gateway asks the enforcer about its call, waits or not for an approval, and has Muxer find the
-- backend, whose process comes from the pool that Poolmgr keeps for the user. An approved request
-- goes to such a pool by Executor.
--
-- Within the enforcer, a call goes through the gate on the justification, the count of the call
-- rate, the kill switches, the policies, the gate for calls without a policy, the check for a
-- human, and the charge of the two buckets; a record of the parts that a call reads (Enforcer) and
-- one of what it changes (State) stand for the Enforcer object, and one for the call. Each module
-- Tests runs the definitions on concrete values and applies the theorems there.
--
-- Conventions. Go's int is a natural number: the capacities, costs, priorities and times that the
-- code uses are not negative, and no sum is taken to overflow. Times are nanoseconds since Go's
-- zero time, and an operation reads the clock once, where the code may read it several times
-- within the same call. A map is an association list, whose order stands for the order in which
-- range meets the entries; a table is a list of rows. An error is none, a false flag or a
-- constructor. Where the code holds a lock or runs one statement of the database, its operation is
-- one step, and an interleaving of calls is a sequence of steps. Elsewhere a definition is what
-- the code does when nothing else runs in between: the buckets of Ratelimit hold no lock, and the
-- handlers that run several statements (the exchange of a code, the sign-up, the logins, the
-- approvals) have no transaction. Where a theorem speaks of what others do meanwhile, it takes the
-- statements one by one.
--
-- Fuel: Heuristics.word_from, the loop of containsWordOrPrefix, is given one round more than the
-- text has bytes, which is enough since every further occurrence begins later; replace_templates
-- of Muxer/Templates is given the text's length, and each round takes a character at least;
-- exchange_sort of Poolmgr/Env is given the list's length, and each round puts one element in its
-- place. Spawns and waits of Poolmgr run over the list of what happens in each round.
--
-- Parameters: for code that is not in the repository, the CEL library (a type of programs,
-- compilation and evaluation), strings.ToLower and EqualFold, the printing of numbers, the uuids,
-- the hashes of passwords and tokens (bcrypt, SHA-256), and the text functions that templates call
-- (TextLibrary), the JSON functions of Executor, the derivation of keys, the ciphers and TOTP
-- (Crypto of Login/Twofa, where the wrappers of internal/crypto stand for Go's library); ids and
-- tokens drawn at random are arguments, and so are the liveness of a process and the outcome of a
-- spawn. The source's own interfaces ApprovalExecutor, UserStore and ToolProfileStore are given by
-- what they answer, and Gateway takes the enforcer as a function.
--
-- Not modelled: database statements that fail for another reason than a key, the JSON forms, the
-- tickers that only schedule the modelled operations, the bytes that a backend's process exchanges
-- with the bridge, the scanner, the credential store and cryptography, the mailer, the
-- configuration, the pages of the web interface, v2handler.go, the start of the program with its
-- seeds and caches, the migrations of the database and the command-line tools.
pub mod Common
pub mod Auth
pub mod Invites
pub mod Muxer
pub mod Poolmgr
pub mod Gateway
pub mod Ratelimit
pub mod Enforcer
pub mod Login
pub mod Executor
