-- ===== src/Auth/Lifecycle.antt =====
-- The states that the requests and the administration lead to, and whom they serve.
use text.Mathlib.Text.{starts_with}
use palaestra_mcp_bridge.Common.{
  ℕ, ◌≡◌, refl, inl, inr, String, false, Option, none, some, List, [], ◌∷◌, ◌==◌, ltb, Bool-cases,
  Occurs, subst,
}
use palaestra_mcp_bridge.Common.Tables.{All-find_where, All-delete_where}
use palaestra_mcp_bridge.Auth.Tables.{
  UserRow, OauthCode, OauthSession, ApiKey, Store, Library, delete_expired_codes,
  delete_expired_sessions, delete_user, get_oauth_session, update_api_key_last_used,
  validate_api_key,
}
use palaestra_mcp_bridge.Auth.Endpoints.{
  Handler, serve, AuthorizeForm, TokenForm, Fresh, authorize_post, token_handler, middleware,
  accept_api_key, accept_session, extract_bearer,
}
use palaestra_mcp_bridge.Auth.Access.{middleware_serve_token}
use palaestra_mcp_bridge.Auth.Grants.{
  Grants, HasPassword, IsGranted, authorize_post-IsGranted, delete_oauth_session-IsGranted,
  token_handler-IsGranted,
}

-- The requests and the administration, in any order; the passwords and keys may change at will. A
-- login enters the log if and only if the form has the email and the password of a user.
pub data Reachable (lib : Library) (h : Handler) : Grants → Store → Type 0 where
  start : {s : Store} → s.codes ≡ [] → s.sessions ≡ [] → Reachable lib h [] s
  login :
      {log : Grants} {s : Store} (now : ℕ) (fresh : String) (f : AuthorizeForm) (u : UserRow)
      → HasPassword lib f s u
      → Reachable lib h log s
      → Reachable lib h ((u.id, f.client_id) ∷ log) (authorize_post lib h now fresh f s).1
  failed_login :
      {log : Grants} {s : Store} (now : ℕ) (fresh : String) (f : AuthorizeForm)
      → ((u : UserRow) → HasPassword lib f s u → ⊥)
      → Reachable lib h log s
      → Reachable lib h log (authorize_post lib h now fresh f s).1
  token_call :
      {log : Grants} {s : Store} (now later : ℕ) (fresh : Fresh) (f : TokenForm)
      → Reachable lib h log s
      → Reachable lib h log (token_handler lib h now later fresh f s).1
  request :
      {log : Grants} {s : Store} (now : ℕ) (header : String)
      → Reachable lib h log s
      → Reachable lib h log (middleware lib now header s).1
  user_removed :
      {log : Grants} {s : Store} (id : String)
      → Reachable lib h log s
      → Reachable lib h log (delete_user id s)
  expiry :
      {log : Grants} {s : Store} (now : ℕ)
      → Reachable lib h log s
      → Reachable lib h log (delete_expired_sessions now (delete_expired_codes now s))
  accounts :
      {log : Grants} {s : Store} (users : List UserRow) (keys : List ApiKey)
      → Reachable lib h log s
      → Reachable lib h log (record s { users = users; api_keys = keys })

middleware-IsGranted :
    (lib : Library) (now : ℕ) (header : String) (log : Grants) (s : Store)
    → IsGranted log s
    → IsGranted log (middleware lib now header s).1
unfolding middleware accept_session accept_api_key update_api_key_last_used
middleware-IsGranted lib now header log s g = elim (Bool-cases (extract_bearer lib header == "")) [
  | inl a ↦ rw a g
  | inr a ↦ elim (Bool-cases (starts_with (extract_bearer lib header) "mcp_")) [
    | inl b ↦ rw (a, b) (by_key (validate_api_key lib (extract_bearer lib header) s))
    | inr b ↦ rw (a, b) (by_token (get_oauth_session (extract_bearer lib header) s))
  ]
]
  where
    by_key : (o : Option ApiKey) → IsGranted log (accept_api_key now o s).1
    by_key none = g
    by_key (some k) = go k.expires_at refl
      where
        go : (x : Option ℕ) → k.expires_at ≡ x → IsGranted log (accept_api_key now (some k) s).1
        go none e = rw (e, accept_api_key) g
        go (some limit) e = elim (Bool-cases (ltb limit now)) [
          | inl c ↦ rw (e, c, accept_api_key) g
          | inr c ↦ rw (e, c, accept_api_key) g
        ]

    by_token :
        (o : Option OauthSession)
        → IsGranted log (accept_session now (extract_bearer lib header) o s).1
    by_token none = g
    by_token (some t) = elim (Bool-cases (ltb t.expires_at now)) [
      | inl c ↦ rw c (delete_oauth_session-IsGranted (extract_bearer lib header) log s g)
      | inr c ↦ rw c g
    ]

delete_user-IsGranted :
    (id : String) (log : Grants) (s : Store) → IsGranted log s → IsGranted log (delete_user id s)
unfolding delete_user
delete_user-IsGranted id log s (p, q) = (
  All-delete_where (λ (c : OauthCode). Occurs (c.user_id, c.client_id) log) (λ c. c.user_id == id)
      s.codes p,
  All-delete_where (λ (t : OauthSession). Occurs (t.user_id, t.client_id) log)
      (λ t. t.user_id == id) s.sessions q,
)

expiry-IsGranted :
    (now : ℕ) (log : Grants) (s : Store)
    → IsGranted log s
    → IsGranted log (delete_expired_sessions now (delete_expired_codes now s))
unfolding delete_expired_sessions delete_expired_codes
expiry-IsGranted now log s (p, q) = (
  All-delete_where (λ (c : OauthCode). Occurs (c.user_id, c.client_id) log)
      (λ c. ltb c.expires_at now) s.codes p,
  All-delete_where (λ (t : OauthSession). Occurs (t.user_id, t.client_id) log)
      (λ t. ltb t.expires_at now) s.sessions q,
)

-- In every state of the server, a code or a session belongs to a user and a client for which that
-- user has logged in with the password.
pub Reachable-IsGranted :
    {lib : Library} {h : Handler} {log : Grants} {s : Store}
    → Reachable lib h log s
    → IsGranted log s
Reachable-IsGranted {s} (start a b) = (rw a tt, rw b tt)
Reachable-IsGranted {lib} {h} (login {log} {s} now fresh f u k r) =
    (authorize_post-IsGranted lib h now fresh f log s (Reachable-IsGranted r)).0 u k
Reachable-IsGranted {lib} {h} (failed_login {log} {s} now fresh f n r) =
    (authorize_post-IsGranted lib h now fresh f log s (Reachable-IsGranted r)).1 n
Reachable-IsGranted {lib} {h} (token_call {log} {s} now later fresh f r) =
    token_handler-IsGranted lib h now later fresh f log s (Reachable-IsGranted r)
Reachable-IsGranted {lib} (request {log} {s} now header r) =
    middleware-IsGranted lib now header log s (Reachable-IsGranted r)
Reachable-IsGranted (user_removed {log} {s} id r) =
    delete_user-IsGranted id log s (Reachable-IsGranted r)
Reachable-IsGranted (expiry {log} {s} now r) = expiry-IsGranted now log s (Reachable-IsGranted r)
Reachable-IsGranted (accounts users keys r) = Reachable-IsGranted r

-- In every state that requests lead to which run one after the other, a request that is let in
-- without an API key is served as a user for whom some earlier login form had the email and the
-- password, as they were at that time.
pub middleware_serve_granted :
    {lib : Library} {h : Handler} {log : Grants} {s : Store} (now : ℕ) (header u : String)
    → Reachable lib h log s
    → starts_with (extract_bearer lib header) "mcp_" ≡ false
    → (middleware lib now header s).0 ≡ serve u
    → (client : String) × Occurs (u, client) log
unfolding get_oauth_session
middleware_serve_granted {lib} {log} {s} now header u r b e =
    let (t, found, owner, live) = middleware_serve_token lib now header s u b e in
    (
      t.client_id,
      subst (λ v. Occurs (v, t.client_id) log) owner
          (All-find_where (λ (d : OauthSession). Occurs (d.user_id, d.client_id) log)
            (λ d. d.access_token == extract_bearer lib header) s.sessions (Reachable-IsGranted r).1
            found),
    )
