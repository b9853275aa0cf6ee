-- ===== src/Auth/Access.antt =====
-- Whom the middleware lets in: the middleware of auth/auth.go after the other operations.
use text.Mathlib.Text.{starts_with}
use palaestra_mcp_bridge.Common.{
  ℕ, ◌≤◌, ◌≡◌, ◌≢◌, refl, sym, ap, ◌⊎◌, inl, inr, String, Bool, true, false, Option, none, some,
  List, [], ◌∷◌, ◌==◌, ltb, Bool-cases, Option-cases, eq_iff, eq_refl, arith, subst, All,
}
use palaestra_mcp_bridge.Common.Tables.{
  find_where, delete_where, find_where_sound, find_where-delete_where_self,
  find_where-delete_where_every,
}
use palaestra_mcp_bridge.Auth.Tables.{
  ApiKey, OauthSession, Store, Library, get_oauth_session, delete_oauth_session, validate_api_key,
  get_api_key_by_id, delete_user, get_oauth_session_by_refresh,
}
use palaestra_mcp_bridge.Auth.Endpoints.{
  Handler, serve, unauthorized, json_error, token_response, middleware, accept_api_key,
  accept_session, extract_bearer, TokenForm, Fresh, token_refresh, new_session,
}
use palaestra_mcp_bridge.Auth.Codes.{issue_session_lem}

-- An expiry date that is missing never passes.
abbrev pub IsLive : ℕ → Option ℕ → Type 0
IsLive now none = Unit
IsLive now (some limit) = now ≤ limit

serve_injective : {u v : String} → serve u ≡ serve v → u ≡ v
serve_injective e = cc

accept_api_key_lem :
    (now : ℕ) (o : Option ApiKey) (s : Store) (u : String)
    → (accept_api_key now o s).0 ≡ serve u
    → (k : ApiKey) × (o ≡ some k) × (k.user_id ≡ u) × IsLive now k.expires_at
unfolding accept_api_key
accept_api_key_lem now none s u e = absurd (cc e)
accept_api_key_lem now (some k) s u e = go k.expires_at refl
  where
    go :
        (x : Option ℕ)
        → k.expires_at ≡ x
        → (j : ApiKey) × (some k ≡ some j) × (j.user_id ≡ u) × IsLive now j.expires_at
    go none p = (k, refl, cc (rw (p, accept_api_key) at e), rw p tt)
    go (some limit) p = elim (Bool-cases (ltb limit now)) [
      | inl x ↦ absurd (cc (rw (p, x, accept_api_key) at e))
      | inr x ↦ (k, refl, cc (rw (p, x, accept_api_key) at e), rw p (ground arith))
    ]

accept_session_lem :
    (now : ℕ) (token : String) (o : Option OauthSession) (s : Store) (u : String)
    → (accept_session now token o s).0 ≡ serve u
    → (t : OauthSession) × (o ≡ some t) × (t.user_id ≡ u) × (now ≤ t.expires_at)
unfolding accept_session
accept_session_lem now token none s u e = absurd (cc e)
accept_session_lem now token (some t) s u e = elim (Bool-cases (ltb t.expires_at now)) [
  | inl x ↦ absurd (cc (rw x at e))
  | inr x ↦ (t, refl, cc (rw x at e), ground arith)
]

-- The branch of the access tokens.
pub middleware_serve_token :
    (lib : Library) (now : ℕ) (header : String) (s : Store) (u : String)
    → starts_with (extract_bearer lib header) "mcp_" ≡ false
    → (middleware lib now header s).0 ≡ serve u
    → (t : OauthSession) × (get_oauth_session (extract_bearer lib header) s ≡ some t)
      × (t.user_id ≡ u)
      × (now ≤ t.expires_at)
unfolding middleware
middleware_serve_token lib now header s u y e =
    elim (Bool-cases (extract_bearer lib header == "")) [
      | inl x ↦ absurd (cc (rw x at e))
      | inr x ↦
          accept_session_lem now (extract_bearer lib header)
            (get_oauth_session (extract_bearer lib header) s) s u (rw (x, y) at e)
    ]

-- Whoever is served as a user holds an API key of that user or an access token of that user, which
-- has not expired.
pub middleware_serve :
    (lib : Library) (now : ℕ) (header : String) (s : Store) (u : String)
    → (middleware lib now header s).0 ≡ serve u
    → ((k : ApiKey) × (validate_api_key lib (extract_bearer lib header) s ≡ some k)
        × (k.user_id ≡ u)
        × IsLive now k.expires_at)
      ⊎ ((t : OauthSession) × (get_oauth_session (extract_bearer lib header) s ≡ some t)
          × (t.user_id ≡ u)
          × (now ≤ t.expires_at))
unfolding middleware
middleware_serve lib now header s u e = elim (Bool-cases (extract_bearer lib header == "")) [
  | inl x ↦ absurd (cc (rw x at e))
  | inr x ↦ elim (Bool-cases (starts_with (extract_bearer lib header) "mcp_")) [
    | inl y ↦ inl (
        accept_api_key_lem now (validate_api_key lib (extract_bearer lib header) s) s u
          (rw (x, y) at e))
    | inr y ↦ inr (middleware_serve_token lib now header s u y e)
  ]
]

no_rows_of :
    {A : Type 0} (owner : A → String) (u : String) (test : A → Bool) (rows : List A) {r : A}
    → find_where test (delete_where (λ x. owner x == u) rows) ≡ some r
    → (owner r == u) ≡ false
unfolding find_where delete_where
no_rows_of owner u test [] e = absurd (cc e)
no_rows_of owner u test (x ∷ rows) {r} e = elim (Bool-cases (owner x == u)) [
  | inl a ↦ no_rows_of owner u test rows (rw a at e)
  | inr a ↦ elim (Bool-cases (test x)) [
    | inl b ↦ cc (a, rw (a, b, find_where) at e)
    | inr b ↦ no_rows_of owner u test rows (rw (a, b, find_where) at e)
  ]
]

-- The deletion of a user revokes every access token and API key of the user.
pub middleware-delete_user :
    (lib : Library) (now : ℕ) (header : String) (s : Store) (u : String)
    → (middleware lib now header (delete_user u s)).0 ≢ serve u
unfolding delete_user get_oauth_session validate_api_key get_api_key_by_id
middleware-delete_user lib now header s u e =
    elim (middleware_serve lib now header (delete_user u s) u e) [
      | inl (k, found, owner, live) ↦ by_key k found owner
      | inr (t, found, owner, live) ↦
          refuted
            (no_rows_of (λ (x : OauthSession). x.user_id) u
              (λ x. x.access_token == extract_bearer lib header) s.sessions found)
            owner
    ]
  where
    refuted : {v : String} → (v == u) ≡ false → v ≡ u → ⊥
    refuted {v} x y = cc (x, (eq_iff v u).1 y)

    by_key :
        (k : ApiKey)
        → validate_api_key lib (extract_bearer lib header) (delete_user u s) ≡ some k
        → k.user_id ≡ u
        → ⊥
    by_key k found owner =
        elim (Option-cases (
          find_where (λ (x : ApiKey). lib.matches_hash (extract_bearer lib header) x.key_hash)
            (delete_where (λ x. x.user_id == u) s.api_keys))) [
              | inl x ↦ absurd (cc (rw (x, validate_api_key) at found))
              | inr (j, x) ↦
                  refuted
                    (no_rows_of (λ (y : ApiKey). y.user_id) u (λ y. y.id == j.id) s.api_keys
                      (rw (x, validate_api_key) at found))
                    owner
            ]

-- A refresh that gives tokens retires the access token that it was given for, unless the same
-- token is drawn again.
pub token_refresh_rotates :
    (lib : Library) (h : Handler) (now : ℕ) (fresh : Fresh) (f : TokenForm) (s s' : Store)
    (old t : OauthSession) (ttl : ℕ)
    → get_oauth_session_by_refresh f.refresh_token s ≡ some old
    → token_refresh h now fresh f s ≡ (token_response t ttl, s')
    → (fresh.0 == old.access_token) ≡ false
    → (t ≡ new_session h now fresh old.user_id old.client_id old.scope)
      × (get_oauth_session fresh.0 s' ≡ some t)
      × (get_oauth_session old.access_token s' ≡ none)
unfolding token_refresh get_oauth_session delete_oauth_session find_where new_session
token_refresh_rotates lib h now fresh f s s' old t ttl m e ne =
    elim (Bool-cases (f.refresh_token == "")) [
      | inl x ↦ absurd (cc (rw x at e))
      | inr x ↦
          let new = new_session h now fresh old.user_id old.client_id old.scope in
          let (p, q) =
            issue_session_lem h new t ttl (delete_oauth_session old.access_token s) s'
              (rw (x, m, token_refresh) at e) in
          (
            sym p,
            rw (q, eq_refl fresh.0) (ap some p),
            rw (q, ne)
                (find_where-delete_where_self (λ r. r.access_token == old.access_token) s.sessions),
          )
    ]

middleware_expired :
    (lib : Library) (now : ℕ) (header : String) (s : Store) (t : OauthSession)
    → (extract_bearer lib header == "") ≡ false
    → starts_with (extract_bearer lib header) "mcp_" ≡ false
    → get_oauth_session (extract_bearer lib header) s ≡ some t
    → ltb t.expires_at now ≡ true
    → middleware lib now header s
      ≡ (unauthorized, delete_oauth_session (extract_bearer lib header) s)
unfolding middleware accept_session
middleware_expired lib now header s t a b c d = rw (a, b, c, d, accept_session) refl

token_refresh_missing :
    (h : Handler) (later : ℕ) (fresh : Fresh) (f : TokenForm) (s : Store)
    → (f.refresh_token == "") ≡ false
    → get_oauth_session_by_refresh f.refresh_token s ≡ none
    → token_refresh h later fresh f s ≡ (json_error "invalid_grant" "refresh_token not found", s)
unfolding token_refresh
token_refresh_missing h later fresh f s e g = rw (e, g) refl

-- A client that presents its access token after it expired loses its refresh token as well: the
-- middleware deletes the session, and a refresh with the session's own refresh token is refused then.
-- Here the token is not empty, and no session with another access token has it.
pub token_refresh-middleware_expired :
    (lib : Library) (h : Handler) (now later : ℕ) (header : String) (fresh : Fresh) (f : TokenForm)
    (s : Store) (t : OauthSession)
    → (extract_bearer lib header == "") ≡ false
    → starts_with (extract_bearer lib header) "mcp_" ≡ false
    → get_oauth_session (extract_bearer lib header) s ≡ some t
    → ltb t.expires_at now ≡ true
    → f.refresh_token ≡ t.refresh_token
    → (f.refresh_token == "") ≡ false
    → All
        (λ x.
          (x.refresh_token == t.refresh_token) ≡ true → (x.access_token == t.access_token) ≡ true)
        s.sessions
    → let (reply, s') = middleware lib now header s in
      (reply ≡ unauthorized)
      × (token_refresh h later fresh f s'
          ≡ (json_error "invalid_grant" "refresh_token not found", s'))
unfolding get_oauth_session get_oauth_session_by_refresh delete_oauth_session
token_refresh-middleware_expired lib h now later header fresh f s t a b c d own e unique =
    let bearer = extract_bearer lib header in
    let same : t.access_token ≡ bearer =
      (eq_iff t.access_token bearer).0
        (find_where_sound (λ x. x.access_token == bearer) s.sessions c) in
    let g : get_oauth_session_by_refresh f.refresh_token (delete_oauth_session bearer s) ≡ none =
      rw own (
        find_where-delete_where_every (λ x. x.refresh_token == t.refresh_token)
          (λ x. x.access_token == bearer) s.sessions (rw same at unique)) in
    subst
      (λ p.
        (p.0 ≡ unauthorized)
        × (token_refresh h later fresh f p.1
            ≡ (json_error "invalid_grant" "refresh_token not found", p.1)))
      (sym (middleware_expired lib now header s t a b c d))
      (
        refl,
        token_refresh_missing h later fresh f (delete_oauth_session (extract_bearer lib header) s) e
            g,
      )
