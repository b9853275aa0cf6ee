-- ===== src/Auth/Grants.antt =====
-- The refinement of the OAuth server by the grants that it stands for: a log of logins, in which
-- every code and every session has its place.
use palaestra_mcp_bridge.Common.{
  ℕ, ◌≡◌, refl, sym, ◌∙◌, true, inl, inr, String, Option, none, some, List, [], ◌∷◌, ◌==◌, ltb,
  Bool-cases, Option-cases, All, Occurs, subst, ◌||◌, arith,
}
use palaestra_mcp_bridge.Common.Tables.{All-find_where, All-delete_where}
use palaestra_mcp_bridge.Auth.Tables.{
  UserRow, OauthCode, OauthSession, Store, Library, delete_oauth_code, delete_oauth_session,
  create_oauth_session, create_oauth_code, get_user_by_email, check_password, get_oauth_code,
  get_oauth_session_by_refresh, update_user,
}
use palaestra_mcp_bridge.Auth.Endpoints.{
  Handler, after_login, AuthorizeForm, TokenForm, Fresh, authenticate, authorize_post, issue_code,
  new_code, upgrade_password, token_handler, token_authorization_code, token_refresh, exchange_code,
  exchange_row, issue_session, new_session, check_code,
}
use palaestra_mcp_bridge.Auth.Codes.{create_oauth_code_lem}

-- A login: the user who gave the password, and the client named by the form.
abbrev pub Grant : Type 0
Grant = String × String

abbrev pub Grants : Type 0
Grants = List Grant

-- The form has the email and the password of this user.
abbrev pub HasPassword : Library → AuthorizeForm → Store → UserRow → Type 0
HasPassword lib f s u =
    (get_user_by_email f.email s ≡ some u) × (check_password lib u.password f.password ≡ true)

-- Every code and every session stands for a login of the log.
abbrev pub CodesGranted : Grants → List OauthCode → Type 0
CodesGranted log = All (λ c. Occurs (c.user_id, c.client_id) log)

abbrev pub SessionsGranted : Grants → List OauthSession → Type 0
SessionsGranted log = All (λ t. Occurs (t.user_id, t.client_id) log)

abbrev pub IsGranted : Grants → Store → Type 0
IsGranted log s = CodesGranted log s.codes × SessionsGranted log s.sessions

more_codes :
    (g : Grant) (log : Grants) (codes : List OauthCode)
    → CodesGranted log codes
    → CodesGranted (g ∷ log) codes
more_codes g log [] p = tt
more_codes g log (c ∷ cs) p = (inr p.0, more_codes g log cs p.1)

more_sessions :
    (g : Grant) (log : Grants) (sessions : List OauthSession)
    → SessionsGranted log sessions
    → SessionsGranted (g ∷ log) sessions
more_sessions g log [] p = tt
more_sessions g log (c ∷ cs) p = (inr p.0, more_sessions g log cs p.1)

-- The upgrade of a password leaves the codes and the sessions alone.
upgrade_password_rows :
    (lib : Library) (u : UserRow) (plain : String) (s : Store)
    → ((upgrade_password lib u plain s).codes ≡ s.codes)
      × ((upgrade_password lib u plain s).sessions ≡ s.sessions)
unfolding upgrade_password update_user
upgrade_password_rows lib u plain s = ground arith

create_oauth_session_lem :
    (t : OauthSession) (s s' : Store)
    → create_oauth_session t s ≡ some s'
    → s' ≡ record s { sessions = t ∷ s.sessions }
unfolding create_oauth_session
create_oauth_session_lem t s s' e = ground arith

issue_code-IsGranted :
    (h : Handler) (now : ℕ) (fresh : String) (f : AuthorizeForm) (u : UserRow) (log : Grants)
    (s : Store)
    → IsGranted log s
    → IsGranted ((u.id, f.client_id) ∷ log) (issue_code h now fresh f u s).1
unfolding issue_code new_code
issue_code-IsGranted h now fresh f u log s (p, q) =
    let p2 = more_codes (u.id, f.client_id) log s.codes p in
    let q2 = more_sessions (u.id, f.client_id) log s.sessions q in
    elim (Option-cases (create_oauth_code (new_code h now fresh f u) s)) [
      | inl e ↦ rw (e, issue_code) (p2, q2)
      | inr (s', e) ↦
          rw (e, issue_code)
            (subst (IsGranted ((u.id, f.client_id) ∷ log))
              (sym (create_oauth_code_lem (new_code h now fresh f u) s s' e)) ((inl refl, p2), q2))
    ]

authenticate-HasPassword :
    (lib : Library) (f : AuthorizeForm) (s : Store) (u : UserRow)
    → authenticate lib f s ≡ some u
    → HasPassword lib f s u
unfolding authenticate
authenticate-HasPassword lib f s u e = elim (Option-cases (get_user_by_email f.email s)) [
  | inl n ↦ absurd (cc (rw (authenticate, n) at e))
  | inr (v, n) ↦ elim (Bool-cases (check_password lib v.password f.password)) [
    | inr k ↦ absurd (cc (rw (authenticate, n, k) at e))
    | inl k ↦
        let same : v ≡ u = cc (rw (authenticate, n, k) at e) in
        subst (HasPassword lib f s) same (n, k)
  ]
]

more_grants : (g : Grant) (log : Grants) (s : Store) → IsGranted log s → IsGranted (g ∷ log) s
more_grants g log s (p, q) = (more_codes g log s.codes p, more_sessions g log s.sessions q)

-- A post of the form, when its user enters the log if the password is right, and the log stays as it
-- is if it is nobody's.
pub authorize_post-IsGranted :
    (lib : Library) (h : Handler) (now : ℕ) (fresh : String) (f : AuthorizeForm) (log : Grants)
    (s : Store)
    → IsGranted log s
    → ((u : UserRow)
        → HasPassword lib f s u
        → IsGranted ((u.id, f.client_id) ∷ log) (authorize_post lib h now fresh f s).1)
      × (((u : UserRow) → HasPassword lib f s u → ⊥)
          → IsGranted log (authorize_post lib h now fresh f s).1)
unfolding authorize_post after_login
authorize_post-IsGranted lib h now fresh f log s g =
    elim (Bool-cases (f.client_id == "" || f.redirect_uri == "")) [
      | inl e ↦ rw e (λ u k. more_grants (u.id, f.client_id) log s g, λ n. g)
      | inr e ↦
          rw e
            (λ u k. right u k (authenticate lib f s) refl, λ n. wrong n (authenticate lib f s) refl)
    ]
  where
    issued :
        (u : UserRow)
        → IsGranted
            ((u.id, f.client_id) ∷ log)
            (issue_code h now fresh f u (upgrade_password lib u f.password s)).1
    issued u =
        let (k, m) = upgrade_password_rows lib u f.password s in
        issue_code-IsGranted h now fresh f u log (upgrade_password lib u f.password s)
          (rw k g.0, rw m g.1)

    right :
        (u : UserRow)
        → HasPassword lib f s u
        → (o : Option UserRow) → authenticate lib f s ≡ o
        → IsGranted ((u.id, f.client_id) ∷ log) (after_login lib h now fresh f o s).1
    right u k none e = more_grants (u.id, f.client_id) log s g
    right u k (some v) e =
        let found : some v ≡ some u = sym (authenticate-HasPassword lib f s v e).0 ∙ k.0 in
        let same : v ≡ u = cc found in
        subst
          (λ (w : UserRow).
            IsGranted ((w.id, f.client_id) ∷ log) (after_login lib h now fresh f (some v) s).1)
          same (issued v)

    wrong :
        ((u : UserRow) → HasPassword lib f s u → ⊥)
        → (o : Option UserRow) → authenticate lib f s ≡ o
        → IsGranted log (after_login lib h now fresh f o s).1
    wrong n none e = g
    wrong n (some v) e = absurd (n v (authenticate-HasPassword lib f s v e))

issue_session-IsGranted :
    (h : Handler) (t : OauthSession) (log : Grants) (s : Store)
    → IsGranted log s
    → Occurs (t.user_id, t.client_id) log
    → IsGranted log (issue_session h t s).1
unfolding issue_session
issue_session-IsGranted h t log s (p, q) o = elim (Option-cases (create_oauth_session t s)) [
  | inl e ↦ rw (e, issue_session) (p, q)
  | inr (s', e) ↦
      rw (e, issue_session)
        (subst (IsGranted log) (sym (create_oauth_session_lem t s s' e)) (p, (o, q)))
]

token_authorization_code-IsGranted :
    (lib : Library) (h : Handler) (now later : ℕ) (fresh : Fresh) (f : TokenForm) (log : Grants)
    (s : Store)
    → IsGranted log s
    → IsGranted log (token_authorization_code lib h now later fresh f s).1
unfolding token_authorization_code exchange_row delete_oauth_code exchange_code new_session
    get_oauth_code
token_authorization_code-IsGranted lib h now later fresh f log s (p, q) =
    elim (Bool-cases (f.code == "")) [
      | inl k ↦ rw k (p, q)
      | inr k ↦ elim (Option-cases (get_oauth_code f.code s)) [
        | inl m ↦ rw (k, m, token_authorization_code, exchange_row) (p, q)
        | inr (c, m) ↦ elim (Bool-cases (ltb c.expires_at now)) [
          | inl x ↦ rw (k, m, x, token_authorization_code, exchange_row) deleted
          | inr x ↦
              rw (k, m, x, token_authorization_code, exchange_row)
                (exchanged c m (check_code lib f c))
        ]
      ]
    ]
  where
    deleted : IsGranted log (delete_oauth_code f.code s)
    deleted = (
      All-delete_where (λ (c : OauthCode). Occurs (c.user_id, c.client_id) log)
          (λ c. c.code == f.code) s.codes p,
      q,
    )

    exchanged :
        (c : OauthCode)
        → get_oauth_code f.code s ≡ some c
        → (o : Option String) → IsGranted log (exchange_code h later fresh f.code c o s).1
    exchanged c m (some reason) = (p, q)
    exchanged c m none =
        issue_session-IsGranted h (new_session h later fresh c.user_id c.client_id c.scope) log
          (delete_oauth_code f.code s) deleted
          (All-find_where (λ (d : OauthCode). Occurs (d.user_id, d.client_id) log)
            (λ d. d.code == f.code) s.codes p m)

pub delete_oauth_session-IsGranted :
    (token : String) (log : Grants) (s : Store)
    → IsGranted log s
    → IsGranted log (delete_oauth_session token s)
unfolding delete_oauth_session
delete_oauth_session-IsGranted token log s (p, q) = (
  p,
  All-delete_where (λ (t : OauthSession). Occurs (t.user_id, t.client_id) log)
      (λ t. t.access_token == token) s.sessions q,
)

token_refresh-IsGranted :
    (h : Handler) (now : ℕ) (fresh : Fresh) (f : TokenForm) (log : Grants) (s : Store)
    → IsGranted log s
    → IsGranted log (token_refresh h now fresh f s).1
unfolding token_refresh new_session get_oauth_session_by_refresh
token_refresh-IsGranted h now fresh f log s g = elim (Bool-cases (f.refresh_token == "")) [
  | inl k ↦ rw k g
  | inr k ↦ elim (Option-cases (get_oauth_session_by_refresh f.refresh_token s)) [
    | inl m ↦ rw (k, m, token_refresh) g
    | inr (t, m) ↦
        rw (k, m, token_refresh)
          (issue_session-IsGranted h (new_session h now fresh t.user_id t.client_id t.scope) log
            (delete_oauth_session t.access_token s)
            (delete_oauth_session-IsGranted t.access_token log s g)
            (All-find_where (λ (d : OauthSession). Occurs (d.user_id, d.client_id) log)
              (λ d. d.refresh_token == f.refresh_token) s.sessions g.1 m))
  ]
]

pub token_handler-IsGranted :
    (lib : Library) (h : Handler) (now later : ℕ) (fresh : Fresh) (f : TokenForm) (log : Grants)
    (s : Store)
    → IsGranted log s
    → IsGranted log (token_handler lib h now later fresh f s).1
unfolding token_handler
token_handler-IsGranted lib h now later fresh f log s g =
    elim (Bool-cases (f.grant_type == "authorization_code")) [
      | inl a ↦ rw a (token_authorization_code-IsGranted lib h now later fresh f log s g)
      | inr a ↦ elim (Bool-cases (f.grant_type == "refresh_token")) [
        | inl b ↦ rw (a, b) (token_refresh-IsGranted h now fresh f log s g)
        | inr b ↦ rw (a, b) g
      ]
    ]
