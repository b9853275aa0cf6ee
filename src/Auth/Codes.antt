-- ===== src/Auth/Codes.antt =====
-- The exchange of a code for a session: what it asks for, and that a code serves once.
use palaestra_mcp_bridge.Common.{
  ℕ, ◌≤◌, ◌≡◌, refl, sym, ap, ◌∙◌, Option, ◌⊎◌, inl, inr, String, false, none, some, ◌∷◌, ◌==◌, ltb,
  Bool-cases, Option-cases, eq_iff, arith, not, ◌&&◌,
}
use palaestra_mcp_bridge.Common.Tables.{
  find_where, find_where-delete_where_self, find_where-delete_where_absent,
}
use palaestra_mcp_bridge.Auth.Tables.{
  OauthCode, OauthSession, Store, Library, get_oauth_code, delete_oauth_code, create_oauth_session,
  create_oauth_code, delete_expired_codes, delete_user,
}
use palaestra_mcp_bridge.Auth.Endpoints.{
  Handler, token_response, json_error, TokenForm, Fresh, new_session, exchange_row, check_code,
  check_pkce, verify_pkce, issue_session, exchange_code, token_authorization_code,
}

-- What the checks of a code come to.
pub record IsAllowed (lib : Library) (f : TokenForm) (c : OauthCode) : Type 0 where
  pub client : (f.client_id ≡ "") ⊎ (f.client_id ≡ c.client_id)
  pub uri : (f.redirect_uri ≡ "") ⊎ (f.redirect_uri ≡ c.redirect_uri)
  pub pkce : (c.code_challenge ≡ "") ⊎ (lib.s256 f.code_verifier ≡ c.code_challenge)

absent_or_equal :
    (given stored : String)
    → (not (given == "") && not (given == stored)) ≡ false
    → (given ≡ "") ⊎ (given ≡ stored)
absent_or_equal given stored h = elim (Bool-cases (given == "")) [
  | inl e ↦ inl ((eq_iff given "").0 e)
  | inr e ↦ elim (Bool-cases (given == stored)) [
    | inl k ↦ inr ((eq_iff given stored).0 k)
    | inr k ↦ absurd (cc (h, e, k))
  ]
]

pkce_of :
    (lib : Library) (verifier challenge : String)
    → check_pkce lib verifier challenge ≡ none
    → (challenge ≡ "") ⊎ (lib.s256 verifier ≡ challenge)
unfolding check_pkce verify_pkce
pkce_of lib verifier challenge h =
    ground (arith, eq_iff challenge "", eq_iff (lib.s256 verifier) challenge)

pub check_code-IsAllowed :
    (lib : Library) (f : TokenForm) (c : OauthCode) → check_code lib f c ≡ none → IsAllowed lib f c
unfolding check_code
check_code-IsAllowed lib f c h =
    elim (Bool-cases (not (f.client_id == "") && not (f.client_id == c.client_id))) [
      | inl e ↦ absurd (cc (rw e at h))
      | inr e ↦
          elim (Bool-cases (not (f.redirect_uri == "") && not (f.redirect_uri == c.redirect_uri))) [
            | inl k ↦ absurd (cc (rw (e, k) at h))
            | inr k ↦ record {
              client = absent_or_equal f.client_id c.client_id e;
              uri = absent_or_equal f.redirect_uri c.redirect_uri k;
              pkce = pkce_of lib f.code_verifier c.code_challenge (rw (e, k) at h);
            }
          ]
    ]

-- A session that was issued is the one asked for, and heads the table.
pub issue_session_lem :
    (h : Handler) (t t' : OauthSession) (ttl : ℕ) (s s' : Store)
    → issue_session h t s ≡ (token_response t' ttl, s')
    → (t ≡ t') × (s' ≡ record s { sessions = t ∷ s.sessions })
unfolding issue_session create_oauth_session
issue_session_lem h t t' ttl s s' e = ground arith

-- A response with tokens means that the code was stored, had not expired and passed the checks, and
-- that it was consumed for a new session of the code's user, client and scope.
pub token_authorization_code_lem :
    (lib : Library) (h : Handler) (now later : ℕ) (fresh : Fresh) (f : TokenForm) (s s' : Store)
    (t : OauthSession) (ttl : ℕ)
    → token_authorization_code lib h now later fresh f s ≡ (token_response t ttl, s')
    → (c : OauthCode) × (get_oauth_code f.code s ≡ some c)
      × (now ≤ c.expires_at)
      × IsAllowed lib f c
      × (t ≡ new_session h later fresh c.user_id c.client_id c.scope)
      × (s' ≡ record (delete_oauth_code f.code s) { sessions = t ∷ s.sessions })
unfolding token_authorization_code exchange_row exchange_code delete_oauth_code
token_authorization_code_lem lib h now later fresh f s s' t ttl e =
    elim (Bool-cases (f.code == "")) [
      | inl k ↦ absurd (cc (rw k at e))
      | inr k ↦ elim (Option-cases (get_oauth_code f.code s)) [
        | inl m ↦ absurd (cc (rw (k, m, token_authorization_code, exchange_row) at e))
        | inr (c, m) ↦ elim (Bool-cases (ltb c.expires_at now)) [
          | inl x ↦ absurd (cc (rw (k, m, x, token_authorization_code, exchange_row) at e))
          | inr x ↦ elim (Option-cases (check_code lib f c)) [
            | inr (reason, y) ↦
                absurd (cc (rw (k, m, x, y, token_authorization_code, exchange_row) at e))
            | inl y ↦
                let (p, q) =
                  issue_session_lem h (new_session h later fresh c.user_id c.client_id c.scope) t
                    ttl (delete_oauth_code f.code s) s'
                    (rw (k, m, x, y, token_authorization_code, exchange_row) at e) in
                (c, m, ground arith, check_code-IsAllowed lib f c y, sym p, rw p at q)
          ]
        ]
      ]
    ]

-- What an exchange that gave tokens had read, and what it left.
exchange_row_lem :
    (lib : Library) (h : Handler) (now later : ℕ) (fresh : Fresh) (f : TokenForm)
    (row : Option OauthCode) (s s' : Store) (t : OauthSession) (ttl : ℕ)
    → exchange_row lib h now later fresh f row s ≡ (token_response t ttl, s')
    → s' ≡ record (delete_oauth_code f.code s) { sessions = t ∷ s.sessions }
unfolding exchange_row exchange_code delete_oauth_code
exchange_row_lem lib h now later fresh f none s s' t ttl e = absurd (cc e)
exchange_row_lem lib h now later fresh f (some c) s s' t ttl e =
    elim (Bool-cases (ltb c.expires_at now)) [
      | inl x ↦ absurd (cc (rw x at e))
      | inr x ↦ elim (Option-cases (check_code lib f c)) [
        | inr (reason, y) ↦ absurd (cc (rw (x, y) at e))
        | inl y ↦
            let (p, q) =
              issue_session_lem h (new_session h later fresh c.user_id c.client_id c.scope) t ttl
                (delete_oauth_code f.code s) s' (rw (x, y) at e) in
            rw p at q
      ]
    ]

-- What statements make of the tables, those of any requests in any order, but for the storing of a
-- code under this name.
pub data Later (code : String) (s : Store) : Store → Type 0 where
  nothing : Later code s s
  stores :
      {t u : Store} (c : OauthCode)
      → (c.code == code) ≡ false
      → create_oauth_code c t ≡ some u
      → Later code s t
      → Later code s u
  deletes : {t : Store} (other : String) → Later code s t → Later code s (delete_oauth_code other t)
  expires : {t : Store} (now : ℕ) → Later code s t → Later code s (delete_expired_codes now t)
  removes_user : {t : Store} (id : String) → Later code s t → Later code s (delete_user id t)
  changes_others : {t u : Store} → u.codes ≡ t.codes → Later code s t → Later code s u

pub create_oauth_code_lem :
    (c : OauthCode) (s s' : Store)
    → create_oauth_code c s ≡ some s'
    → s' ≡ record s { codes = c ∷ s.codes }
unfolding create_oauth_code
create_oauth_code_lem c s s' e = ground arith

stored_absent :
    (code : String) (c : OauthCode) (t u : Store)
    → (c.code == code) ≡ false
    → create_oauth_code c t ≡ some u
    → get_oauth_code code t ≡ none
    → get_oauth_code code u ≡ none
unfolding get_oauth_code find_where
stored_absent code c t u ne e h = rw (create_oauth_code_lem c t u e) (rw ne h)

Later-absent :
    {code : String} {s t : Store}
    → get_oauth_code code s ≡ none
    → Later code s t
    → get_oauth_code code t ≡ none
unfolding get_oauth_code delete_oauth_code delete_expired_codes delete_user
Later-absent h nothing = h
Later-absent {code} h (stores {t} {u} c ne e l) = stored_absent code c t u ne e (Later-absent h l)
Later-absent {code} h (deletes {t} other l) =
    find_where-delete_where_absent (λ c. c.code == code) (λ c. c.code == other) t.codes
      (Later-absent h l)
Later-absent {code} h (expires {t} now l) =
    find_where-delete_where_absent (λ c. c.code == code) (λ c. ltb c.expires_at now) t.codes
      (Later-absent h l)
Later-absent {code} h (removes_user {t} id l) =
    find_where-delete_where_absent (λ c. c.code == code) (λ c. c.user_id == id) t.codes
      (Later-absent h l)
Later-absent {code} h (changes_others e l) =
    ap (find_where (λ c. c.code == code)) e ∙ Later-absent h l

-- Once an exchange has given tokens for a code, whatever it had read of it, an exchange that looks
-- the code up from then on is refused, whatever the statements of other requests do in between, as
-- long as none stores a code under the same name.
pub token_authorization_code_once :
    (lib : Library) (h : Handler) (now later : ℕ) (fresh : Fresh) (f : TokenForm)
    (row : Option OauthCode) (s s' : Store) (t : OauthSession) (ttl : ℕ) {s2 : Store}
    → (f.code == "") ≡ false
    → exchange_row lib h now later fresh f row s ≡ (token_response t ttl, s')
    → Later f.code s' s2
    → (now2 later2 : ℕ) (fresh2 : Fresh) (again : TokenForm) → again.code ≡ f.code
    → token_authorization_code lib h now2 later2 fresh2 again s2
      ≡ (json_error "invalid_grant" "code not found", s2)
unfolding token_authorization_code exchange_row get_oauth_code delete_oauth_code
token_authorization_code_once lib h now later fresh f row s s' t ttl {s2} ne e l now2 later2 fresh2
      again same =
    rw (same, ne, Later-absent (gone (exchange_row_lem lib h now later fresh f row s s' t ttl e)) l)
      refl
  where
    gone :
        s' ≡ record (delete_oauth_code f.code s) { sessions = t ∷ s.sessions }
        → get_oauth_code f.code s' ≡ none
    gone q = ap (get_oauth_code f.code) q ∙ consumed
      where
        consumed :
            get_oauth_code f.code
              (record (delete_oauth_code f.code s) { sessions = t ∷ s.sessions })
            ≡ none
        consumed = find_where-delete_where_self (λ c. c.code == f.code) s.codes
