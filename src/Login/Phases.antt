-- ===== src/Login/Phases.antt =====
-- The two phases of a login: web/auth.go loginPost.
use palaestra_mcp_bridge.Common.{
  ℕ, ◌≡◌, refl, sym, ap, ◌∙◌, String, true, false, Option, none, some, ◌⊎◌, List, ◌∷◌, ◌==◌,
  Bool-cases, Option-cases, inl, inr, eq_refl, arith,
}
use palaestra_mcp_bridge.Common.Tables.{find_where}
use palaestra_mcp_bridge.Auth.Tables.{UserRow, get_user_by_email, is_bcrypt, check_password}
use palaestra_mcp_bridge.Login.Twofa.{
  WebSession, Web, Crypto, TwofaManager, create_web_session, get_web_session, has_method,
  two_factor_row, get_user_2fa,
}
use palaestra_mcp_bridge.Login.Handlers.{
  Settings, Drawn, session_for, start_pending_login, cache_dek, complete_login, second_phase,
  login_with, login_post, derive, ensure_salt, upgrade_password,
}

start_pending_login_lem :
    (now : ℕ) (d : Drawn) (user : UserRow) (dek : Option String) (method target : String) (w : Web)
    → ((start_pending_login now d user dek method target w).0.session ≡ none)
      × ((start_pending_login now d user dek method target w).1.web_sessions ≡ w.web_sessions)
unfolding start_pending_login
start_pending_login_lem now d user dek method target w = elim (Option-cases d.pending) [
  | inl e ↦ rw e (refl, refl)
  | inr (token, e) ↦ rw e (refl, refl)
]

complete_login_lem :
    (now : ℕ) (d : Drawn) (user : UserRow) (dek : Option String) (w : Web)
    → (complete_login now d user dek w).0.pending ≡ none
unfolding complete_login
complete_login_lem now d user dek w =
    elim (Option-cases (create_web_session (session_for now d.session user) w)) [
      | inl e ↦ rw (complete_login, e) refl
      | inr (w', e) ↦ rw (complete_login, e) refl
    ]

-- A session is given in the first phase only to a user without a method, if none is required.
second_phase-session :
    (x : Settings) (m : TwofaManager) (now : ℕ) (d : Drawn) (user : UserRow) (dek : Option String)
    (w : Web) (t : String)
    → x.twofa ≡ some m
    → (second_phase x now d user dek w).0.session ≡ some t
    → (has_method user.id w ≡ none) × (m.required ≡ false)
unfolding second_phase
second_phase-session x m now d user dek w t a h = elim (Option-cases (has_method user.id w)) [
  | inr (method, e) ↦ absurd (
      cc (
        rw (second_phase, a, e) at h,
        (start_pending_login_lem now d user dek method "/web/login/2fa" w).0,
      ))
  | inl e ↦ elim (Bool-cases m.required) [
    | inr r ↦ (e, r)
    | inl r ↦ absurd (
        cc (
          rw (second_phase, a, e, r) at h,
          (start_pending_login_lem now d user dek "" "/web/setup-2fa" w).0,
        ))
  ]
]

-- A pending login changes no session.
second_phase-pending :
    (x : Settings) (now : ℕ) (d : Drawn) (user : UserRow) (dek : Option String) (w : Web)
    (p : String)
    → (second_phase x now d user dek w).0.pending ≡ some p
    → (second_phase x now d user dek w).1.web_sessions ≡ w.web_sessions
unfolding second_phase
second_phase-pending x now d user dek w p h = elim (Option-cases x.twofa) [
  | inl a ↦ absurd (cc (rw (second_phase, a) at h, complete_login_lem now d user dek w))
  | inr (m, a) ↦ elim (Option-cases (has_method user.id w)) [
    | inr (method, e) ↦
        rw (second_phase, a, e) (start_pending_login_lem now d user dek method "/web/login/2fa" w).1
    | inl e ↦ elim (Bool-cases m.required) [
      | inl r ↦
          rw (second_phase, a, e, r)
            (start_pending_login_lem now d user dek "" "/web/setup-2fa" w).1
      | inr r ↦ absurd (cc (rw (second_phase, a, e, r) at h, complete_login_lem now d user dek w))
    ]
  ]
]

-- What the preparation of a session leaves: the second factors, and the session that it stored.
has_method_same :
    (user : String) (v w : Web) → v.user_2fa ≡ w.user_2fa → has_method user v ≡ has_method user w
unfolding has_method get_user_2fa two_factor_row
has_method_same user v w e = ap (λ rows. has_method user (record w { user_2fa = rows })) e

upgrade_password_lem :
    (c : Crypto) (user : UserRow) (password : String) (w : Web)
    → ((upgrade_password c user password w).0.id ≡ user.id)
      × ((upgrade_password c user password w).1.user_2fa ≡ w.user_2fa)
unfolding upgrade_password
upgrade_password_lem c user password w = elim (Bool-cases (is_bcrypt user.password)) [
  | inl a ↦ rw (upgrade_password, a) (refl, refl)
  | inr a ↦ elim (Option-cases (c.passwords.hash_password password)) [
    | inl e ↦ rw (upgrade_password, a, e) (refl, refl)
    | inr (hash, e) ↦ rw (upgrade_password, a, e) (refl, refl)
  ]
]

ensure_salt_lem :
    (c : Crypto) (d : Drawn) (user : UserRow) (w : Web)
    → (ensure_salt c d user w).1.user_2fa ≡ w.user_2fa
unfolding ensure_salt
ensure_salt_lem c d user w = ground arith

cache_dek_lem :
    (token : String) (dek : Option String) (w : Web)
    → ((cache_dek token dek w).user_2fa ≡ w.user_2fa)
      × ((cache_dek token dek w).web_sessions ≡ w.web_sessions)
unfolding cache_dek
cache_dek_lem token none w = (refl, refl)
cache_dek_lem token (some dek) w = (refl, refl)

create_web_session_lem :
    (t : WebSession) (w w' : Web)
    → create_web_session t w ≡ some w'
    → (w'.user_2fa ≡ w.user_2fa) × (w'.web_sessions ≡ t ∷ w.web_sessions)
unfolding create_web_session
create_web_session_lem t w w' h = ground arith

-- A login reaches the second phase with a session stored, and the second factors unchanged.
login_with_phases :
    (c : Crypto) (x : Settings) (now : ℕ) (d : Drawn) (user : UserRow) (password : String) (w : Web)
    → ((login_with c x now d user password w).0.session ≡ none)
        × ((login_with c x now d user password w).0.pending ≡ none)
      ⊎ ((dek : Option String) × (w2 : Web) × (rest : List WebSession) × (w2.user_2fa ≡ w.user_2fa)
          × (w2.web_sessions ≡ session_for now d.early user ∷ rest)
          × (login_with c x now d user password w ≡ second_phase x now d user dek w2))
unfolding login_with
login_with_phases c x now d user password w =
    let upgraded = upgrade_password c user password w in
    let salted = ensure_salt c d upgraded.0 upgraded.1 in
    let dek = derive c password salted.0 in
    elim (Option-cases (create_web_session (session_for now d.early user) salted.1)) [
      | inl e ↦ inl (rw (login_with, e) (refl, refl))
      | inr (w1, e) ↦
          let (same, stored) =
            create_web_session_lem (session_for now d.early user) salted.1 w1 e in
          inr (
            dek,
            cache_dek d.early dek w1,
            salted.1.web_sessions,
            (cache_dek_lem d.early dek w1).0
                ∙ same
                ∙ ensure_salt_lem c d upgraded.0 upgraded.1
                ∙ (upgrade_password_lem c user password w).1,
            (cache_dek_lem d.early dek w1).1 ∙ stored,
            rw (login_with, e) refl,
          )
    ]

-- The check of the password comes first.
login_post_checked :
    (c : Crypto) (x : Settings) (now : ℕ) (d : Drawn) (email password : String) (w : Web)
    → ((login_post c x now d email password w).0.session ≡ none)
        × ((login_post c x now d email password w).0.pending ≡ none)
      ⊎ ((u : UserRow) × (get_user_by_email email w.store ≡ some u)
          × (check_password c.passwords u.password password ≡ true)
          × (login_post c x now d email password w ≡ login_with c x now d u password w))
unfolding login_post
login_post_checked c x now d email password w =
    elim (Option-cases (get_user_by_email email w.store)) [
      | inl e ↦ inl (rw (login_post, e) (refl, refl))
      | inr (u, e) ↦ elim (Bool-cases (check_password c.passwords u.password password)) [
        | inr k ↦ inl (rw (login_post, e, k) (refl, refl))
        | inl k ↦ inr (u, e, k, rw (login_post, e, k) refl)
      ]
    ]

-- With two-factor login, a password alone is answered with a session only if it is the user's, the
-- user has no second factor, and none is required.
pub login_post_lem :
    (c : Crypto) (x : Settings) (m : TwofaManager) (now : ℕ) (d : Drawn) (email password : String)
    (w : Web) (t : String)
    → x.twofa ≡ some m
    → (login_post c x now d email password w).0.session ≡ some t
    → (u : UserRow) × (get_user_by_email email w.store ≡ some u)
      × (check_password c.passwords u.password password ≡ true)
      × (has_method u.id w ≡ none)
      × (m.required ≡ false)
login_post_lem c x m now d email password w t a h =
    elim (login_post_checked c x now d email password w) [
      | inl (n, _) ↦ absurd (cc (n, h))
      | inr (u, e, k, same) ↦ elim (login_with_phases c x now d u password w) [
        | inl (n, _) ↦ absurd (cc (n, rw same at h))
        | inr (dek, w2, rest, rows, _, run) ↦
            let (free, optional) =
              second_phase-session x m now d u dek w2 t a (rw (same, run) at h) in
            (u, e, k, sym (has_method_same u.id w2 w rows) ∙ free, optional)
      ]
    ]

session_first :
    (token : String) (v : Web) (t : WebSession) (rest : List WebSession)
    → (t.token == token) ≡ true
    → v.web_sessions ≡ t ∷ rest
    → get_web_session token v ≡ some t
unfolding get_web_session find_where
session_first token v t rest e h = ap (find_where (λ r. r.token == token)) h ∙ rw e refl

-- A login that is sent on to its second factor has stored a session of its user already, the one
-- that loginPost draws before it asks whether there is a second factor.
pub login_post_early :
    (c : Crypto) (x : Settings) (now : ℕ) (d : Drawn) (email password : String) (w : Web)
    (p : String)
    → (login_post c x now d email password w).0.pending ≡ some p
    → (u : UserRow) × (get_user_by_email email w.store ≡ some u)
      × (get_web_session d.early (login_post c x now d email password w).1
          ≡ some (session_for now d.early u))
login_post_early c x now d email password w p h =
    elim (login_post_checked c x now d email password w) [
      | inl (_, n) ↦ absurd (cc (n, h))
      | inr (u, e, k, same) ↦ elim (login_with_phases c x now d u password w) [
        | inl (_, n) ↦ absurd (cc (n, rw same at h))
        | inr (dek, w2, rest, _, stored, run) ↦ (
          u,
          e,
          rw (same, run)
              (session_first d.early (second_phase x now d u dek w2).1 (session_for now d.early u)
                rest (eq_refl d.early)
                (second_phase-pending x now d u dek w2 p (rw (same, run) at h) ∙ stored)),
        )
      ]
    ]
