-- ===== src/Login/Safety.antt =====
-- Whom the login lets in: web/auth.go, web/twofa.go, internal/twofa/twofa.go.
use palaestra_mcp_bridge.Common.{
  ℕ, ◌≤◌, ◌≡◌, refl, sym, ap, ◌∙◌, String, true, false, Option, none, some, ◌∷◌, ◌==◌, ltb,
  Bool-cases, Option-cases, inl, inr, eq_iff, eq_refl, arith,
}
use palaestra_mcp_bridge.Common.Dict.{lookup, remove, lookup-remove}
use palaestra_mcp_bridge.Common.Tables.{
  find_where, set_where, find_where_sound, find_where-delete_where_sound, find_where-set_where_self,
}
use palaestra_mcp_bridge.Auth.Tables.{UserRow, get_user}
use palaestra_mcp_bridge.Login.Twofa.{
  WebSession, TwofaRow, PendingLogin, Web, Crypto, TwofaManager, create_web_session,
  get_web_session, has_method, verify_login, enable, delete_method, revoke_web_sessions,
  delete_user_2fa, set_user_2fa, write_user_2fa, two_factor_row, get_user_2fa, get_user_2fa_secret,
  has_id, verify,
}
use palaestra_mcp_bridge.Login.Handlers.{
  Settings, Cookies, Drawn, session_for, unix, get_session_user, get_pending, cache_dek,
  complete_login, finish_pending, login_2fa_verified, login_2fa_pending, login_2fa_post,
}

-- Whom a session serves: the user of its row, until it expires.
pub get_session_user_lem :
    (now : ℕ) (token : String) (u : UserRow) (w : Web)
    → (get_session_user now token w).0 ≡ some u
    → (t : WebSession) × (get_web_session token w ≡ some t)
      × (now ≤ t.expires_at)
      × (get_user t.user_id w.store ≡ some u)
unfolding get_session_user
get_session_user_lem now token u w h = elim (Option-cases (get_web_session token w)) [
  | inl e ↦ absurd (cc (rw (get_session_user, e) at h))
  | inr (t, e) ↦ elim (Bool-cases (ltb t.expires_at now)) [
    | inl k ↦ absurd (cc (rw (get_session_user, e, k) at h))
    | inr k ↦ (t, e, ground arith, rw (get_session_user, e, k) at h)
  ]
]

-- Once the second factor of a user is deleted, no web session serves this user, whatever its token
-- and at any time.
pub get_session_user-delete_method :
    (user token : String) (later : ℕ) (u : UserRow) (w : Web)
    → (get_session_user later token (delete_method user w)).0 ≡ some u
    → (u.id == user) ≡ false
unfolding delete_method revoke_web_sessions delete_user_2fa get_web_session get_user
get_session_user-delete_method user token later u w h =
    let (sess, e, _, found) = get_session_user_lem later token u (delete_method user w) h in
    let same : u.id ≡ sess.user_id =
      (eq_iff u.id sess.user_id).0
        (find_where_sound (λ r. r.id == sess.user_id) w.store.users found) in
    rw same (
      find_where-delete_where_sound (λ t. t.token == token) (λ t. t.user_id == user) w.web_sessions
        e)

complete_login_session :
    (now : ℕ) (d : Drawn) (user : UserRow) (dek : Option String) (w : Web) (t : String)
    → (complete_login now d user dek w).0.session ≡ some t
    → t ≡ d.session
unfolding complete_login
complete_login_session now d user dek w t h =
    elim (Option-cases (create_web_session (session_for now d.session user) w)) [
      | inl e ↦ absurd (cc (rw (complete_login, e) at h))
      | inr (w', e) ↦ cc (rw (complete_login, e) at h)
    ]

finish_pending_session :
    (now : ℕ) (d : Drawn) (k : Cookies) (user : UserRow) (dek : Option String) (w : Web)
    (t : String)
    → (finish_pending now d k user dek w).0.session ≡ some t
    → t ≡ d.session
unfolding finish_pending
finish_pending_session now d k user dek w t h =
    complete_login_session now d user dek
      (record w { pending_logins = remove k.pending w.pending_logins }) t h

complete_login_pending :
    (now : ℕ) (d : Drawn) (user : UserRow) (dek : Option String) (w : Web)
    → (complete_login now d user dek w).1.pending_logins ≡ w.pending_logins
unfolding complete_login create_web_session cache_dek
complete_login_pending now d user dek w = ground arith

get_pending_lem :
    (now : ℕ) (token : String) (w : Web) (p : PendingLogin)
    → (get_pending now token w).0 ≡ some p
    → (lookup token w.pending_logins ≡ some p)
      × (unix now ≤ p.expires_at)
      × ((get_pending now token w).1 ≡ w)
unfolding get_pending
get_pending_lem now token w p h = ground arith

-- A login that awaits no more is not found.
get_pending_absent :
    (now : ℕ) (token : String) (w : Web)
    → lookup token w.pending_logins ≡ none
    → (get_pending now token w).0 ≡ none
unfolding get_pending
get_pending_absent now token w h = ground arith

-- A login waits for its second factor until it is finished.
finish_pending_used :
    (now later : ℕ) (d : Drawn) (k : Cookies) (user : UserRow) (dek : Option String) (w : Web)
    → (get_pending later k.pending (finish_pending now d k user dek w).1).0 ≡ none
unfolding finish_pending
finish_pending_used now later d k user dek w =
    let w0 : Web = record w { pending_logins = remove k.pending w.pending_logins } in
    get_pending_absent later k.pending (complete_login now d user dek w0).1 (
      ap (lookup k.pending) (complete_login_pending now d user dek w0)
      ∙ lookup-remove k.pending k.pending w.pending_logins
      ∙ rw (eq_refl k.pending) refl)

complete_login_stored :
    (now : ℕ) (d : Drawn) (user : UserRow) (dek : Option String) (w : Web) (t : String)
    → (complete_login now d user dek w).0.session ≡ some t
    → (complete_login now d user dek w).1.web_sessions
      ≡ session_for now d.session user ∷ w.web_sessions
unfolding complete_login cache_dek create_web_session
complete_login_stored now d user dek w t h =
    elim (Option-cases (create_web_session (session_for now d.session user) w)) [
      | inl e ↦ absurd (cc (rw (complete_login, e) at h))
      | inr (w', e) ↦
          rw (complete_login, e) (cached dek w' ∙ created (session_for now d.session user) w w' e)
    ]
  where
    cached :
        (key : Option String) (v : Web) → (cache_dek d.session key v).web_sessions ≡ v.web_sessions
    cached none v = refl
    cached (some k) v = refl

    created :
        (r : WebSession) (v v' : Web)
        → create_web_session r v ≡ some v'
        → v'.web_sessions ≡ r ∷ v.web_sessions
    created r v v' e = ground arith

login_2fa_verified_lem :
    (c : Crypto) (m : TwofaManager) (now later : ℕ) (d : Drawn) (k : Cookies) (code : String)
    (p : PendingLogin) (w : Web) (t : String)
    → (login_2fa_verified c m now d k code p w).0.session ≡ some t
    → (verify_login c m now p.user_id p.method code p.dek w ≡ true)
      × ((user : UserRow) × (get_user p.user_id w.store ≡ some user)
          × ((login_2fa_verified c m now d k code p w).1.web_sessions
              ≡ session_for now t user ∷ w.web_sessions))
      × ((get_pending later k.pending (login_2fa_verified c m now d k code p w).1).0 ≡ none)
unfolding login_2fa_verified finish_pending
login_2fa_verified_lem c m now later d k code p w t h = elim (Bool-cases (p.method == "")) [
  | inl a ↦ absurd (cc (rw (login_2fa_verified, a) at h))
  | inr a ↦ elim (Bool-cases (verify_login c m now p.user_id p.method code p.dek w)) [
    | inr b ↦ absurd (cc (rw (login_2fa_verified, a, b) at h))
    | inl b ↦ elim (Option-cases (get_user p.user_id w.store)) [
      | inl e ↦ absurd (cc (rw (login_2fa_verified, a, b, e) at h))
      | inr (user, e) ↦ (
        b,
        (user, e, rw (a, b, e) (stored user (rw (login_2fa_verified, a, b, e) at h))),
        rw (a, b, e) (finish_pending_used now later d k user p.dek w),
      )
    ]
  ]
]
  where
    stored :
        (user : UserRow)
        → (finish_pending now d k user p.dek w).0.session ≡ some t
        → (finish_pending now d k user p.dek w).1.web_sessions
          ≡ session_for now t user ∷ w.web_sessions
    stored user e =
        complete_login_stored now d user p.dek
          (record w { pending_logins = remove k.pending w.pending_logins }) t e
        ∙ ap (λ token. session_for now token user ∷ w.web_sessions)
            (sym (finish_pending_session now d k user p.dek w t e))

login_2fa_post_pending :
    (c : Crypto) (x : Settings) (m : TwofaManager) (now : ℕ) (d : Drawn) (k : Cookies)
    (code : String) (p : PendingLogin) (w : Web)
    → x.twofa_bypass ≡ false
    → get_pending now k.pending w ≡ (some p, w)
    → login_2fa_post c x m now d k code w ≡ login_2fa_verified c m now d k code p w
unfolding login_2fa_post login_2fa_pending
login_2fa_post_pending c x m now d k code p w b e =
    rw (login_2fa_post, e, login_2fa_pending, b)
      (ap (login_2fa_verified c m now d k code p) (ap (λ z. z.1) e))

-- Without the bypass, a challenge is answered with a session only if the cookie is that of a pending
-- login which has not expired, and the code passes for its user and method; the session that is
-- stored under the token is one of this user, and the pending login is used up.
pub login_2fa_post_lem :
    (c : Crypto) (x : Settings) (m : TwofaManager) (now later : ℕ) (d : Drawn) (k : Cookies)
    (code : String) (w : Web) (t : String)
    → x.twofa_bypass ≡ false
    → (login_2fa_post c x m now d k code w).0.session ≡ some t
    → (p : PendingLogin) × (lookup k.pending w.pending_logins ≡ some p)
      × (unix now ≤ p.expires_at)
      × (verify_login c m now p.user_id p.method code p.dek w ≡ true)
      × ((user : UserRow) × (get_user p.user_id w.store ≡ some user)
          × ((login_2fa_post c x m now d k code w).1.web_sessions
              ≡ session_for now t user ∷ w.web_sessions))
      × ((get_pending later k.pending (login_2fa_post c x m now d k code w).1).0 ≡ none)
unfolding login_2fa_post
login_2fa_post_lem c x m now later d k code w t b h =
    elim (Option-cases (get_pending now k.pending w).0) [
      | inl e ↦ absurd (cc (rw (login_2fa_post, e) at h))
      | inr (p, e) ↦
          let (found, live, same) = get_pending_lem now k.pending w p e in
          let (ok, fresh, used) =
            login_2fa_verified_lem c m now later d k code p w t (rw (run p e same) at h) in
          (p, found, live, ok, rw (run p e same) fresh, rw (run p e same) used)
    ]
  where
    run :
        (p : PendingLogin)
        → (get_pending now k.pending w).0 ≡ some p
        → (get_pending now k.pending w).1 ≡ w
        → login_2fa_post c x m now d k code w ≡ login_2fa_verified c m now d k code p w
    run p e same =
        login_2fa_post_pending c x m now d k code p w b
          (ap (λ v. (v, (get_pending now k.pending w).1)) e ∙ ap (λ v. (some p, v)) same)

two_factor_row_first :
    (row : TwofaRow) (w : Web)
    → two_factor_row row.user_id (record w { user_2fa = row ∷ w.user_2fa }) ≡ some row
unfolding two_factor_row find_where
two_factor_row_first row w = rw (eq_refl row.user_id) refl

two_factor_row_set :
    (row r : TwofaRow) (w : Web)
    → two_factor_row row.user_id w ≡ some r
    → two_factor_row row.user_id
        (record w { user_2fa = set_where (λ v. v.user_id == row.user_id) (λ _. row) w.user_2fa })
      ≡ some row
unfolding two_factor_row
two_factor_row_set row r w e =
    find_where-set_where_self (λ v. v.user_id == row.user_id) row w.user_2fa (eq_refl row.user_id) e

two_factor_row-write_user_2fa :
    (row : TwofaRow) (w : Web) → two_factor_row row.user_id (write_user_2fa row w) ≡ some row
unfolding write_user_2fa
two_factor_row-write_user_2fa row w = elim (Option-cases (two_factor_row row.user_id w)) [
  | inl e ↦ rw (write_user_2fa, e) (two_factor_row_first row w)
  | inr (r, e) ↦ rw (write_user_2fa, e) (two_factor_row_set row r w e)
]

abbrev row_of : String → String → String → TwofaRow
row_of user method sealed = record {
  user_id = user;
  method = method;
  secret = sealed;
  enabled = true;
}

enable_lem :
    (c : Crypto) (m : TwofaManager) (now : ℕ) (user method secret code dek : String) (w w' : Web)
    → enable c m now user method secret code (some dek) w ≡ some w'
    → (has_id method m.order ≡ true)
      × ((sealed : String) × (c.wrap dek secret ≡ some sealed)
          × (w' ≡ write_user_2fa (row_of user method sealed) w))
unfolding enable set_user_2fa
enable_lem c m now user method secret code dek w w' h = ground arith

enrolled :
    (c : Crypto) (m : TwofaManager) (later : ℕ) (user method secret code dek sealed : String)
    (w : Web)
    → has_id method m.order ≡ true
    → c.unwrap dek sealed ≡ some secret
    → (sealed == "") ≡ false
    → two_factor_row user w ≡ some (row_of user method sealed)
    → (has_method user w ≡ some method)
      × (verify_login c m later user method code (some dek) w ≡ verify c later secret code)
unfolding has_method get_user_2fa verify_login get_user_2fa_secret
enrolled c m later user method secret code dek sealed w i u n r =
    (rw (has_method, get_user_2fa, r) refl, rw (verify_login, i, get_user_2fa_secret, r, n, u) refl)

-- After the enrollment of a method, this method is asked for, and a code that its secret validates
-- passes the login's check, at any later time; if what is stored can be unwrapped and is not empty.
pub enable-verify_login :
    (c : Crypto) (m : TwofaManager) (now later : ℕ) (user method secret first code dek : String)
    (w w' : Web)
    → ((key text sealed : String)
        → c.wrap key text ≡ some sealed
        → (c.unwrap key sealed ≡ some text) × ((sealed == "") ≡ false))
    → enable c m now user method secret first (some dek) w ≡ some w'
    → (has_method user w' ≡ some method)
      × (verify_login c m later user method code (some dek) w' ≡ verify c later secret code)
enable-verify_login c m now later user method secret first code dek w w' law h =
    let (known, (sealed, e, same)) = enable_lem c m now user method secret first dek w w' h in
    let (u, n) = law dek secret sealed e in
    enrolled c m later user method secret code dek sealed w' known u n
      (ap (two_factor_row user) same ∙ two_factor_row-write_user_2fa (row_of user method sealed) w)
