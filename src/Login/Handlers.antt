-- ===== src/Login/Handlers.antt =====
-- The handlers of the login: web/auth.go and web/twofa.go, with autoLogin of web/invite.go. Times are
-- nanoseconds, but for those of pending logins and setups, which are seconds.
use palaestra_mcp_bridge.Common.{
  ℕ, ◌+◌, ◌*◌, ◌/◌, String, Bool, not, Option, none, some, ◌⊎◌, inl, inr, ◌==◌, ltb, if◌then◌else◌,
}
use palaestra_mcp_bridge.Common.Dict.{lookup, insert, remove}
use palaestra_mcp_bridge.Auth.Tables.{
  UserRow, get_user, get_user_by_email, is_bcrypt, check_password, update_user,
}
use palaestra_mcp_bridge.Login.Twofa.{
  WebSession, PendingLogin, PendingSetup, Web, Crypto, TwofaManager, create_web_session,
  get_web_session, delete_web_session, has_method, verify_login, enable, delete_method,
}

-- `sessionTTL`
abbrev pub session_ttl : ℕ
session_ttl = 24 * 3600 * 1000000000

-- `pendingLoginTTL`
abbrev pub pending_login_ttl : ℕ
pending_login_ttl = 5 * 60

abbrev pub unix : ℕ → ℕ
unix now = now / 1000000000

pub record Settings : Type 0 where
  pub twofa : Option TwofaManager
  pub twofa_bypass : Bool

-- The cookies of a request; without one, an empty text.
pub record Cookies : Type 0 where
  pub session : String
  pub pending : String
  pub setup : String

pub data Page : Type 0 where
  -- a page that shows this error
  shows : String → Page
  redirect : String → Page
  http_error : ℕ → Page

-- A response, with the cookies that it gives to the browser.
pub record Response : Type 0 where
  pub page : Page
  pub session : Option String
  pub pending : Option String
  pub setup : Option String

abbrev pub plain : Page → Response
plain page = record { page = page; session = none; pending = none; setup = none }

-- The tokens that are drawn at random: for the sessions of loginPost and completeLogin, and for
-- pending logins and setups, none when the system's source of randomness fails; and a salt.
pub record Drawn : Type 0 where
  pub early : String
  pub session : String
  pub pending : Option String
  pub salt : Option String

-- `getSessionUser`
unfoldable pub get_session_user : ℕ → String → Web → Option UserRow × Web
get_session_user now token w = elim (get_web_session token w) [
  | none ↦ (none, w)
  | some sess ↦
      if ltb sess.expires_at now
      then (none, delete_web_session sess.token w)
      else (get_user sess.user_id w.store, w)
]

-- `requireAuth` and `requireAdmin`: the user who is let in, or the answer.
unfoldable pub require_auth : ℕ → String → Web → (UserRow ⊎ Page) × Web
require_auth now token w =
    let (user, w') = get_session_user now token w in
    elim user [ none ↦ (inr (redirect "/web/login"), w') | some u ↦ (inl u, w') ]

unfoldable pub require_admin : ℕ → String → Web → (UserRow ⊎ Page) × Web
require_admin now token w =
    let (user, w') = require_auth now token w in
    elim user [
      | inr page ↦ (inr page, w')
      | inl u ↦ (if u.role == "admin" then inl u else inr (http_error 403), w')
    ]

-- `getPending`
unfoldable pub get_pending : ℕ → String → Web → Option PendingLogin × Web
get_pending now token w = if token == "" then (none, w) else elim (lookup token w.pending_logins) [
  | none ↦ (none, w)
  | some p ↦
      if ltb p.expires_at (unix now)
      then (none, record w { pending_logins = remove token w.pending_logins })
      else (some p, w)
]

-- `startPendingLogin` and the redirection that follows it
unfoldable pub start_pending_login :
    ℕ → Drawn → UserRow → Option String → String → String → Web → Response × Web
start_pending_login now d user dek method target w = elim d.pending [
  | none ↦ (plain (http_error 500), w)
  | some token ↦ (
    record (plain (redirect target)) { pending = some token },
    record w {
      pending_logins =
          insert token
            (record {
              user_id = user.id;
              method = method;
              dek = dek;
              expires_at = unix now + pending_login_ttl;
            })
            w.pending_logins;
    },
  )
]

unfoldable pub cache_dek : String → Option String → Web → Web
cache_dek token none w = w
cache_dek token (some dek) w = record w { session_deks = insert token dek w.session_deks }

abbrev pub session_for : ℕ → String → UserRow → WebSession
session_for now token user = record {
  token = token;
  user_id = user.id;
  expires_at = now + session_ttl;
}

-- `completeLogin` and the redirection that follows it
unfoldable pub complete_login : ℕ → Drawn → UserRow → Option String → Web → Response × Web
complete_login now d user dek w = elim (create_web_session (session_for now d.session user) w) [
  | none ↦ (plain (http_error 500), w)
  | some w' ↦
      (record (plain (redirect "/web/")) { session = some d.session }, cache_dek d.session dek w')
]

-- The end of `loginPost`, and `autoLogin`: to the second factor if there is one.
unfoldable pub second_phase : Settings → ℕ → Drawn → UserRow → Option String → Web → Response × Web
second_phase x now d user dek w = elim x.twofa [
  | none ↦ complete_login now d user dek w
  | some m ↦ elim (has_method user.id w) [
    | some method ↦ start_pending_login now d user dek method "/web/login/2fa" w
    | none ↦
        if m.required
        then start_pending_login now d user dek "" "/web/setup-2fa" w
        else complete_login now d user dek w
  ]
]

-- A plaintext password is hashed on login; the user as the code goes on with it.
unfoldable pub upgrade_password : Crypto → UserRow → String → Web → UserRow × Web
upgrade_password c user password w =
    if is_bcrypt user.password then (user, w) else elim (c.passwords.hash_password password) [
      | none ↦ (user, w)
      | some hash ↦
          let user' = record user { password = hash } in
          (user', record w { store = (update_user c.passwords user' w.store).0 })
    ]

unfoldable pub salt_of : String → Web → String
salt_of user w = elim (lookup user w.salts) [ none ↦ "" | some salt ↦ salt ]

-- The salt of the user, a new one where there was none; it is stored if `UpdateUser` succeeds.
unfoldable pub ensure_salt : Crypto → Drawn → UserRow → Web → String × Web
ensure_salt c d user w =
    let salt = salt_of user.id w in
    let (store, ok) = update_user c.passwords user w.store in
    if salt == ""
    then elim d.salt [
      | none ↦ (salt, w)
      | some new ↦
          (new, if ok then record w { store = store; salts = insert user.id new w.salts } else w)
    ]
    else (salt, w)

unfoldable pub derive : Crypto → String → String → Option String
derive c password salt = if salt == "" then none else c.derive_user_dek password salt

-- `loginPost` after the check of the password: a session is stored before the second factor.
unfoldable pub login_with : Crypto → Settings → ℕ → Drawn → UserRow → String → Web → Response × Web
login_with c x now d user password w =
    let (user', w0) = upgrade_password c user password w in
    let (salt, w1) = ensure_salt c d user' w0 in
    let dek = derive c password salt in
    elim (create_web_session (session_for now d.early user) w1) [
      | none ↦ (plain (http_error 500), w1)
      | some w2 ↦ second_phase x now d user dek (cache_dek d.early dek w2)
    ]

-- `loginPost`, for an email without blanks around it
unfoldable pub login_post : Crypto → Settings → ℕ → Drawn → String → String → Web → Response × Web
login_post c x now d email password w = elim (get_user_by_email email w.store) [
  | none ↦ (plain (shows "Invalid email or password"), w)
  | some user ↦
      if check_password c.passwords user.password password
      then login_with c x now d user password w
      else (plain (shows "Invalid email or password"), w)
]

-- `autoLogin`
unfoldable pub auto_login : Crypto → Settings → ℕ → Drawn → UserRow → String → Web → Response × Web
auto_login c x now d user password w =
    second_phase x now d user (derive c password (salt_of user.id w)) w

-- The pending login is used up, and its cookie cleared.
unfoldable pub finish_pending : ℕ → Drawn → Cookies → UserRow → Option String → Web → Response × Web
finish_pending now d k user dek w =
    let (r, w') =
      complete_login now d user dek
        (record w { pending_logins = remove k.pending w.pending_logins }) in
    (record r { pending = some "" }, w')

-- `login2FAPost` without the bypass, on a pending login with a method
unfoldable pub login_2fa_verified :
    Crypto → TwofaManager → ℕ → Drawn → Cookies → String → PendingLogin → Web → Response × Web
login_2fa_verified c m now d k code p w =
    if p.method == ""
    then (plain (redirect "/web/setup-2fa"), w)
    else if not (verify_login c m now p.user_id p.method code p.dek w)
    then (plain (shows "Invalid code. Please try again."), w)
    else elim (get_user p.user_id w.store) [
      | none ↦ (plain (http_error 500), w)
      | some user ↦ finish_pending now d k user p.dek w
    ]

-- `login2FAPost` on a pending login. With the bypass, a login without redirection.
unfoldable pub login_2fa_pending :
    Crypto
    → Settings
    → TwofaManager
    → ℕ
    → Drawn
    → Cookies
    → String
    → PendingLogin
    → Web
    → Response × Web
login_2fa_pending c x m now d k code p w =
    let checked = login_2fa_verified c m now d k code p w in
    if x.twofa_bypass
    then elim (get_user p.user_id w.store) [
      | none ↦ checked
      | some user ↦
          let (r, w') = finish_pending now d k user p.dek w in (record r { page = shows "" }, w')
    ]
    else checked

-- `login2FAPost`, for a code without blanks around it
unfoldable pub login_2fa_post :
    Crypto → Settings → TwofaManager → ℕ → Drawn → Cookies → String → Web → Response × Web
login_2fa_post c x m now d k code w =
    let (found, w') = get_pending now k.pending w in
    elim found [
      | none ↦ (plain (redirect "/web/login"), w')
      | some p ↦ login_2fa_pending c x m now d k code p w'
    ]

-- `getSessionDEK`, and `twoFACreds`: the user and the key of a pending login, or of the session.
abbrev pub get_session_dek : String → Web → Option String
get_session_dek token w = lookup token w.session_deks

unfoldable pub twofa_creds : ℕ → Cookies → Web → Option (String × Option String) × Web
twofa_creds now k w =
    let (found, w1) = get_pending now k.pending w in
    elim found [
      | some p ↦ (some (p.user_id, p.dek), w1)
      | none ↦
          let (user, w2) = get_session_user now k.session w1 in
          elim user [ none ↦ (none, w2) | some u ↦ (some (u.id, get_session_dek k.session w2), w2) ]
    ]

-- `setup2FAPost` once the code is right and the method is stored
unfoldable pub setup_2fa_enabled :
    ℕ → Drawn → Cookies → PendingSetup → UserRow → Web → Response × Web
setup_2fa_enabled now d k ps user w =
    let w1 = record w { pending_setups = remove k.setup w.pending_setups } in
    let (r, w2) = finish_pending now d k user ps.dek w1 in
    if ps.forced
    then (record r { setup = some "" }, w2)
    else (record (plain (redirect "/web/2fa?success=2FA+enabled")) { setup = some "" }, w1)

-- `setup2FAPost` on a setup that has not expired
unfoldable pub setup_2fa_confirm :
    Crypto → TwofaManager → ℕ → Drawn → Cookies → String → PendingSetup → Web → Response × Web
setup_2fa_confirm c m now d k code ps w = elim ps.dek [
  | none ↦ (plain (shows "Your session cannot enable two-factor authentication"), w)
  | some _ ↦ elim (enable c m now ps.user_id ps.method ps.secret code ps.dek w) [
    | none ↦ (plain (shows "Invalid code"), w)
    | some w1 ↦ elim (get_user ps.user_id w1.store) [
      | none ↦ (plain (http_error 500), w1)
      | some user ↦ setup_2fa_enabled now d k ps user w1
    ]
  ]
]

-- `setup2FAPost`
unfoldable pub setup_2fa_post :
    Crypto → TwofaManager → ℕ → Drawn → Cookies → String → Web → Response × Web
setup_2fa_post c m now d k code w =
    if k.setup == ""
    then (plain (redirect "/web/login"), w)
    else elim (lookup k.setup w.pending_setups) [
      | none ↦ (plain (redirect "/web/login"), w)
      | some ps ↦
          if ltb ps.expires_at (unix now)
          then (
            plain (redirect "/web/login"),
            record w { pending_setups = remove k.setup w.pending_setups },
          )
          else setup_2fa_confirm c m now d k code ps w
    ]

-- `LogoutHandler`
unfoldable pub logout : String → Web → Response × Web
logout token w = (
  record (plain (redirect "/web/login")) { session = some "" },
  delete_web_session token (record w { session_deks = remove token w.session_deks }),
)

-- `twoFADisablePost`
unfoldable pub twofa_disable_post : Settings → String → UserRow → Web → Page × Web
twofa_disable_post x action user w = elim x.twofa [
  | none ↦ (redirect "/web/2fa?error=2FA+not+available", w)
  | some _ ↦
      if not (action == "disable")
      then (redirect "/web/2fa", w)
      else (redirect "/web/2fa?success=2FA+disabled", delete_method user.id w)
]

-- `AdminUsers2FAResetHandler`, on a POST
unfoldable pub admin_users_2fa_reset : String → Web → Page × Web
admin_users_2fa_reset user w =
    if user == ""
    then (redirect "/web/admin/users?error=Missing+user", w)
    else (redirect "/web/admin/users?success=2FA+reset", delete_method user w)
