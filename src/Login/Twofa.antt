-- ===== src/Login/Twofa.antt =====
-- The sessions and the second factors of users: the web sessions of store/apikey.go, store/twofa.go,
-- and the manager of internal/twofa/twofa.go. The functions of internal/crypto, of the key store and
-- of the TOTP library are parameters; a key that is nil is none.
use palaestra_mcp_bridge.Common.{
  ℕ, String, Bool, true, false, ◌&&◌, not, Option, none, some, List, [], ◌∷◌, ◌==◌, ltb,
  if◌then◌else◌,
}
use palaestra_mcp_bridge.Common.Dict.{Dict}
use palaestra_mcp_bridge.Common.Tables.{find_where, delete_where, set_where}
use palaestra_mcp_bridge.Auth.Tables.{Store, Library, get_user}

pub record WebSession : Type 0 where
  pub token : String
  pub user_id : String
  pub expires_at : ℕ

pub record TwofaRow : Type 0 where
  pub user_id : String
  pub method : String
  pub secret : String
  pub enabled : Bool

-- A login whose password was right and whose second factor is awaited.
pub record PendingLogin : Type 0 where
  pub user_id : String
  pub method : String
  pub dek : Option String
  -- in seconds
  pub expires_at : ℕ

pub record PendingSetup : Type 0 where
  pub user_id : String
  pub method : String
  pub secret : String
  pub dek : Option String
  pub forced : Bool
  -- in seconds
  pub expires_at : ℕ

-- The tables and the maps in memory. The salts of the users are kept beside their rows.
pub record Web : Type 0 where
  pub store : Store
  pub salts : Dict String
  pub web_sessions : List WebSession
  pub user_2fa : List TwofaRow
  pub session_deks : Dict String
  pub pending_logins : Dict PendingLogin
  pub pending_setups : Dict PendingSetup

-- DeriveUserDEK; EncryptSecret with AES256GCMEncrypt and what undoes it; whether TOTP validates a
-- code against a secret at a time.
pub record Crypto : Type 0 where
  pub passwords : Library
  pub derive_user_dek : String → String → Option String
  pub wrap : String → String → Option String
  pub unwrap : String → String → Option String
  pub validate : ℕ → String → String → Bool

-- `CreateWebSession`
unfoldable pub create_web_session : WebSession → Web → Option Web
create_web_session sess w = elim (find_where (λ t. t.token == sess.token) w.web_sessions) [
  | some _ ↦ none
  | none ↦ elim (get_user sess.user_id w.store) [
    | none ↦ none
    | some _ ↦ some (record w { web_sessions = sess ∷ w.web_sessions })
  ]
]

unfoldable pub get_web_session : String → Web → Option WebSession
get_web_session token w = find_where (λ t. t.token == token) w.web_sessions

unfoldable pub delete_web_session : String → Web → Web
delete_web_session token w = record w {
  web_sessions = delete_where (λ t. t.token == token) w.web_sessions;
}

unfoldable pub delete_expired_web_sessions : ℕ → Web → Web
delete_expired_web_sessions now w = record w {
  web_sessions = delete_where (λ t. ltb t.expires_at now) w.web_sessions;
}

unfoldable pub revoke_web_sessions : String → Web → Web
revoke_web_sessions user w = record w {
  web_sessions = delete_where (λ t. t.user_id == user) w.web_sessions;
}

unfoldable pub two_factor_row : String → Web → Option TwofaRow
two_factor_row user w = find_where (λ r. r.user_id == user) w.user_2fa

-- `GetUser2FA`
unfoldable pub get_user_2fa : String → Web → String × Bool
get_user_2fa user w = elim (two_factor_row user w) [
  | none ↦ ("", false)
  | some r ↦ (r.method, r.enabled)
]

-- The INSERT of `SetUser2FA`, which replaces the row of the user.
unfoldable pub write_user_2fa : TwofaRow → Web → Web
write_user_2fa row w = elim (two_factor_row row.user_id w) [
  | none ↦ record w { user_2fa = row ∷ w.user_2fa }
  | some _ ↦ record w { user_2fa = set_where (λ r. r.user_id == row.user_id) (λ _. row) w.user_2fa }
]

-- `SetUser2FA`: none for its errors.
unfoldable pub set_user_2fa : Crypto → String → String → String → Option String → Web → Option Web
set_user_2fa c user method secret none w = none
set_user_2fa c user method secret (some dek) w = elim (c.wrap dek secret) [
  | none ↦ none
  | some stored ↦ elim (get_user user w.store) [
    | none ↦ none
    | some _ ↦ some (
        write_user_2fa (record { user_id = user; method = method; secret = stored; enabled = true })
          w)
  ]
]

-- `GetUser2FASecret`
unfoldable pub get_user_2fa_secret : Crypto → String → Option String → Web → Option String
get_user_2fa_secret c user none w = none
get_user_2fa_secret c user (some dek) w = elim (two_factor_row user w) [
  | none ↦ none
  | some r ↦ if r.secret == "" then none else c.unwrap dek r.secret
]

-- `DeleteUser2FA`
unfoldable pub delete_user_2fa : String → Web → Web
delete_user_2fa user w = record w { user_2fa = delete_where (λ r. r.user_id == user) w.user_2fa }

-- The manager; every method it may hold is the registered one, TOTP.
pub record TwofaManager : Type 0 where
  pub required : Bool
  pub order : List String

abbrev pub registered_method : String
registered_method = "totp"

unfoldable pub all_registered : List String → Bool
all_registered [] = true
all_registered (id ∷ ids) = (id == registered_method) && all_registered ids

-- `NewManager`
unfoldable pub new_manager : List String → Bool → Option TwofaManager
new_manager [] required = none
new_manager (id ∷ ids) required =
    if all_registered (id ∷ ids)
    then some (record { required = required; order = id ∷ ids })
    else none

unfoldable pub has_id : String → List String → Bool
has_id id [] = false
has_id id (x ∷ xs) = if x == id then true else has_id id xs

-- `HasMethod`
unfoldable pub has_method : String → Web → Option String
has_method user w =
    let (method, enabled) = get_user_2fa user w in if enabled then some method else none

-- `Verify` of TOTP
unfoldable pub verify : Crypto → ℕ → String → String → Bool
verify c now secret code = if code == "" then false else c.validate now secret code

-- `VerifyLogin`
unfoldable pub verify_login :
    Crypto → TwofaManager → ℕ → String → String → String → Option String → Web → Bool
verify_login c m now user method code dek w =
    if not (has_id method m.order) then false else elim (get_user_2fa_secret c user dek w) [
      | none ↦ false
      | some secret ↦ verify c now secret code
    ]

-- `Enable`: none for its errors.
unfoldable pub enable :
    Crypto → TwofaManager → ℕ → String → String → String → String → Option String → Web → Option Web
enable c m now user method secret code dek w =
    if not (has_id method m.order)
    then none
    else if not (verify c now secret code)
    then none
    else set_user_2fa c user method secret dek w

-- `Delete` of the manager
unfoldable pub delete_method : String → Web → Web
delete_method user w = revoke_web_sessions user (delete_user_2fa user w)
