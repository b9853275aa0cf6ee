-- ===== src/Auth/Tables.antt =====
-- The tables of users, clients, codes, sessions and API keys: store/user.go, store/oauth.go and
-- store/apikey.go. Ids and tokens that are drawn at random are arguments. A missing row and a
-- refused INSERT (a primary key that is taken, a user who does not exist) are none.
use Prim.Native.String.{len, slice}
use palaestra_mcp_bridge.Common.{
  ℕ, String, Bool, true, false, ◌&&◌, ◌||◌, Option, none, some, List, ◌∷◌, ◌==◌, ltb, if◌then◌else◌,
}
use palaestra_mcp_bridge.Common.Tables.{find_where, delete_where, set_where}

pub record UserRow : Type 0 where
  pub id : String
  pub email : String
  pub password : String
  pub role : String

pub record OauthClient : Type 0 where
  pub client_id : String
  pub redirect_uris : List String
  pub client_name : String

pub record OauthCode : Type 0 where
  pub code : String
  pub user_id : String
  pub client_id : String
  pub redirect_uri : String
  pub code_challenge : String
  pub scope : String
  pub expires_at : ℕ

pub record OauthSession : Type 0 where
  pub access_token : String
  pub refresh_token : String
  pub user_id : String
  pub client_id : String
  pub scope : String
  pub expires_at : ℕ

pub record ApiKey : Type 0 where
  pub id : String
  pub user_id : String
  pub name : String
  pub key_hash : String
  pub expires_at : Option ℕ
  pub last_used_at : Option ℕ

pub record Store : Type 0 where
  pub users : List UserRow
  pub clients : List OauthClient
  pub codes : List OauthCode
  pub sessions : List OauthSession
  pub api_keys : List ApiKey

-- What the code uses of bcrypt, SHA-256 with base64, and the comparison of strings up to case.
pub record Library : Type 0 where
  pub matches_hash : String → String → Bool
  pub hash_password : String → Option String
  pub s256 : String → String
  pub equal_fold : String → String → Bool

-- `GetUser` and `GetUserByEmail`
unfoldable pub get_user : String → Store → Option UserRow
get_user id s = find_where (λ u. u.id == id) s.users

unfoldable pub get_user_by_email : String → Store → Option UserRow
get_user_by_email email s = find_where (λ u. u.email == email) s.users

-- `IsBcrypt`
unfoldable pub is_bcrypt : String → Bool
is_bcrypt s =
    let head = slice s 0 4 in
    ltb 4 (len s) && (head == "$2a$" || (head == "$2b$" || head == "$2y$"))

-- `CheckPassword`: whether the candidate matches.
unfoldable pub check_password : Library → String → String → Bool
check_password lib stored plain =
    if is_bcrypt stored then lib.matches_hash plain stored else stored == plain

-- `UpdateUser`, which stores no plaintext: false for its error.
unfoldable pub update_user : Library → UserRow → Store → Store × Bool
update_user lib u s =
    let write =
      λ (v : UserRow). record s { users = set_where (λ r. r.id == u.id) (λ _. v) s.users } in
    if is_bcrypt u.password || u.password == ""
    then (write u, true)
    else elim (lib.hash_password u.password) [
      | none ↦ (s, false)
      | some hash ↦ (write (record u { password = hash }), true)
    ]

-- `DeleteUser`, with the cascade of the foreign keys.
unfoldable pub delete_user : String → Store → Store
delete_user id s = record s {
  users = delete_where (λ u. u.id == id) s.users;
  codes = delete_where (λ c. c.user_id == id) s.codes;
  sessions = delete_where (λ t. t.user_id == id) s.sessions;
  api_keys = delete_where (λ k. k.user_id == id) s.api_keys;
}

unfoldable pub get_oauth_client : String → Store → Option OauthClient
get_oauth_client id s = find_where (λ c. c.client_id == id) s.clients

unfoldable pub create_oauth_client : OauthClient → Store → Option Store
create_oauth_client c s = elim (get_oauth_client c.client_id s) [
  | some _ ↦ none
  | none ↦ some (record s { clients = c ∷ s.clients })
]

unfoldable pub delete_oauth_client : String → Store → Store
delete_oauth_client id s = record s { clients = delete_where (λ c. c.client_id == id) s.clients }

unfoldable pub get_oauth_code : String → Store → Option OauthCode
get_oauth_code code s = find_where (λ c. c.code == code) s.codes

unfoldable pub create_oauth_code : OauthCode → Store → Option Store
create_oauth_code c s = elim (get_oauth_code c.code s) [
  | some _ ↦ none
  | none ↦ elim (get_user c.user_id s) [
    | none ↦ none
    | some _ ↦ some (record s { codes = c ∷ s.codes })
  ]
]

unfoldable pub delete_oauth_code : String → Store → Store
delete_oauth_code code s = record s { codes = delete_where (λ c. c.code == code) s.codes }

unfoldable pub delete_expired_codes : ℕ → Store → Store
delete_expired_codes now s = record s { codes = delete_where (λ c. ltb c.expires_at now) s.codes }

unfoldable pub get_oauth_session : String → Store → Option OauthSession
get_oauth_session token s = find_where (λ t. t.access_token == token) s.sessions

unfoldable pub get_oauth_session_by_refresh : String → Store → Option OauthSession
get_oauth_session_by_refresh token s = find_where (λ t. t.refresh_token == token) s.sessions

unfoldable pub create_oauth_session : OauthSession → Store → Option Store
create_oauth_session t s = elim (get_oauth_session t.access_token s) [
  | some _ ↦ none
  | none ↦ elim (get_user t.user_id s) [
    | none ↦ none
    | some _ ↦ some (record s { sessions = t ∷ s.sessions })
  ]
]

unfoldable pub delete_oauth_session : String → Store → Store
delete_oauth_session token s = record s {
  sessions = delete_where (λ t. t.access_token == token) s.sessions;
}

unfoldable pub delete_expired_sessions : ℕ → Store → Store
delete_expired_sessions now s = record s {
  sessions = delete_where (λ t. ltb t.expires_at now) s.sessions;
}

unfoldable pub get_api_key_by_id : String → Store → Option ApiKey
get_api_key_by_id id s = find_where (λ k. k.id == id) s.api_keys

unfoldable pub create_api_key : ApiKey → Store → Option Store
create_api_key k s = elim (get_api_key_by_id k.id s) [
  | some _ ↦ none
  | none ↦ elim (get_user k.user_id s) [
    | none ↦ none
    | some _ ↦ some (record s { api_keys = record k { last_used_at = none } ∷ s.api_keys })
  ]
]

unfoldable pub delete_api_key : String → Store → Store
delete_api_key id s = record s { api_keys = delete_where (λ k. k.id == id) s.api_keys }

unfoldable pub update_api_key_last_used : ℕ → String → Store → Store
update_api_key_last_used now id s = record s {
  api_keys = set_where (λ k. k.id == id) (λ k. record k { last_used_at = some now }) s.api_keys;
}

-- `ValidateAPIKey`: the row of the first hash that matches, read again by its id.
unfoldable pub validate_api_key : Library → String → Store → Option ApiKey
validate_api_key lib key s = elim (find_where (λ k. lib.matches_hash key k.key_hash) s.api_keys) [
  | none ↦ none
  | some k ↦ get_api_key_by_id k.id s
]
