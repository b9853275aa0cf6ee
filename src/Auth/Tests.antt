-- ===== src/Auth/Tests.antt =====
-- A login, an exchange, requests and a refresh on concrete values.
use palaestra_mcp_bridge.Common.Tables.{find_where, set_where, delete_where}
use Prim.Native.String.{◌++◌ as append}
use palaestra_mcp_bridge.Common.{
  ◌≤◌, ◌≡◌, ◌≢◌, refl, String, none, some, [], ◌∷◌, ◌==◌, ◌⊎◌, Occurs,
}
use palaestra_mcp_bridge.Auth.Tables.{
  delete_expired_codes, UserRow, ApiKey, OauthCode, OauthSession, Store, Library, get_oauth_session,
  get_oauth_code, delete_oauth_code, delete_user, validate_api_key, check_password,
  create_oauth_code, get_user, get_user_by_email, is_bcrypt, update_user, create_oauth_session,
  get_api_key_by_id, delete_oauth_session, get_oauth_session_by_refresh,
}
use palaestra_mcp_bridge.Auth.Endpoints.{
  exchange_row, Handler, AuthorizeForm, TokenForm, serve, unauthorized, redirect, json_error,
  token_response, middleware, authorize_post, token_authorization_code, token_refresh, new_session,
  extract_bearer, check_code, token_handler, after_login, authenticate, code_location, issue_code,
  new_code, upgrade_password, check_pkce, code_ttl, exchange_code, issue_session, token_ttl,
  verify_pkce, accept_api_key, accept_session,
}
use palaestra_mcp_bridge.Auth.Codes.{
  IsAllowed, token_authorization_code_lem, token_authorization_code_once, nothing, expires,
}
use palaestra_mcp_bridge.Auth.Access.{
  IsLive, middleware_serve, middleware-delete_user, token_refresh_rotates,
  token_refresh-middleware_expired,
}
use palaestra_mcp_bridge.Auth.Lifecycle.{
  Reachable, start, login, token_call, middleware_serve_granted,
}

abbrev library : Library
library = record {
  matches_hash = λ key hash. hash == append "$2a$" key;
  hash_password = λ plain. some (append "$2a$" plain);
  s256 = λ verifier. append "s256 " verifier;
  equal_fold = λ a b. a == b;
}

abbrev handler : Handler
handler = record { configured_code_ttl = 100; configured_token_ttl = 1000 }

abbrev ann : UserRow
ann = record { id = "u1"; email = "ann@x.org"; password = "plain"; role = "user" }

abbrev ann_key : ApiKey
ann_key = record {
  id = "k1";
  user_id = "u1";
  name = "ci";
  key_hash = "$2a$mcp_1";
  expires_at = none;
  last_used_at = none;
}

abbrev empty : Store
empty = record {
  users = ann ∷ [];
  clients = [];
  codes = [];
  sessions = [];
  api_keys = ann_key ∷ [];
}

abbrev form : AuthorizeForm
form = record {
  email = "ann@x.org";
  password = "plain";
  client_id = "app";
  redirect_uri = "http://app/cb";
  state = "xyz";
  code_challenge = "s256 v";
  code_challenge_method = "S256";
  scope = "mcp";
}

abbrev exchange : TokenForm
exchange = record {
  grant_type = "authorization_code";
  code = "c1";
  code_verifier = "v";
  redirect_uri = "";
  client_id = "app";
  refresh_token = "r1";
}

abbrev session : OauthSession
session = record {
  access_token = "t1";
  refresh_token = "r1";
  user_id = "u1";
  client_id = "app";
  scope = "mcp";
  expires_at = 1061;
}

abbrev logged_in : Store
logged_in = record empty {
  users = record ann { password = "$2a$plain" } ∷ [];
  codes =
      record {
        code = "c1";
        user_id = "u1";
        client_id = "app";
        redirect_uri = "http://app/cb";
        code_challenge = "s256 v";
        scope = "mcp";
        expires_at = 150;
      }
      ∷ [];
}

abbrev tokens : Store
tokens = record logged_in { codes = []; sessions = session ∷ [] }

-- The plaintext password is replaced, and the code is in the address.
login_lem :
    authorize_post library handler 50 "c1" form empty
    ≡ (redirect "http://app/cb?code=c1&state=xyz", logged_in)
unfolding authorize_post after_login authenticate get_user_by_email find_where check_password
    is_bcrypt issue_code create_oauth_code get_oauth_code upgrade_password update_user get_user
    set_where new_code code_location code_ttl
login_lem = refl

exchange_lem :
    token_authorization_code library handler 60 61 ("t1", "r1") exchange logged_in
    ≡ (token_response session 1000, tokens)
unfolding token_authorization_code exchange_row get_oauth_code find_where exchange_code check_code
    check_pkce verify_pkce issue_session create_oauth_session get_oauth_session delete_oauth_code
    get_user new_session token_ttl delete_where
exchange_lem = refl

wrong_verifier :
    (token_authorization_code library handler 60 61
      ("t1", "r1")
      (record exchange { code_verifier = "w" })
      logged_in).0
    ≡ json_error "invalid_grant" "PKCE verification failed"
unfolding token_authorization_code exchange_row get_oauth_code find_where exchange_code check_code
    check_pkce verify_pkce
wrong_verifier = refl

serves : (middleware library 70 "Bearer t1" tokens).0 ≡ serve "u1"
unfolding middleware extract_bearer accept_session get_oauth_session find_where
serves = refl

serves_key : (middleware library 70 "Bearer mcp_1" tokens).0 ≡ serve "u1"
unfolding middleware extract_bearer accept_api_key validate_api_key find_where get_api_key_by_id
serves_key = refl

token_authorization_code_example :
    (c : OauthCode) × (get_oauth_code "c1" logged_in ≡ some c)
    × (60 ≤ c.expires_at)
    × IsAllowed library exchange c
    × (session ≡ new_session handler 61 ("t1", "r1") c.user_id c.client_id c.scope)
    × (tokens ≡ record (delete_oauth_code "c1" logged_in) { sessions = session ∷ [] })
unfolding token_authorization_code exchange_row get_oauth_code find_where exchange_code check_code
    check_pkce verify_pkce issue_session create_oauth_session get_oauth_session delete_oauth_code
    get_user new_session token_ttl delete_where
token_authorization_code_example =
    token_authorization_code_lem library handler 60 61 ("t1", "r1") exchange logged_in tokens
      session 1000 refl

-- Meanwhile the expired codes are deleted.
token_authorization_code_once_example :
    token_authorization_code library handler 70 71
      ("t2", "r2")
      exchange
      (delete_expired_codes 65 tokens)
    ≡ (json_error "invalid_grant" "code not found", delete_expired_codes 65 tokens)
unfolding token_authorization_code exchange_row get_oauth_code find_where exchange_code check_code
    check_pkce verify_pkce issue_session create_oauth_session get_oauth_session delete_oauth_code
    get_user new_session token_ttl delete_where
token_authorization_code_once_example =
    token_authorization_code_once library handler 60 61 ("t1", "r1") exchange
      (get_oauth_code exchange.code logged_in) logged_in tokens session 1000 refl refl
      (expires 65 nothing) 70 71 ("t2", "r2") exchange refl

middleware_serve_example :
    ((k : ApiKey) × (validate_api_key library "t1" tokens ≡ some k)
      × (k.user_id ≡ "u1")
      × IsLive 70 k.expires_at)
    ⊎ ((t : OauthSession) × (get_oauth_session "t1" tokens ≡ some t)
        × (t.user_id ≡ "u1")
        × (70 ≤ t.expires_at))
unfolding middleware extract_bearer accept_session get_oauth_session find_where
middleware_serve_example = middleware_serve library 70 "Bearer t1" tokens "u1" refl

middleware-delete_user_example :
    (middleware library 70 "Bearer t1" (delete_user "u1" tokens)).0 ≢ serve "u1"
middleware-delete_user_example = middleware-delete_user library 70 "Bearer t1" tokens "u1"

token_refresh_rotates_example :
    let s' = (token_refresh handler 80 ("t2", "r2") exchange tokens).1 in
    let t = new_session handler 80 ("t2", "r2") "u1" "app" "mcp" in
    (t ≡ new_session handler 80 ("t2", "r2") "u1" "app" "mcp")
    × (get_oauth_session "t2" s' ≡ some t)
    × (get_oauth_session "t1" s' ≡ none)
unfolding get_oauth_session_by_refresh find_where token_refresh issue_session create_oauth_session
    get_oauth_session delete_oauth_session delete_where get_user new_session token_ttl
token_refresh_rotates_example =
    token_refresh_rotates library handler 80 ("t2", "r2") exchange tokens
      (token_refresh handler 80 ("t2", "r2") exchange tokens).1 session
      (new_session handler 80 ("t2", "r2") "u1" "app" "mcp") 1000 refl refl refl

token_refresh-middleware_expired_example :
    let (reply, s') = middleware library 2000 "Bearer t1" tokens in
    (reply ≡ unauthorized)
    × (token_refresh handler 2001 ("t2", "r2") exchange s'
        ≡ (json_error "invalid_grant" "refresh_token not found", s'))
unfolding extract_bearer get_oauth_session find_where get_oauth_session_by_refresh
    delete_oauth_session delete_where
token_refresh-middleware_expired_example =
    token_refresh-middleware_expired library handler 2000 2001 "Bearer t1" ("t2", "r2") exchange
      tokens session refl refl refl refl refl refl (λ e. refl, tt)

reached : Reachable library handler (("u1", "app") ∷ []) tokens
unfolding authenticate get_user_by_email find_where check_password is_bcrypt token_handler
    token_authorization_code exchange_row get_oauth_code authorize_post after_login issue_code
    create_oauth_code upgrade_password update_user get_user set_where new_code check_code check_pkce
    code_location code_ttl exchange_code issue_session new_session token_ttl verify_pkce
    create_oauth_session delete_oauth_code get_oauth_session delete_where
reached =
    token_call 60 61 ("t1", "r1") exchange
      (login 50 "c1" form ann (refl, refl) (start {s = empty} refl refl))

middleware_serve_granted_example :
    (client : String) × Occurs {A = String × String} ("u1", client) (("u1", "app") ∷ [])
unfolding extract_bearer middleware accept_session get_oauth_session find_where
middleware_serve_granted_example = middleware_serve_granted 70 "Bearer t1" "u1" reached refl refl
