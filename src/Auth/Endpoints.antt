-- ===== src/Auth/Endpoints.antt =====
-- The endpoints and the middleware: auth/auth.go. A handler gives its reply and the tables after
-- it; where the code reads the clock twice, `now` is the first time and `later` the second.
use Prim.Native.String.{len, slice, ◌++◌ as append}
use text.Mathlib.Text.{starts_with}
use palaestra_mcp_bridge.Common.{
  ℕ, ◌+◌, ◌*◌, String, Bool, ◌&&◌, ◌||◌, not, Option, none, some, List, [], ◌==◌, ltb,
  if◌then◌else◌,
}
use palaestra_mcp_bridge.Enforcer.Heuristics.{contains}
use palaestra_mcp_bridge.Auth.Tables.{
  UserRow, OauthClient, OauthCode, OauthSession, ApiKey, Store, Library, get_user_by_email,
  check_password, is_bcrypt, update_user, get_oauth_client, create_oauth_client, get_oauth_code,
  create_oauth_code, delete_oauth_code, get_oauth_session, get_oauth_session_by_refresh,
  create_oauth_session, delete_oauth_session, validate_api_key, update_api_key_last_used,
}

pub record Handler : Type 0 where
  pub configured_code_ttl : ℕ
  pub configured_token_ttl : ℕ

abbrev pub minute : ℕ
minute = 60 * 1000000000

unfoldable pub code_ttl : Handler → ℕ
code_ttl h = if ltb 0 h.configured_code_ttl then h.configured_code_ttl else 10 * minute

unfoldable pub token_ttl : Handler → ℕ
token_ttl h = if ltb 0 h.configured_token_ttl then h.configured_token_ttl else 60 * minute

pub data Reply : Type 0 where
  -- 401 with the address of the metadata
  unauthorized : Reply
  -- the next handler runs for the user
  serve : String → Reply
  http_error : String → Reply
  json_error : String → String → Reply
  client_registered : OauthClient → Reply
  -- the form, with its error
  login_form : String → Reply
  redirect : String → Reply
  token_response : OauthSession → ℕ → Reply

-- `extractBearer`
unfoldable pub extract_bearer : Library → String → String
extract_bearer lib header =
    if ltb (len header) 7 || not (lib.equal_fold (slice header 0 7) "Bearer ")
    then ""
    else slice header 7 (len header)

unfoldable pub accept_api_key : ℕ → Option ApiKey → Store → Reply × Store
accept_api_key now none s = (unauthorized, s)
accept_api_key now (some k) s =
    let served : Reply × Store = (serve k.user_id, update_api_key_last_used now k.id s) in
    elim k.expires_at [
      | none ↦ served
      | some limit ↦ if ltb limit now then (unauthorized, s) else served
    ]

unfoldable pub accept_session : ℕ → String → Option OauthSession → Store → Reply × Store
accept_session now token none s = (unauthorized, s)
accept_session now token (some t) s =
    if ltb t.expires_at now
    then (unauthorized, delete_oauth_session token s)
    else (serve t.user_id, s)

-- `Middleware`, with the value of the Authorization header.
unfoldable pub middleware : Library → ℕ → String → Store → Reply × Store
middleware lib now header s =
    let token = extract_bearer lib header in
    if token == ""
    then (unauthorized, s)
    else if starts_with token "mcp_"
    then accept_api_key now (validate_api_key lib token s) s
    else accept_session now token (get_oauth_session token s) s

-- `RegisterClientHandler`
unfoldable pub register_client : String → List String → String → Store → Reply × Store
register_client fresh [] name s = (json_error "invalid_request" "redirect_uris required", s)
register_client fresh uris name s =
    let c : OauthClient = record { client_id = fresh; redirect_uris = uris; client_name = name } in
    elim (create_oauth_client c s) [
      | none ↦ (http_error "server_error", s)
      | some s' ↦ (client_registered c, s')
    ]

pub record AuthorizeForm : Type 0 where
  pub email : String
  pub password : String
  pub client_id : String
  pub redirect_uri : String
  pub state : String
  pub code_challenge : String
  pub code_challenge_method : String
  pub scope : String

-- `authorizeGet`
unfoldable pub authorize_get : AuthorizeForm → Store → Reply
authorize_get f s =
    if f.client_id == "" || f.redirect_uri == ""
    then json_error "invalid_request" "client_id and redirect_uri required"
    else elim (get_oauth_client f.client_id s) [
      | none ↦ http_error "invalid_client"
      | some _ ↦
          if not (f.code_challenge == "")
            && (not (f.code_challenge_method == "S256") && not (f.code_challenge_method == ""))
          then json_error "invalid_request" "only S256 code_challenge_method supported"
          else login_form ""
    ]

-- The stored password becomes a hash at the first login; errors are ignored.
unfoldable pub upgrade_password : Library → UserRow → String → Store → Store
upgrade_password lib u plain s =
    if is_bcrypt u.password then s else elim (lib.hash_password plain) [
      | none ↦ s
      | some hash ↦ (update_user lib (record u { password = hash }) s).0
    ]

unfoldable pub new_code : Handler → ℕ → String → AuthorizeForm → UserRow → OauthCode
new_code h now fresh f u = record {
  code = fresh;
  user_id = u.id;
  client_id = f.client_id;
  redirect_uri = f.redirect_uri;
  code_challenge = f.code_challenge;
  scope = f.scope;
  expires_at = now + code_ttl h;
}

unfoldable pub code_location : String → AuthorizeForm → String
code_location code f =
    let sep = if contains f.redirect_uri "?" then "&" else "?" in
    let location = append f.redirect_uri (append sep (append "code=" code)) in
    if f.state == "" then location else append location (append "&state=" f.state)

unfoldable pub issue_code : Handler → ℕ → String → AuthorizeForm → UserRow → Store → Reply × Store
issue_code h now fresh f u s = elim (create_oauth_code (new_code h now fresh f u) s) [
  | none ↦ (http_error "server_error", s)
  | some s' ↦ (redirect (code_location fresh f), s')
]

-- The user whose email and password the form has.
unfoldable pub authenticate : Library → AuthorizeForm → Store → Option UserRow
authenticate lib f s = elim (get_user_by_email f.email s) [
  | none ↦ none
  | some u ↦ if check_password lib u.password f.password then some u else none
]

-- What follows the check of the password.
unfoldable pub after_login :
    Library → Handler → ℕ → String → AuthorizeForm → Option UserRow → Store → Reply × Store
after_login lib h now fresh f none s = (login_form "Invalid email or password", s)
after_login lib h now fresh f (some u) s =
    issue_code h now fresh f u (upgrade_password lib u f.password s)

-- `authorizePost`
unfoldable pub authorize_post :
    Library → Handler → ℕ → String → AuthorizeForm → Store → Reply × Store
authorize_post lib h now fresh f s =
    if f.client_id == "" || f.redirect_uri == ""
    then (http_error "invalid_request", s)
    else after_login lib h now fresh f (authenticate lib f s) s

pub record TokenForm : Type 0 where
  pub grant_type : String
  pub code : String
  pub code_verifier : String
  pub redirect_uri : String
  pub client_id : String
  pub refresh_token : String

-- The access token and the refresh token that are drawn.
abbrev pub Fresh : Type 0
Fresh = String × String

-- `verifyPKCE`
unfoldable pub verify_pkce : Library → String → String → Bool
verify_pkce lib verifier challenge = lib.s256 verifier == challenge

unfoldable pub check_pkce : Library → String → String → Option String
check_pkce lib verifier challenge =
    if challenge == ""
    then none
    else if verifier == ""
    then some "code_verifier required"
    else if verify_pkce lib verifier challenge
    then none
    else some "PKCE verification failed"

-- The checks of a code that has not expired: what the first one that fails answers.
unfoldable pub check_code : Library → TokenForm → OauthCode → Option String
check_code lib f c =
    if not (f.client_id == "") && not (f.client_id == c.client_id)
    then some "client_id mismatch"
    else if not (f.redirect_uri == "") && not (f.redirect_uri == c.redirect_uri)
    then some "redirect_uri mismatch"
    else check_pkce lib f.code_verifier c.code_challenge

unfoldable pub new_session : Handler → ℕ → Fresh → String → String → String → OauthSession
new_session h later fresh user client scope = record {
  access_token = fresh.0;
  refresh_token = fresh.1;
  user_id = user;
  client_id = client;
  scope = scope;
  expires_at = later + token_ttl h;
}

unfoldable pub issue_session : Handler → OauthSession → Store → Reply × Store
issue_session h t s = elim (create_oauth_session t s) [
  | none ↦ (json_error "server_error" "could not create session", s)
  | some s' ↦ (token_response t (token_ttl h), s')
]

-- The code is consumed before the session is created.
unfoldable pub exchange_code :
    Handler → ℕ → Fresh → String → OauthCode → Option String → Store → Reply × Store
exchange_code h later fresh code c (some reason) s = (json_error "invalid_grant" reason, s)
exchange_code h later fresh code c none s =
    issue_session h (new_session h later fresh c.user_id c.client_id c.scope)
      (delete_oauth_code code s)

-- What `tokenAuthorizationCode` does with the row that it has read. The code holds no lock: the tables
-- may have changed since.
unfoldable pub exchange_row :
    Library → Handler → ℕ → ℕ → Fresh → TokenForm → Option OauthCode → Store → Reply × Store
exchange_row lib h now later fresh f row s = elim row [
  | none ↦ (json_error "invalid_grant" "code not found", s)
  | some c ↦
      if ltb c.expires_at now
      then (json_error "invalid_grant" "code expired", delete_oauth_code f.code s)
      else exchange_code h later fresh f.code c (check_code lib f c) s
]

-- `tokenAuthorizationCode`, when no other request comes between its statements
unfoldable pub token_authorization_code :
    Library → Handler → ℕ → ℕ → Fresh → TokenForm → Store → Reply × Store
token_authorization_code lib h now later fresh f s =
    if f.code == ""
    then (json_error "invalid_request" "code required", s)
    else exchange_row lib h now later fresh f (get_oauth_code f.code s) s

-- `tokenRefresh`
unfoldable pub token_refresh : Handler → ℕ → Fresh → TokenForm → Store → Reply × Store
token_refresh h now fresh f s =
    if f.refresh_token == ""
    then (json_error "invalid_request" "refresh_token required", s)
    else elim (get_oauth_session_by_refresh f.refresh_token s) [
      | none ↦ (json_error "invalid_grant" "refresh_token not found", s)
      | some t ↦
          issue_session h (new_session h now fresh t.user_id t.client_id t.scope)
            (delete_oauth_session t.access_token s)
    ]

-- `TokenHandler`, for a POST.
unfoldable pub token_handler : Library → Handler → ℕ → ℕ → Fresh → TokenForm → Store → Reply × Store
token_handler lib h now later fresh f s =
    if f.grant_type == "authorization_code"
    then token_authorization_code lib h now later fresh f s
    else if f.grant_type == "refresh_token"
    then token_refresh h now fresh f s
    else (
      json_error "unsupported_grant_type" "only authorization_code and refresh_token supported",
      s,
    )
