-- ===== src/Login/Tests.antt =====
-- Logins on concrete values: Ann has a second factor, Bob has none.
use Prim.Native.String.{◌++◌ as append}
use palaestra_mcp_bridge.Common.{
  ℕ, ◌≤◌, ◌≡◌, refl, String, true, false, none, some, [], ◌∷◌, ◌==◌, if◌then◌else◌, inl, arith,
}
use palaestra_mcp_bridge.Common.Dict.{lookup, insert, remove}
use palaestra_mcp_bridge.Common.Tables.{find_where, delete_where, set_where}
use palaestra_mcp_bridge.Auth.Tables.{
  UserRow, get_user_by_email, check_password, get_user, is_bcrypt, update_user,
}
use palaestra_mcp_bridge.Login.Twofa.{
  PendingLogin, Web, Crypto, TwofaManager, get_web_session, has_method, verify_login, enable,
  delete_method, new_manager, verify, all_registered, has_id, write_user_2fa, two_factor_row,
  get_user_2fa, set_user_2fa, get_user_2fa_secret, create_web_session, delete_web_session,
  revoke_web_sessions, delete_user_2fa,
}
use palaestra_mcp_bridge.Login.Handlers.{
  Settings, Cookies, Drawn, session_for, unix, get_session_user, get_pending, login_post,
  login_2fa_post, logout, require_admin, shows, require_auth, start_pending_login, cache_dek,
  complete_login, second_phase, upgrade_password, salt_of, ensure_salt, derive, login_with,
  finish_pending, login_2fa_verified, login_2fa_pending,
}
use palaestra_mcp_bridge.Login.Safety.{
  login_2fa_post_lem, get_session_user-delete_method, enable-verify_login,
}
use palaestra_mcp_bridge.Login.Phases.{login_post_lem, login_post_early}

abbrev crypto : Crypto
crypto = record {
  passwords = record {
    matches_hash = λ key hash. hash == append "$2a$" key;
    hash_password = λ plain. some (append "$2a$" plain);
    s256 = λ verifier. verifier;
    equal_fold = λ a b. a == b;
  };
  derive_user_dek = λ password salt. some (append password salt);
  wrap = λ key text. if text == "" then none else some text;
  unwrap = λ key sealed. some sealed;
  validate = λ now secret code. append secret "1" == code;
}

abbrev ann : UserRow
ann = record { id = "u1"; email = "ann@x"; password = "$2a$one"; role = "admin" }

abbrev bob : UserRow
bob = record { id = "u2"; email = "bob@x"; password = "two"; role = "user" }

abbrev web : Web
web = record {
  store = record { users = ann ∷ bob ∷ []; clients = []; codes = []; sessions = []; api_keys = [] };
  salts = ("u1", "salt") ∷ [];
  web_sessions = [];
  user_2fa = record { user_id = "u1"; method = "totp"; secret = "s"; enabled = true } ∷ [];
  session_deks = [];
  pending_logins = [];
  pending_setups = [];
}

abbrev manager : TwofaManager
manager = record { required = false; order = "totp" ∷ [] }

abbrev settings : Settings
settings = record { twofa = some manager; twofa_bypass = false }

abbrev drawn : Drawn
drawn = record { early = "e"; session = "t"; pending = some "p"; salt = some "new" }

abbrev second_drawn : Drawn
second_drawn = record { early = "e2"; session = "t2"; pending = some "p2"; salt = none }

abbrev third_drawn : Drawn
third_drawn = record { early = "e3"; session = "t3"; pending = none; salt = none }

abbrev cookies : Cookies
cookies = record { session = ""; pending = "p"; setup = "" }

abbrev now : ℕ
now = 7000000000

abbrev awaited : Web
awaited = (login_post crypto settings now drawn "ann@x" "one" web).1

abbrev let_in : Web
let_in = (login_2fa_post crypto settings manager now second_drawn cookies "s1" awaited).1

new_manager_registered : new_manager ("totp" ∷ []) false ≡ some manager
unfolding new_manager all_registered
new_manager_registered = refl

new_manager_unknown : new_manager ("totp" ∷ "sms" ∷ []) false ≡ none
unfolding new_manager all_registered
new_manager_unknown = refl

login_2fa_post_wrong :
    (login_2fa_post crypto settings manager now second_drawn cookies "s2" awaited).0.page
    ≡ shows "Invalid code. Please try again."
unfolding get_pending start_pending_login cache_dek complete_login second_phase upgrade_password
    salt_of ensure_salt derive login_with login_post finish_pending login_2fa_verified
    login_2fa_pending login_2fa_post create_web_session has_method get_user_2fa two_factor_row
    verify_login verify has_id get_user_2fa_secret get_user get_user_by_email is_bcrypt
    check_password update_user find_where set_where lookup insert remove
login_2fa_post_wrong = refl

require_admin-login : (require_admin now "t2" let_in).0 ≡ inl ann
unfolding get_session_user require_auth require_admin get_web_session get_pending
    start_pending_login cache_dek complete_login second_phase upgrade_password salt_of ensure_salt
    derive login_with login_post finish_pending login_2fa_verified login_2fa_pending login_2fa_post
    create_web_session has_method get_user_2fa two_factor_row verify_login verify has_id
    get_user_2fa_secret get_user get_user_by_email is_bcrypt check_password update_user find_where
    set_where lookup insert remove
require_admin-login = refl

logout_session : (get_session_user now "t2" (logout "t2" let_in).1).0 ≡ none
unfolding get_session_user get_web_session logout delete_web_session delete_where get_pending
    start_pending_login cache_dek complete_login second_phase upgrade_password salt_of ensure_salt
    derive login_with login_post finish_pending login_2fa_verified login_2fa_pending login_2fa_post
    create_web_session has_method get_user_2fa two_factor_row verify_login verify has_id
    get_user_2fa_secret get_user get_user_by_email is_bcrypt check_password update_user find_where
    set_where lookup insert remove
logout_session = refl

login_post_lem_example :
    (u : UserRow) × (get_user_by_email "bob@x" web.store ≡ some u)
    × (check_password crypto.passwords u.password "two" ≡ true)
    × (has_method u.id web ≡ none)
    × (manager.required ≡ false)
unfolding start_pending_login cache_dek complete_login second_phase upgrade_password salt_of
    ensure_salt derive login_with login_post create_web_session has_method get_user_2fa
    two_factor_row get_user get_user_by_email is_bcrypt check_password update_user find_where
    set_where lookup insert
login_post_lem_example =
    login_post_lem crypto settings manager now drawn "bob@x" "two" web "t" refl refl

login_post_early_example :
    (u : UserRow) × (get_user_by_email "ann@x" web.store ≡ some u)
    × (get_web_session "e" awaited ≡ some (session_for now "e" u))
unfolding start_pending_login cache_dek complete_login second_phase upgrade_password salt_of
    ensure_salt derive login_with login_post create_web_session has_method get_user_2fa
    two_factor_row get_user get_user_by_email is_bcrypt check_password update_user find_where
    set_where lookup insert
login_post_early_example = login_post_early crypto settings now drawn "ann@x" "one" web "p" refl

login_2fa_post_lem_example :
    (p : PendingLogin) × (lookup "p" awaited.pending_logins ≡ some p)
    × (unix now ≤ p.expires_at)
    × (verify_login crypto manager now p.user_id p.method "s1" p.dek awaited ≡ true)
    × ((user : UserRow) × (get_user p.user_id awaited.store ≡ some user)
        × (let_in.web_sessions ≡ session_for now "t2" user ∷ awaited.web_sessions))
    × ((get_pending 8000000000 "p" let_in).0 ≡ none)
unfolding get_pending start_pending_login cache_dek complete_login second_phase upgrade_password
    salt_of ensure_salt derive login_with login_post finish_pending login_2fa_verified
    login_2fa_pending login_2fa_post create_web_session has_method get_user_2fa two_factor_row
    verify_login verify has_id get_user_2fa_secret get_user get_user_by_email is_bcrypt
    check_password update_user find_where set_where lookup insert remove
login_2fa_post_lem_example =
    login_2fa_post_lem crypto settings manager now 8000000000 second_drawn cookies "s1" awaited "t2"
      refl refl

get_session_user-delete_method_example : (bob.id == "u1") ≡ false
unfolding get_session_user get_web_session delete_method revoke_web_sessions delete_user_2fa
    delete_where get_pending start_pending_login cache_dek complete_login second_phase
    upgrade_password salt_of ensure_salt derive login_with login_post finish_pending
    login_2fa_verified login_2fa_pending login_2fa_post create_web_session has_method get_user_2fa
    two_factor_row verify_login verify has_id get_user_2fa_secret get_user get_user_by_email
    is_bcrypt check_password update_user find_where set_where lookup insert remove
get_session_user-delete_method_example =
    get_session_user-delete_method "u1" "t3" now (record bob { password = "$2a$two" })
      (login_post crypto settings now third_drawn "bob@x" "two" let_in).1 refl

abbrev enrolled_bob : Web
enrolled_bob = record web {
  user_2fa =
      record { user_id = "u2"; method = "totp"; secret = "k"; enabled = true } ∷ web.user_2fa;
}

seals :
    (key text sealed : String)
    → crypto.wrap key text ≡ some sealed
    → (crypto.unwrap key sealed ≡ some text) × ((sealed == "") ≡ false)
seals key text sealed h = ground arith

enable-verify_login_example :
    (has_method "u2" enrolled_bob ≡ some "totp")
    × (verify_login crypto manager now "u2" "totp" "k1" (some "dek") enrolled_bob
        ≡ verify crypto now "k" "k1")
unfolding enable set_user_2fa write_user_2fa two_factor_row verify has_id get_user find_where
enable-verify_login_example =
    enable-verify_login crypto manager now now "u2" "totp" "k" "k1" "k1" "dek" web enrolled_bob
      seals refl
