-- ===== src/Invites.antt =====
-- Invitations: store/invite.go and the handlers of web/invite.go, over the users of Auth.Tables; the
-- roles of internal/usertypes/usertypes.go. The SHA-256 of a token is a parameter.
pub mod Signup
pub mod Once
pub mod Tests
use Prim.Native.String.{◌++◌ as append}
use palaestra_mcp_bridge.Common.{
  ℕ, ◌+◌, ◌*◌, String, Bool, true, false, ◌&&◌, ◌||◌, not, Option, none, some, List, [], ◌∷◌, ◌++◌,
  ◌==◌, ltb, if◌then◌else◌,
}
use palaestra_mcp_bridge.Common.Tables.{find_where, set_where}
use palaestra_mcp_bridge.Enforcer.Heuristics.{is_some}
use palaestra_mcp_bridge.Auth.Tables.{
  UserRow, Store, Library, get_user, get_user_by_email, is_bcrypt,
}

pub record Invite : Type 0 where
  pub id : String
  pub email : String
  pub name : String
  pub role : String
  pub token_hash : String
  pub status : String
  pub invited_by : String
  pub token_expires_at : ℕ
  pub accepted_user_id : String

abbrev pub invite_pending : String
invite_pending = "pending"

abbrev pub invite_accepted : String
invite_accepted = "accepted"

abbrev pub invite_revoked : String
invite_revoked = "revoked"

-- `Expired`
unfoldable pub expired : ℕ → Invite → Bool
expired now i = if i.status == invite_accepted then false else ltb i.token_expires_at now

unfoldable pub get_invite_by_token_hash : String → List Invite → Option Invite
get_invite_by_token_hash hash invites = find_where (λ i. i.token_hash == hash) invites

unfoldable pub get_invite_by_id : String → List Invite → Option Invite
get_invite_by_id id invites = find_where (λ i. i.id == id) invites

-- `CreateInvite`: none if the id or the hash is taken.
unfoldable pub create_invite : Invite → List Invite → Option (List Invite)
create_invite i invites =
    let row = record i {
      status = if i.status == "" then invite_pending else i.status;
      accepted_user_id = "";
    } in
    if is_some (get_invite_by_id i.id invites)
      || is_some (get_invite_by_token_hash i.token_hash invites)
    then none
    else some (row ∷ invites)

unfoldable pub accepted_by : String → Invite → Invite
accepted_by user i = record i { status = invite_accepted; accepted_user_id = user }

-- `MarkInviteAccepted`
unfoldable pub mark_invite_accepted : String → String → List Invite → List Invite
mark_invite_accepted id user invites = set_where (λ i. i.id == id) (accepted_by user) invites

-- `RevokeInvite`
unfoldable pub revoke_invite : String → List Invite → List Invite
revoke_invite id invites =
    set_where (λ i. i.id == id && i.status == invite_pending)
      (λ i. record i { status = invite_revoked }) invites

-- `emailNotPending`
unfoldable pub email_not_pending : String → List Invite → Bool
email_not_pending email [] = true
email_not_pending email (i ∷ invites) =
    let rest = email_not_pending email invites in
    if i.email == email && i.status == invite_pending then false else rest

-- `inviteExpiry`: seven days if nothing is configured.
unfoldable pub invite_expiry : ℕ → ℕ
invite_expiry configured = if ltb 0 configured then configured else 7 * 24 * 3600 * 1000000000

abbrev pub when_valid : ℕ → Option Invite → Option Invite
when_valid now none = none
when_valid now (some i) =
    if not (i.status == invite_pending) then none else if expired now i then none else some i

-- `lookupValidInvite`
unfoldable pub lookup_valid_invite : (String → String) → ℕ → String → List Invite → Option Invite
lookup_valid_invite sum now token invites =
    if token == "" then none else when_valid now (get_invite_by_token_hash (sum token) invites)

-- The settings of the handler.
pub record Settings : Type 0 where
  pub invite_allow_existing : Bool
  pub configured_expiry : ℕ

-- `CreateUser`: the password is stored hashed; none if the id or the email is taken or the hash
-- fails.
unfoldable pub create_user : Library → UserRow → Store → Option Store
create_user lib u s =
    let hashed =
      if is_bcrypt u.password || u.password == ""
      then some u.password
      else lib.hash_password u.password in
    if is_some (get_user u.id s) || is_some (get_user_by_email u.email s)
    then none
    else elim hashed [
      | none ↦ none
      | some hash ↦ some (record s {
        users =
            record u { password = hash; role = if u.role == "" then "user" else u.role } ∷ s.users;
      })
    ]

pub record SignupForm : Type 0 where
  pub token : String
  -- trimmed and in lower case
  pub email : String
  pub name : String
  pub password : String
  pub password_confirm : String

pub data SignupReply : Type 0 where
  invalid_invite : SignupReply
  form_error : String → SignupReply
  -- the user who is logged in
  welcome : String → SignupReply

pub record SignupState : Type 0 where
  pub store : Store
  pub invites : List Invite

abbrev accepted_for : String → Invite → SignupState → SignupReply × SignupState
accepted_for user i s =
    (welcome user, record s { invites = mark_invite_accepted i.id user s.invites })

unfoldable pub new_account :
    String → Invite → Option Store → SignupState → SignupReply × SignupState
new_account fresh i none s = (form_error "Failed to create account. Please try again.", s)
new_account fresh i (some store) s = accepted_for fresh i (record s { store = store })

unfoldable pub account_for :
    Library
    → Settings
    → String
    → SignupForm
    → Invite
    → Option UserRow
    → SignupState
    → SignupReply × SignupState
account_for lib x fresh f i (some u) s =
    if x.invite_allow_existing
    then accepted_for u.id i s
    else (form_error "An account with this email already exists.", s)
account_for lib x fresh f i none s =
    new_account fresh i
      (create_user lib
        (record { id = fresh; email = f.email; password = f.password; role = i.role }) s.store)
      s

-- What `inviteSignupPost` does with the invitation that it has looked up. The code holds no lock and
-- has no transaction: the tables may have changed since.
unfoldable pub signup_with :
    Library
    → Settings
    → String
    → SignupForm
    → Option Invite
    → SignupState
    → SignupReply × SignupState
signup_with lib x fresh f none s = (invalid_invite, s)
signup_with lib x fresh f (some i) s =
    if f.email == "" || f.password == ""
    then (form_error "Email and password are required.", s)
    else if not (f.password == f.password_confirm)
    then (form_error "Passwords do not match.", s)
    else if not (f.email == i.email)
    then (form_error "The email does not match the invited address.", s)
    else account_for lib x fresh f i (get_user_by_email f.email s.store) s

-- `inviteSignupPost`, when no other request comes between its statements
unfoldable pub invite_signup_post :
    Library
    → (String → String)
    → Settings
    → ℕ
    → String
    → SignupForm
    → SignupState
    → SignupReply × SignupState
invite_signup_post lib sum x now fresh f s =
    signup_with lib x fresh f (lookup_valid_invite sum now f.token s.invites) s

-- One recipient of `AdminInvitesCreateHandler`; false if nothing was sent.
unfoldable pub invite_recipient :
    Settings
    → ℕ
    → String
    → String
    → String
    → String
    → String
    → String
    → SignupState
    → SignupState × Bool
invite_recipient x now id hash inviter name role email s =
    let i : Invite = record {
      id = id;
      email = email;
      name = name;
      role = if role == "" then "user" else role;
      token_hash = hash;
      status = "";
      invited_by = inviter;
      token_expires_at = now + invite_expiry x.configured_expiry;
      accepted_user_id = "";
    } in
    if not x.invite_allow_existing && is_some (get_user_by_email email s.store)
    then (s, false)
    else if not (email_not_pending email s.invites)
    then (s, false)
    else elim (create_invite i s.invites) [
      | none ↦ (s, false)
      | some invites ↦ (record s { invites = invites }, true)
    ]

-- `IsValidRole` and `NormalizeRole`, on a trimmed name in lower case.
unfoldable pub is_valid_role : String → Bool
is_valid_role id = id == "user" || id == "admin"

unfoldable pub normalize_role : String → String
normalize_role id = if is_valid_role id then id else "user"
