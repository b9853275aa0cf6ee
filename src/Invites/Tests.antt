-- ===== src/Invites/Tests.antt =====
-- An invitation on concrete values.
use palaestra_mcp_bridge.Common.Tables.{find_where, set_where}
use Prim.Native.String.{◌++◌ as append}
use palaestra_mcp_bridge.Common.{◌≡◌, refl, String, false, none, some, [], ◌∷◌, ◌==◌}
use palaestra_mcp_bridge.Auth.Tables.{Library, get_user, get_user_by_email, is_bcrypt}
use palaestra_mcp_bridge.Invites.{
  Invite, Settings, SignupForm, SignupState, welcome, invalid_invite, form_error,
  invite_signup_post, lookup_valid_invite, get_invite_by_token_hash, mark_invite_accepted, expired,
  invite_pending, revoke_invite, accepted_by, account_for, create_user, new_account, signup_with,
}
use palaestra_mcp_bridge.Invites.Once.{nothing, revokes, invite_signup_post_once}
use palaestra_mcp_bridge.Invites.Signup.{invite_signup_post_lem}

abbrev library : Library
library = record {
  matches_hash = λ key hash. hash == append "$2a$" key;
  hash_password = λ plain. some (append "$2a$" plain);
  s256 = λ verifier. verifier;
  equal_fold = λ a b. a == b;
}

abbrev sum : String → String
sum token = append "sum " token

abbrev settings : Settings
settings = record { invite_allow_existing = false; configured_expiry = 0 }

abbrev invite : Invite
invite = record {
  id = "i1";
  email = "bob@x";
  name = "Bob";
  role = "user";
  token_hash = "sum inv_1";
  status = "pending";
  invited_by = "u1";
  token_expires_at = 100;
  accepted_user_id = "";
}

abbrev before : SignupState
before = record {
  store = record { users = []; clients = []; codes = []; sessions = []; api_keys = [] };
  invites = invite ∷ [];
}

abbrev form : SignupForm
form = record {
  token = "inv_1";
  email = "bob@x";
  name = "Bob";
  password = "secret";
  password_confirm = "secret";
}

abbrev afterwards : SignupState
afterwards = record {
  store = record before.store {
    users = record { id = "u2"; email = "bob@x"; password = "$2a$secret"; role = "user" } ∷ [];
  };
  invites = record invite { status = "accepted"; accepted_user_id = "u2" } ∷ [];
}

signup_lem :
    invite_signup_post library sum settings 50 "u2" form before ≡ (welcome "u2", afterwards)
unfolding invite_signup_post signup_with lookup_valid_invite get_invite_by_token_hash find_where
    expired account_for get_user_by_email new_account create_user get_user is_bcrypt
    mark_invite_accepted set_where accepted_by
signup_lem = refl

late_refused : (invite_signup_post library sum settings 150 "u2" form before).0 ≡ invalid_invite
unfolding invite_signup_post signup_with lookup_valid_invite get_invite_by_token_hash find_where
    expired
late_refused = refl

other_address_refused :
    (invite_signup_post library sum settings 50 "u2" (record form { email = "eve@x" }) before).0
    ≡ form_error "The email does not match the invited address."
unfolding invite_signup_post signup_with lookup_valid_invite get_invite_by_token_hash find_where
    expired
other_address_refused = refl

revoked_refused : lookup_valid_invite sum 50 "inv_1" (revoke_invite "i1" (invite ∷ [])) ≡ none
unfolding lookup_valid_invite get_invite_by_token_hash find_where revoke_invite set_where
revoked_refused = refl

invite_signup_post_example :
    (i : Invite) × (get_invite_by_token_hash "sum inv_1" (invite ∷ []) ≡ some i)
    × (i.status ≡ invite_pending)
    × (expired 50 i ≡ false)
    × ("bob@x" ≡ i.email)
    × (form.password ≡ form.password_confirm)
    × (afterwards.invites ≡ mark_invite_accepted i.id "u2" (invite ∷ []))
unfolding invite_signup_post signup_with lookup_valid_invite get_invite_by_token_hash find_where
    expired account_for get_user_by_email new_account create_user get_user is_bcrypt
    mark_invite_accepted set_where accepted_by
invite_signup_post_example =
    invite_signup_post_lem library sum settings 50 "u2" "u2" form before afterwards refl

-- Meanwhile an admin revokes the invitation.
abbrev revoked : SignupState
revoked = record afterwards { invites = revoke_invite "i1" afterwards.invites }

invite_signup_post_once_example :
    invite_signup_post library sum settings 60 "u3" form revoked ≡ (invalid_invite, revoked)
unfolding invite_signup_post signup_with lookup_valid_invite get_invite_by_token_hash find_where
    expired account_for get_user_by_email new_account create_user get_user is_bcrypt
    mark_invite_accepted set_where accepted_by
invite_signup_post_once_example =
    invite_signup_post_once library sum settings "u2" "u2" form invite invite before afterwards
      revoked refl refl refl (revokes "i1" nothing) 60 "u3" form refl
