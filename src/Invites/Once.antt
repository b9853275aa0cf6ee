-- ===== src/Invites/Once.antt =====
-- An invitation serves once: web/invite.go inviteSignupPost and the statements of store/invite.go.
use palaestra_mcp_bridge.Common.{
  ℕ, ◌≡◌, refl, sym, ap, ◌∙◌, subst, String, Bool, true, false, ◌&&◌, ◌||◌, none, some, List, ◌∷◌,
  ◌==◌, if◌then◌else◌, Bool-cases, inl, inr, eq_refl, eq_iff,
}
use palaestra_mcp_bridge.Common.Tables.{find_where}
use palaestra_mcp_bridge.Enforcer.Heuristics.{is_some}
use palaestra_mcp_bridge.Auth.Tables.{Library}
use palaestra_mcp_bridge.Invites.{
  Invite, invite_pending, invite_revoked, get_invite_by_token_hash, get_invite_by_id, create_invite,
  accepted_by, mark_invite_accepted, revoke_invite, lookup_valid_invite, Settings, SignupForm,
  invalid_invite, welcome, SignupState, signup_with, invite_signup_post,
}
use palaestra_mcp_bridge.Invites.Signup.{find_where-set_where, not_pending, signup_with_lem}

-- What the statements of any requests make of the table, in any order.
pub data Later (rows : List Invite) : List Invite → Type 0 where
  nothing : Later rows rows
  creates :
      {t u : List Invite} (i : Invite) → create_invite i t ≡ some u → Later rows t → Later rows u
  accepts :
      {t : List Invite} (id user : String)
      → Later rows t
      → Later rows (mark_invite_accepted id user t)
  revokes : {t : List Invite} (id : String) → Later rows t → Later rows (revoke_invite id t)

-- The row of this hash is not pending any more.
abbrev IsSpent : String → List Invite → Type 0
IsSpent hash rows =
    (i : Invite) × (get_invite_by_token_hash hash rows ≡ some i)
    × ((i.status == invite_pending) ≡ false)

-- A hash that is taken is refused.
create_invite-taken :
    (i j : Invite) (t : List Invite)
    → get_invite_by_token_hash i.token_hash t ≡ some j
    → create_invite i t ≡ none
unfolding create_invite
create_invite-taken i j t found = elim (Bool-cases (is_some (get_invite_by_id i.id t))) [
  | inl e ↦ rw (create_invite, e) refl
  | inr e ↦ rw (create_invite, e, found) refl
]

abbrev inserted : Invite → Invite
inserted i = record i {
  status = if i.status == "" then invite_pending else i.status;
  accepted_user_id = "";
}

create_invite-head :
    (i : Invite) (t u : List Invite)
    → create_invite i t ≡ some u
    → (row : Invite) × (row.token_hash ≡ i.token_hash) × (u ≡ row ∷ t)
unfolding create_invite
create_invite-head i t u e =
    elim (Bool-cases
      (is_some (get_invite_by_id i.id t) || is_some (get_invite_by_token_hash i.token_hash t))) [
        | inl k ↦ absurd (cc (rw (create_invite, k) at e))
        | inr k ↦ (inserted i, refl, cc (rw (create_invite, k) at e))
      ]

skipped :
    (hash : String) (row j : Invite) (t : List Invite)
    → (row.token_hash == hash) ≡ false
    → get_invite_by_token_hash hash t ≡ some j
    → get_invite_by_token_hash hash (row ∷ t) ≡ some j
unfolding get_invite_by_token_hash find_where
skipped hash row j t ne found = rw ne found

create_invite-IsSpent :
    (hash : String) (i : Invite) (t u : List Invite)
    → create_invite i t ≡ some u
    → IsSpent hash t
    → IsSpent hash u
create_invite-IsSpent hash i t u e (j, found, spent) = elim (Bool-cases (i.token_hash == hash)) [
  | inl k ↦
      let same : hash ≡ i.token_hash = sym ((eq_iff i.token_hash hash).0 k) in
      absurd (cc (e, create_invite-taken i j t (rw same at found)))
  | inr k ↦
      let (row, h, shape) = create_invite-head i t u e in
      (j, rw shape (skipped hash row j t (rw h k) found), spent)
]

mark_invite_accepted-IsSpent :
    (hash id user : String) (t : List Invite)
    → IsSpent hash t
    → IsSpent hash (mark_invite_accepted id user t)
unfolding get_invite_by_token_hash mark_invite_accepted accepted_by
mark_invite_accepted-IsSpent hash id user t (j, found, spent) = (
  if j.id == id then accepted_by user j else j,
  find_where-set_where (λ x. x.token_hash == hash) (λ x. x.id == id) (accepted_by user) (λ x. refl)
      t j found,
  still (j.id == id),
)
  where
    still : (b : Bool) → ((if b then accepted_by user j else j).status == invite_pending) ≡ false
    still true = refl
    still false = spent

revoke_invite-IsSpent :
    (hash id : String) (t : List Invite) → IsSpent hash t → IsSpent hash (revoke_invite id t)
unfolding get_invite_by_token_hash revoke_invite
revoke_invite-IsSpent hash id t (j, found, spent) = (
  if j.id == id && j.status == invite_pending then record j { status = invite_revoked } else j,
  find_where-set_where (λ x. x.token_hash == hash) (λ x. x.id == id && x.status == invite_pending)
      (λ x. record x { status = invite_revoked }) (λ x. refl) t j found,
  still (j.id == id && j.status == invite_pending),
)
  where
    still :
        (b : Bool)
        → ((if b then record j { status = invite_revoked } else j).status == invite_pending) ≡ false
    still true = refl
    still false = spent

Later-IsSpent :
    (hash : String) {rows t : List Invite} → IsSpent hash rows → Later rows t → IsSpent hash t
Later-IsSpent hash s nothing = s
Later-IsSpent hash s (creates {t} {u} i e l) =
    create_invite-IsSpent hash i t u e (Later-IsSpent hash s l)
Later-IsSpent hash s (accepts {t} id user l) =
    mark_invite_accepted-IsSpent hash id user t (Later-IsSpent hash s l)
Later-IsSpent hash s (revokes {t} id l) = revoke_invite-IsSpent hash id t (Later-IsSpent hash s l)

accepted :
    (hash user : String) (rows : List Invite) (i j : Invite)
    → get_invite_by_token_hash hash rows ≡ some j
    → j.id ≡ i.id
    → IsSpent hash (mark_invite_accepted i.id user rows)
unfolding get_invite_by_token_hash mark_invite_accepted accepted_by
accepted hash user rows i j found same = (
  accepted_by user j,
  find_where-set_where (λ x. x.token_hash == hash) (λ x. x.id == i.id) (accepted_by user)
        (λ x. refl) rows j found
      ∙ rw (same, eq_refl i.id) refl,
  refl,
)

-- Once a sign-up has given an account for an invitation, read at any time before, while its row was
-- still in the table, a sign-up with the same token that reads the table from then on is refused,
-- whatever the statements of other requests do in between.
pub invite_signup_post_once :
    (lib : Library) (sum : String → String) (x : Settings) (fresh user : String) (f : SignupForm)
    (i j : Invite) (s s' later : SignupState)
    → signup_with lib x fresh f (some i) s ≡ (welcome user, s')
    → get_invite_by_token_hash (sum f.token) s.invites ≡ some j
    → j.id ≡ i.id
    → Later s'.invites later.invites
    → (now2 : ℕ) (fresh2 : String) (again : SignupForm) → again.token ≡ f.token
    → invite_signup_post lib sum x now2 fresh2 again later ≡ (invalid_invite, later)
unfolding invite_signup_post signup_with
invite_signup_post_once lib sum x fresh user f i j s s' later e found same l now2 fresh2 again
      token =
    ap (λ o. signup_with lib x fresh2 again o later) gone
  where
    spent : IsSpent (sum f.token) s'.invites
    spent =
        subst (IsSpent (sum f.token))
          (sym (marked (signup_with_lem lib x fresh user f (some i) s s' e)))
          (accepted (sum f.token) user s.invites i j found same)
      where
        marked :
            (k : Invite) × (some i ≡ some k)
              × (f.email ≡ k.email)
              × (f.password ≡ f.password_confirm)
              × (s'.invites ≡ mark_invite_accepted k.id user s.invites)
            → s'.invites ≡ mark_invite_accepted i.id user s.invites
        marked (k, o, _, _, m) = let same : i ≡ k = cc o in rw same m

    gone : lookup_valid_invite sum now2 again.token later.invites ≡ none
    gone =
        let (k, at, done) = Later-IsSpent (sum f.token) spent l in
        rw token (not_pending sum now2 f.token later.invites k at done)
