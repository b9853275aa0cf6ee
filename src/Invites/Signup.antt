-- ===== src/Invites/Signup.antt =====
-- What an invitation gives, and that it serves once: web/invite.go inviteSignupPost.
use palaestra_mcp_bridge.Common.{
  ℕ, ◌≡◌, refl, sym, ap, ◌∙◌, subst, String, Bool, true, false, ◌||◌, Option, none, some, List, [],
  ◌∷◌, ◌==◌, if◌then◌else◌, Bool-cases, inl, inr, eq_iff,
}
use palaestra_mcp_bridge.Common.Tables.{find_where, set_where}
use palaestra_mcp_bridge.Auth.Tables.{UserRow, Store, Library, get_user_by_email}
use palaestra_mcp_bridge.Invites.{
  Invite, invite_pending, expired, get_invite_by_token_hash, mark_invite_accepted, when_valid,
  lookup_valid_invite, Settings, SignupForm, SignupReply, welcome, SignupState, new_account,
  account_for, signup_with, invite_signup_post, create_user,
}

-- After an update that keeps the hashes, the row of a hash is the old row, changed if it is selected.
pub find_where-set_where :
    (find test : Invite → Bool) (set : Invite → Invite)
    → ((i : Invite) → find (set i) ≡ find i)
    → (rows : List Invite) (i : Invite) → find_where find rows ≡ some i
    → find_where find (set_where test set rows) ≡ some (if test i then set i else i)
unfolding find_where set_where
find_where-set_where find test set h [] i e = absurd (cc e)
find_where-set_where find test set h (x ∷ rows) i e = elim (Bool-cases (test x)) [
  | inl t ↦ elim (Bool-cases (find x)) [
    | inl f ↦
        let same : some x ≡ some i = rw f at e in
        rw (t, h x, f) (ap some (here x t (some_injective same)))
    | inr f ↦ rw (t, h x, f) (find_where-set_where find test set h rows i (rw f at e))
  ]
  | inr t ↦ elim (Bool-cases (find x)) [
    | inl f ↦
        let same : some x ≡ some i = rw f at e in
        rw (t, f) (ap some (there x t (some_injective same)))
    | inr f ↦ rw (t, f) (find_where-set_where find test set h rows i (rw f at e))
  ]
]
  where
    some_injective : {a b : Invite} → some a ≡ some b → a ≡ b
    some_injective e = cc e

    here : (x : Invite) → test x ≡ true → x ≡ i → set x ≡ (if test i then set i else i)
    here x t s = subst (λ y. set x ≡ (if test y then set y else y)) s (rw t refl)

    there : (x : Invite) → test x ≡ false → x ≡ i → x ≡ (if test i then set i else i)
    there x t s = subst (λ y. x ≡ (if test y then set y else y)) s (rw t refl)

-- What a valid invitation is.
when_valid_sound :
    (now : ℕ) (o : Option Invite) (i : Invite)
    → when_valid now o ≡ some i
    → (o ≡ some i) × (i.status ≡ invite_pending) × (expired now i ≡ false)
when_valid_sound now none i e = absurd (cc e)
when_valid_sound now (some x) i e = elim (Bool-cases (x.status == invite_pending)) [
  | inr p ↦ absurd (cc (rw p at e))
  | inl p ↦ elim (Bool-cases (expired now x)) [
    | inl q ↦ absurd (cc (rw (p, q) at e))
    | inr q ↦
        let same : some x ≡ some i = rw (p, q) at e in
        (
          same,
          subst (λ (y : Invite). y.status ≡ invite_pending) (some_injective same)
              ((eq_iff x.status invite_pending).0 p),
          subst (λ y. expired now y ≡ false) (some_injective same) q,
        )
  ]
]
  where
    some_injective : {a b : Invite} → some a ≡ some b → a ≡ b
    some_injective e = cc e

pub lookup_valid_invite_sound :
    (sum : String → String) (now : ℕ) (token : String) (invites : List Invite) (i : Invite)
    → lookup_valid_invite sum now token invites ≡ some i
    → (get_invite_by_token_hash (sum token) invites ≡ some i)
      × (i.status ≡ invite_pending)
      × (expired now i ≡ false)
unfolding lookup_valid_invite
lookup_valid_invite_sound sum now token invites i e = elim (Bool-cases (token == "")) [
  | inl p ↦ absurd (cc (rw p at e))
  | inr p ↦ when_valid_sound now (get_invite_by_token_hash (sum token) invites) i (rw p at e)
]

-- A token whose row is no longer pending is refused.
pub not_pending :
    (sum : String → String) (now : ℕ) (token : String) (invites : List Invite) (i : Invite)
    → get_invite_by_token_hash (sum token) invites ≡ some i
    → (i.status == invite_pending) ≡ false
    → lookup_valid_invite sum now token invites ≡ none
unfolding lookup_valid_invite
not_pending sum now token invites i e p = elim (Bool-cases (token == "")) [
  | inl k ↦ rw k refl
  | inr k ↦ rw k (ap (when_valid now) e ∙ rw p refl)
]

account_for_lem :
    (lib : Library) (x : Settings) (fresh user : String) (f : SignupForm) (i : Invite)
    (o : Option UserRow) (s s' : SignupState)
    → account_for lib x fresh f i o s ≡ (welcome user, s')
    → s'.invites ≡ mark_invite_accepted i.id user s.invites
unfolding account_for new_account
account_for_lem lib x fresh user f i (some u) s s' e = elim (Bool-cases x.invite_allow_existing) [
  | inl a ↦
      let e' : (welcome u.id, record s { invites = mark_invite_accepted i.id u.id s.invites })
          ≡ (welcome user, s') =
        rw (a, account_for) at e in
      sym (ap (λ (z : SignupReply × SignupState). z.1.invites) e')
      ∙ ap (λ v. mark_invite_accepted i.id v s.invites) (welcome_injective (ap (λ z. z.0) e'))
  | inr a ↦ absurd (cc (rw (a, account_for) at e))
]
  where
    welcome_injective : {a b : String} → welcome a ≡ welcome b → a ≡ b
    welcome_injective e = cc e
account_for_lem lib x fresh user f i none s s' e =
    go
      (create_user lib
        (record { id = fresh; email = f.email; password = f.password; role = i.role }) s.store)
      e
  where
    welcome_injective : {a b : String} → welcome a ≡ welcome b → a ≡ b
    welcome_injective e = cc e

    go :
        (c : Option Store)
        → new_account fresh i c s ≡ (welcome user, s')
        → s'.invites ≡ mark_invite_accepted i.id user s.invites
    go none k = absurd (cc k)
    go (some store) k =
        sym (ap (λ (z : SignupReply × SignupState). z.1.invites) k)
        ∙ ap (λ v. mark_invite_accepted i.id v s.invites) (welcome_injective (ap (λ z. z.0) k))

pub signup_with_lem :
    (lib : Library) (x : Settings) (fresh user : String) (f : SignupForm) (o : Option Invite)
    (s s' : SignupState)
    → signup_with lib x fresh f o s ≡ (welcome user, s')
    → (i : Invite) × (o ≡ some i)
      × (f.email ≡ i.email)
      × (f.password ≡ f.password_confirm)
      × (s'.invites ≡ mark_invite_accepted i.id user s.invites)
unfolding signup_with
signup_with_lem lib x fresh user f none s s' e = absurd (cc e)
signup_with_lem lib x fresh user f (some i) s s' e =
    elim (Bool-cases (f.email == "" || f.password == "")) [
      | inl a ↦ absurd (cc (rw a at e))
      | inr a ↦ elim (Bool-cases (f.password == f.password_confirm)) [
        | inr b ↦ absurd (cc (rw (a, b) at e))
        | inl b ↦ elim (Bool-cases (f.email == i.email)) [
          | inr c ↦ absurd (cc (rw (a, b, c) at e))
          | inl c ↦ (
            i,
            refl,
            (eq_iff f.email i.email).0 c,
            (eq_iff f.password f.password_confirm).0 b,
            account_for_lem lib x fresh user f i (get_user_by_email f.email s.store) s s'
                (rw (a, b, c) at e),
          )
        ]
      ]
    ]

-- An account is given only for an invitation that is pending and has not expired, to its address,
-- and with a confirmed password; the invitation is accepted by the user then.
pub invite_signup_post_lem :
    (lib : Library) (sum : String → String) (x : Settings) (now : ℕ) (fresh user : String)
    (f : SignupForm) (s s' : SignupState)
    → invite_signup_post lib sum x now fresh f s ≡ (welcome user, s')
    → (i : Invite) × (get_invite_by_token_hash (sum f.token) s.invites ≡ some i)
      × (i.status ≡ invite_pending)
      × (expired now i ≡ false)
      × (f.email ≡ i.email)
      × (f.password ≡ f.password_confirm)
      × (s'.invites ≡ mark_invite_accepted i.id user s.invites)
unfolding invite_signup_post
invite_signup_post_lem lib sum x now fresh user f s s' e =
    let (i, o, a, b, c) =
      signup_with_lem lib x fresh user f (lookup_valid_invite sum now f.token s.invites) s s' e in
    let (p, q, r) = lookup_valid_invite_sound sum now f.token s.invites i o in (i, p, q, r, a, b, c)
