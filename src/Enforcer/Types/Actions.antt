-- ===== src/Enforcer/Types/Actions.antt =====
-- enforcer/types.go: which actions deny, need an approval, or warn. The sets are global maps that
-- `Register…` fills; `init` registers the constants.
use palaestra_mcp_bridge.Common.{
  String, ◌≡◌, refl, Bool, true, false, ◌||◌, Option, none, some, [], arith,
}
use palaestra_mcp_bridge.Common.Dict.{Dict, lookup, insert, lookup-insert}

pub record ActionSets : Type 0 where
  pub admin_approval : Dict Bool
  pub user_approval : Dict Bool
  pub approval : Dict Bool
  pub warning : Dict Bool
  pub deny : Dict Bool

abbrev pub no_actions : ActionSets
no_actions = record {
  admin_approval = [];
  user_approval = [];
  approval = [];
  warning = [];
  deny = [];
}

-- Reading a Go map of Booleans.
abbrev pub flag : Option Bool → Bool
flag none = false
flag (some b) = b

unfoldable pub register_admin_approval_action : String → ActionSets → ActionSets
register_admin_approval_action a s = record s {
  admin_approval = insert a true s.admin_approval;
  approval = insert a true s.approval;
}

unfoldable pub register_user_approval_action : String → ActionSets → ActionSets
register_user_approval_action a s = record s {
  user_approval = insert a true s.user_approval;
  approval = insert a true s.approval;
}

unfoldable pub register_deny_action : String → ActionSets → ActionSets
register_deny_action a s = record s { deny = insert a true s.deny }

unfoldable pub register_warning_action : String → ActionSets → ActionSets
register_warning_action a s = record s { warning = insert a true s.warning }

-- `init`
unfoldable pub init_actions : ActionSets
unfolding register_admin_approval_action register_user_approval_action register_deny_action
    register_warning_action insert
init_actions = register_warning_action "WARN" (
    register_deny_action "DENY" (
      register_user_approval_action "PENDING_USER_APPROVAL" (
        register_admin_approval_action "PENDING_ADMIN_APPROVAL"
          (register_admin_approval_action "PENDING_APPROVAL" no_actions))))

unfoldable pub is_deny_action : ActionSets → String → Bool
is_deny_action s a = flag (lookup a s.deny)

unfoldable pub requires_approval : ActionSets → String → Bool
requires_approval s a = flag (lookup a s.approval)

unfoldable pub requires_user_approval : ActionSets → String → Bool
requires_user_approval s a = flag (lookup a s.user_approval)

unfoldable pub requires_admin_approval : ActionSets → String → Bool
requires_admin_approval s a = flag (lookup a s.admin_approval)

unfoldable pub requires_warning : ActionSets → String → Bool
requires_warning s a = flag (lookup a s.warning)

-- The sets that registrations lead to, in any number and order.
pub data Registered : ActionSets → Type 0 where
  none_yet : Registered no_actions
  admin :
      {s : ActionSets} (a : String) → Registered s → Registered (register_admin_approval_action a s)
  user :
      {s : ActionSets} (a : String) → Registered s → Registered (register_user_approval_action a s)
  denial : {s : ActionSets} (a : String) → Registered s → Registered (register_deny_action a s)
  warning : {s : ActionSets} (a : String) → Registered s → Registered (register_warning_action a s)

-- After any registrations, an action requires approval exactly if it requires the approval of the
-- user or of an admin.
pub requires_approval-Registered :
    {s : ActionSets} (a : String)
    → Registered s
    → requires_approval s a ≡ (requires_user_approval s a || requires_admin_approval s a)
unfolding requires_approval requires_user_approval requires_admin_approval
    register_admin_approval_action register_user_approval_action register_deny_action
    register_warning_action lookup
requires_approval-Registered a none_yet = refl
requires_approval-Registered a (admin {s} b r) = ground (
  arith,
  requires_approval-Registered a r,
  lookup-insert b a true s.admin_approval,
  lookup-insert b a true s.approval,
)
requires_approval-Registered a (user {s} b r) = ground (
  arith,
  requires_approval-Registered a r,
  lookup-insert b a true s.user_approval,
  lookup-insert b a true s.approval,
)
requires_approval-Registered a (denial b r) = requires_approval-Registered a r
requires_approval-Registered a (warning b r) = requires_approval-Registered a r
