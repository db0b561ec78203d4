-- ===== src/Access/Context.antt =====
-- src/server/context.ts: who calls, and the guards that keep a caller inside its tenant.
use filazero_local.Base.{
  ℕ, Bool, true, false, not, ◌&&◌, ◌||◌, Option, none, some, List, [], ◌∷◌, ltb, ◌==◌,
  if◌then◌else◌, length, select, includes,
}
use filazero_local.Errors.{Result, ErrorCode, require, ◌>>◌}
use filazero_local.Access.Rbac.{UserRole, UserRole-discrete, Permission, can}

pub data MemberStatus : Type 0 where
  active invited suspended : MemberStatus

-- No branch means every branch of the organization.
pub record MembershipContext : Type 0 where
  pub organization_id : ℕ
  pub branch_id : Option ℕ
  pub role : UserRole
  pub status : MemberStatus

-- The caller's name and email are not modelled.
pub record AuthContext : Type 0 where
  pub user_id : ℕ
  pub role : UserRole
  pub memberships : List MembershipContext

abbrev pub is_active_member : MemberStatus → Bool
is_active_member MemberStatus.active = true
is_active_member _ = false

abbrev pub is_administrator : UserRole → Bool
is_administrator UserRole.administrator = true
is_administrator _ = false

unfoldable pub require_permission : AuthContext → Permission → Result (Unit {0})
require_permission ctx permission = require (can ctx.role permission) ErrorCode.forbidden

-- The caller's active memberships of one organization.
abbrev pub belongs : ℕ → MembershipContext → Bool
belongs organization_id m = m.organization_id == organization_id && is_active_member m.status

unfoldable pub active_memberships : AuthContext → ℕ → List MembershipContext
active_memberships ctx organization_id = select (belongs organization_id) ctx.memberships

unfoldable pub assert_organization_access : AuthContext → ℕ → Result (Unit {0})
assert_organization_access ctx organization_id = do
  require (not (is_administrator ctx.role)) ErrorCode.forbidden
  require (ltb 0 (length (active_memberships ctx organization_id))) ErrorCode.forbidden

-- `some`
abbrev pub any {ℓ} : {A : Type ℓ} → (A → Bool) → List A → Bool
any p [] = false
any p (x ∷ xs) = p x || any p xs

-- Whether a membership reaches a branch: it names that branch, or none.
abbrev pub covers : ℕ → Option ℕ → Bool
covers branch_id none = true
covers branch_id (some b) = b == branch_id

unfoldable pub assert_branch_access : AuthContext → ℕ → ℕ → Result (Unit {0})
assert_branch_access ctx organization_id branch_id = do
  require (not (is_administrator ctx.role)) ErrorCode.forbidden
  require (any (λ m. covers branch_id m.branch_id) (active_memberships ctx organization_id))
      ErrorCode.forbidden

unfoldable pub has_organization_role : AuthContext → ℕ → List UserRole → Bool
unfolding UserRole-discrete
has_organization_role ctx organization_id roles =
    if is_administrator ctx.role
    then false
    else any (λ m. includes UserRole-discrete roles m.role) (active_memberships ctx organization_id)

unfoldable pub assert_organization_role : AuthContext → ℕ → List UserRole → Result (Unit {0})
assert_organization_role ctx organization_id roles =
    require (has_organization_role ctx organization_id roles) ErrorCode.forbidden

unfoldable pub assert_manager_of_organization : AuthContext → ℕ → Result (Unit {0})
assert_manager_of_organization ctx organization_id =
    assert_organization_role ctx organization_id (UserRole.manager ∷ [])

unfoldable pub assert_platform_admin : AuthContext → Result (Unit {0})
assert_platform_admin ctx = require_permission ctx Permission.platform_admin
