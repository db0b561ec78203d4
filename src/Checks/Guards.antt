-- ===== src/Checks/Guards.antt =====
-- Tests of src/server/rbac.ts and src/server/context.ts.
use filazero_local.Base.{◌≡◌, ◌≢◌, ◌↔◌, refl, true, In, arith}
use filazero_local.Errors.{ok, err, ErrorCode}
use filazero_local.Access.Rbac.{Permission, UserRole, can}
use filazero_local.Access.RoleLaws.{can_grows_with_role}
use filazero_local.Access.Context.{MembershipContext, assert_branch_access, active_memberships}
use filazero_local.Access.TenantLaws.{OpensBranch, assert_branch_access_iff}
use filazero_local.Checks.Sample.{staff_ctx}

can_grows_with_role_example : can UserRole.manager Permission.ticket_join ≡ true
unfolding can
can_grows_with_role_example =
    can_grows_with_role UserRole.customer UserRole.manager Permission.ticket_join (omega arith)
      (omega arith) refl

other_tenant : assert_branch_access staff_ctx 8 3 ≡ err ErrorCode.forbidden
unfolding assert_branch_access active_memberships
other_tenant = refl

assert_branch_access_iff_example : (assert_branch_access staff_ctx 7 3 ≡ ok tt) ↔ (
    (staff_ctx.role ≢ UserRole.administrator)
    × (m : MembershipContext) × In m staff_ctx.memberships
    × OpensBranch 7 3 m)
assert_branch_access_iff_example = assert_branch_access_iff staff_ctx 7 3
