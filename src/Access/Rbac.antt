-- ===== src/Access/Rbac.antt =====
-- src/server/rbac.ts: the permissions of each role.
use filazero_local.Base.{Bool, List, [], ◌∷◌, ◌++◌, includes}

pub data UserRole : Type 0 where
  customer staff manager administrator : UserRole

pub data Permission : Type 0 where
  queue_read ticket_join ticket_read_self ticket_leave_self : Permission
  notification_read_self profile_update_self : Permission
  ticket_read_organization ticket_call ticket_serve ticket_complete ticket_cancel : Permission
  queue_manage branch_read_organization member_manage billing_read billing_manage : Permission
  organization_manage branch_manage user_manage audit_read platform_admin : Permission

unfoldable pub Permission-discrete : Discrete Permission
Permission-discrete = hlevel

unfoldable pub UserRole-discrete : Discrete UserRole
UserRole-discrete = hlevel

abbrev customer_permissions : List Permission
customer_permissions =
    Permission.queue_read ∷ Permission.ticket_join ∷ Permission.ticket_read_self
    ∷ Permission.ticket_leave_self ∷ Permission.notification_read_self
    ∷ Permission.profile_update_self ∷ []

abbrev staff_permissions : List Permission
staff_permissions =
    customer_permissions
    ++ (Permission.ticket_read_organization ∷ Permission.ticket_call ∷ Permission.ticket_serve
        ∷ Permission.ticket_complete ∷ Permission.ticket_cancel ∷ [])

abbrev manager_permissions : List Permission
manager_permissions =
    staff_permissions
    ++ (Permission.queue_manage ∷ Permission.branch_read_organization ∷ Permission.member_manage
        ∷ Permission.billing_read ∷ Permission.billing_manage ∷ [])

abbrev administrator_permissions : List Permission
administrator_permissions = Permission.organization_manage ∷ Permission.platform_admin ∷ []

unfoldable pub permissions_for : UserRole → List Permission
permissions_for UserRole.customer = customer_permissions
permissions_for UserRole.staff = staff_permissions
permissions_for UserRole.manager = manager_permissions
permissions_for UserRole.administrator = administrator_permissions

unfoldable pub can : UserRole → Permission → Bool
unfolding permissions_for Permission-discrete
can role permission = includes Permission-discrete (permissions_for role) permission

unfoldable pub is_organization_role : UserRole → Bool
unfolding UserRole-discrete
is_organization_role role = includes UserRole-discrete (UserRole.staff ∷ UserRole.manager ∷ []) role
