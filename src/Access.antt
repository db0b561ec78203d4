-- ===== src/Access.antt =====
-- Who may do what: roles and permissions (src/server/rbac.ts), the caller and the tenant guards
-- (src/server/context.ts).
pub mod Rbac
pub mod RoleLaws
pub mod Context
pub mod TenantLaws
