-- ===== src/Access/RoleLaws.antt =====
-- How the permission sets of src/server/rbac.ts relate to one another.
use filazero_local.Base.{ℕ, ◌≤◌, ◌<◌, ◌≡◌, true, false, arith, Bool-cases, inl, inr}
use filazero_local.Access.Rbac.{Permission, UserRole, can}

-- The roles below the platform administrator, from the customer up.
abbrev pub rank : UserRole → ℕ
rank UserRole.customer = 0
rank UserRole.staff = 1
rank UserRole.manager = 2
rank UserRole.administrator = 3

manager_includes_staff :
    (p : Permission) → can UserRole.staff p ≡ true → can UserRole.manager p ≡ true
unfolding can
manager_includes_staff Permission.queue_read h = ground arith
manager_includes_staff _ h = ground arith

staff_includes_customer :
    (p : Permission) → can UserRole.customer p ≡ true → can UserRole.staff p ≡ true
unfolding can
staff_includes_customer Permission.queue_read h = ground arith
staff_includes_customer _ h = ground arith

-- Among customers, staff and managers, a higher role may do whatever a lower one may do.
pub can_grows_with_role :
    (low high : UserRole) (p : Permission)
    → rank low ≤ rank high
    → rank high < 3
    → can low p ≡ true
    → can high p ≡ true
can_grows_with_role UserRole.customer UserRole.customer p le top h = h
can_grows_with_role UserRole.customer UserRole.staff p le top h = staff_includes_customer p h
can_grows_with_role UserRole.customer UserRole.manager p le top h =
    manager_includes_staff p (staff_includes_customer p h)
can_grows_with_role UserRole.staff UserRole.staff p le top h = h
can_grows_with_role UserRole.staff UserRole.manager p le top h = manager_includes_staff p h
can_grows_with_role UserRole.manager UserRole.manager p le top h = h
can_grows_with_role _ _ p le top h = absurd (omega arith)

apart_from_manager :
    (p : Permission) → can UserRole.administrator p ≡ true → can UserRole.manager p ≡ false
unfolding can
apart_from_manager Permission.queue_read = ground arith
apart_from_manager _ = ground arith

-- The platform administrator shares no permission with a customer, a member of staff or a manager.
administrator_is_separate :
    (r : UserRole) (p : Permission)
    → rank r < 3
    → can UserRole.administrator p ≡ true
    → can r p ≡ false
administrator_is_separate r p tenant h = elim (Bool-cases (can r p)) [
  | inl holds ↦
      let manager : can UserRole.manager p ≡ true =
        can_grows_with_role r UserRole.manager p (omega arith) (omega arith) holds in
      absurd (ground (arith, manager, apart_from_manager p h))
  | inr lacks ↦ lacks
]
