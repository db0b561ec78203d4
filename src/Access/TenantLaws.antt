-- ===== src/Access/TenantLaws.antt =====
-- What the guards of src/server/context.ts let through.
use filazero_local.Base.{
  ℕ, ◌≡◌, refl, ◌≢◌, Bool, ◌&&◌, List, [], ◌∷◌, arith, ltb, select, count_if,
  count_if-length-select, count_if-le, ◌<◌, ◌↔◌, In, count_if-In, count_if-some, Option, none, some,
  ap, ◌∙◌, ◌⊎◌, inl, inr, ◌==◌, ==_iff, true,
}
use filazero_local.Errors.{ok}
use filazero_local.Access.Rbac.{UserRole}
use filazero_local.Access.Context.{
  AuthContext, MembershipContext, MemberStatus, is_active_member, any, covers, belongs,
  active_memberships, assert_organization_access, assert_branch_access,
}

-- The test that the guard makes of a membership.
abbrev pub reaches : ℕ → ℕ → MembershipContext → Bool
reaches organization_id branch_id m = belongs organization_id m && covers branch_id m.branch_id

any-select :
    {A : Type 0} (p q : A → Bool) (xs : List A)
    → any q (select p xs) ≡ ltb 0 (count_if (λ x. p x && q x) xs)
any-select p q [] = refl
any-select p q (x ∷ xs) = ground (arith, any-select p q xs)

-- Whether a row of memberships lets its holder into a branch: it is active, of the organization of
-- the branch, and names the branch or none.
abbrev pub OpensBranch : ℕ → ℕ → MembershipContext → Type 0
OpensBranch organization_id branch_id m =
    (m.organization_id ≡ organization_id)
    × (m.status ≡ MemberStatus.active)
    × ((m.branch_id ≡ none) ⊎ (m.branch_id ≡ some branch_id))

is_active_member-eq : (s : MemberStatus) → is_active_member s ≡ true → s ≡ MemberStatus.active
is_active_member-eq MemberStatus.active h = refl
is_active_member-eq MemberStatus.invited h = cc
is_active_member-eq MemberStatus.suspended h = cc

covers-eq : (b : ℕ) (o : Option ℕ) → covers b o ≡ true → (o ≡ none) ⊎ (o ≡ some b)
covers-eq b none h = inl refl
covers-eq b (some a) h = inr (ap some ((==_iff a b).0 h))

reaches-OpensBranch : (o b : ℕ) (m : MembershipContext) → reaches o b m ≡ true → OpensBranch o b m
reaches-OpensBranch o b m h = (
  ground (arith, h),
  is_active_member-eq m.status (ground (arith, h)),
  covers-eq b m.branch_id (ground (arith, h)),
)

OpensBranch-reaches : (o b : ℕ) (m : MembershipContext) → OpensBranch o b m → reaches o b m ≡ true
OpensBranch-reaches o b m (same, is_active, inl every) =
    ap (λ s. m.organization_id == o && is_active_member s && covers b m.branch_id) is_active
    ∙ ap (λ c. m.organization_id == o && true && covers b c) every
    ∙ ground (arith, same)
OpensBranch-reaches o b m (same, is_active, inr own) =
    ap (λ s. m.organization_id == o && is_active_member s && covers b m.branch_id) is_active
    ∙ ap (λ c. m.organization_id == o && true && covers b c) own
    ∙ ground (arith, same)

pub access_counted :
    (ctx : AuthContext) (o b : ℕ)
    → (assert_branch_access ctx o b ≡ ok tt)
      ↔ ((ctx.role ≢ UserRole.administrator) × (0 < count_if (reaches o b) ctx.memberships))
unfolding assert_branch_access active_memberships
access_counted ctx o b =
    ground (arith, any-select (belongs o) (λ m. covers b m.branch_id) ctx.memberships)

-- Branch access is granted to exactly those callers who are no platform administrators and have a
-- membership that is active, of that organization, and for that branch or for every branch.
pub assert_branch_access_iff :
    (ctx : AuthContext) (o b : ℕ)
    → (assert_branch_access ctx o b ≡ ok tt) ↔ (
        (ctx.role ≢ UserRole.administrator)
        × (m : MembershipContext) × In m ctx.memberships
        × OpensBranch o b m)
assert_branch_access_iff ctx o b = (
  λ h.
      let (role, some_reach) = (access_counted ctx o b).0 h in
      let (m, there, reach) = count_if-some (reaches o b) ctx.memberships some_reach in
      (role, m, there, reaches-OpensBranch o b m reach),
  λ (role, m, there, opens).
      (access_counted ctx o b).1
        (role, count_if-In (reaches o b) ctx.memberships m there (OpensBranch-reaches o b m opens)),
)

-- Branch access is never wider than access to the organization, for any branch.
branch_access-implies-organization_access :
    (ctx : AuthContext) (o b : ℕ)
    → assert_branch_access ctx o b ≡ ok tt
    → assert_organization_access ctx o ≡ ok tt
unfolding assert_branch_access assert_organization_access active_memberships
branch_access-implies-organization_access ctx o b h = ground (
  arith,
  any-select (belongs o) (λ m. covers b m.branch_id) ctx.memberships,
  count_if-length-select (belongs o) ctx.memberships,
  count_if-le (reaches o b) (belongs o) (λ m e. ground arith) ctx.memberships,
)
