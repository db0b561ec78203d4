-- ===== src/Invoices/PlanLaws.antt =====
-- The limits of a plan, and what an assigned plan is worth.
use filazero_local.Base.{
  if◌then◌else◌, ℕ, ◌+◌, ◌*◌, ◌≤◌, ◌<◌, ◌≡◌, true, Bool, some, List, arith, ltb, count_if, ap, sym,
  subst, ◌∙◌, ==_refl,
}
use filazero_local.Errors.{
  ok, ◌>>=◌, >>=-eq-ok, ok_inj, or_throw-eq-ok, require-eq-ok, or_throw, require, ErrorCode, Result,
}
use filazero_local.Access.Context.{AuthContext, require_permission}
use filazero_local.Access.Rbac.{Permission}
use filazero_local.Billing.Dates.{ms_per_day, add_interval, BillingInterval}
use filazero_local.Billing.DateLaws.{add_interval_bounds}
use filazero_local.Invoices.Tables.{Plan, Subscription, BillingDb}
use filazero_local.Invoices.Plans.{
  is_subscription_operational, assert_subscription_operational, BranchRow, branch_of, QueueRow,
  queue_of, MemberRow, active_member_of, assert_can_create_branch, assert_can_create_queue,
  assert_can_add_member, assign_plan, assigned,
}

-- The organization operates under the plan, and the count stays in the limit with one row more.
abbrev pub HasRoom : ℕ → ℕ → BillingDb → (Plan → ℕ) → ℕ → Type 0
HasRoom organization_id now db limit count =
    (s : Subscription) × (plan : Plan) × (db.subscriptions organization_id ≡ some s)
    × (is_subscription_operational (some s) now ≡ true)
    × (db.plans s.plan_id ≡ some plan)
    × (count + 1 ≤ limit plan)

operational-parts :
    (organization_id now : ℕ) (db : BillingDb) (r : Subscription × Plan)
    → assert_subscription_operational organization_id now db ≡ ok r
    → (db.subscriptions organization_id ≡ some r.0)
      × (is_subscription_operational (some r.0) now ≡ true)
      × (db.plans r.0.plan_id ≡ some r.1)
unfolding assert_subscription_operational
operational-parts organization_id now db r h =
    let (s, found, rest) =
      >>=-eq-ok (or_throw (db.subscriptions organization_id) ErrorCode.payment_required) _ h in
    let (u, runs, rest) =
      >>=-eq-ok (require (is_subscription_operational (some s) now) ErrorCode.payment_required) _
        rest in
    let (plan, named, same) = >>=-eq-ok (or_throw (db.plans s.plan_id) ErrorCode.internal) _ rest in
    let e : (s, plan) ≡ r = ok_inj same in
    subst
      (λ r.
        (db.subscriptions organization_id ≡ some r.0)
        × (is_subscription_operational (some r.0) now ≡ true)
        × (db.plans r.0.plan_id ≡ some r.1))
      e
      (
        or_throw-eq-ok _ _ found,
        require-eq-ok _ ErrorCode.payment_required runs,
        or_throw-eq-ok _ _ named,
      )

-- A guard that has let the caller pass: the subscription runs and there is room for one more.
has_room :
    (organization_id now count : ℕ) (db : BillingDb) (limit : Plan → ℕ)
    → (assert_subscription_operational organization_id now db >>= λ r.
        require (ltb count (limit r.1)) ErrorCode.quota_exceeded)
      ≡ ok tt
    → HasRoom organization_id now db limit count
has_room organization_id now count db limit h =
    let (r, runs, rest) = >>=-eq-ok (assert_subscription_operational organization_id now db) _ h in
    let (found, operational, named) = operational-parts organization_id now db r runs in
    let below : ltb count (limit r.1) ≡ true = require-eq-ok _ ErrorCode.quota_exceeded rest in
    (r.0, r.1, found, operational, named, ground (arith, below))

-- The three ways to grow: each with its guard, its limit and what is counted so far.
pub data Growth : Type 0 where
  a_branch : Growth
  a_queue : (branch_id : ℕ) → Growth
  a_member : Growth

pub record Rows : Type 0 where
  pub branches : List BranchRow
  pub queues : List QueueRow
  pub members : List MemberRow

abbrev pub guard : Growth → ℕ → ℕ → Rows → BillingDb → Result (Unit {0})
guard a_branch organization_id now rows db =
    assert_can_create_branch organization_id now rows.branches db
guard (a_queue branch_id) organization_id now rows db =
    assert_can_create_queue organization_id branch_id now rows.queues db
guard a_member organization_id now rows db =
    assert_can_add_member organization_id now rows.members db

abbrev pub limit : Growth → Plan → ℕ
limit a_branch plan = plan.max_branches
limit (a_queue branch_id) plan = plan.max_queues_per_branch
limit a_member plan = plan.max_staff

abbrev pub used : Growth → ℕ → Rows → ℕ
used a_branch organization_id rows = count_if (branch_of organization_id) rows.branches
used (a_queue branch_id) organization_id rows = count_if (queue_of branch_id) rows.queues
used a_member organization_id rows = count_if (active_member_of organization_id) rows.members

-- A branch, a queue or a member that its guard lets through leaves the organization inside its plan:
-- the subscription is active or on trial and runs now, and with the new row the branches of the
-- organization, the queues of the branch or the active members are at most what the plan allows.
pub guard-HasRoom :
    (growth : Growth) (organization_id now : ℕ) (rows : Rows) (db : BillingDb)
    → guard growth organization_id now rows db ≡ ok tt
    → HasRoom organization_id now db (limit growth) (used growth organization_id rows)
unfolding assert_can_create_branch assert_can_create_queue assert_can_add_member
guard-HasRoom a_branch organization_id now rows db =
    has_room organization_id now _ db (λ p. p.max_branches)
guard-HasRoom (a_queue branch_id) organization_id now rows db =
    has_room organization_id now _ db (λ p. p.max_queues_per_branch)
guard-HasRoom a_member organization_id now rows db =
    has_room organization_id now _ db (λ p. p.max_staff)

add_interval-le : (date : ℕ) (i : BillingInterval) → date + 28 * ms_per_day ≤ add_interval date i
add_interval-le date BillingInterval.monthly = (add_interval_bounds date).0
add_interval-le date BillingInterval.yearly = omega (arith, (add_interval_bounds date).2)

assigned-operational :
    (plan_id now day : ℕ) (plan : Plan)
    → day < now + 28 * ms_per_day
    → is_subscription_operational (some (assigned plan_id plan now)) day ≡ true
unfolding is_subscription_operational
assigned-operational plan_id now day plan by =
    let runs : day < add_interval now plan.interval =
      omega (arith, by, add_interval-le now plan.interval) in
    ground (arith, runs)

-- A plan that is assigned lets the organization operate for 28 days at least, and touches neither a
-- payment nor an invoice number.
pub assign_plan-effect :
    (ctx : AuthContext) (organization_id plan_id now day : ℕ) (organizations : ℕ → Bool)
    (db : BillingDb) (r : Subscription × BillingDb)
    → assign_plan ctx organization_id plan_id now organizations db ≡ ok r
    → day < now + 28 * ms_per_day
    → (is_subscription_operational (r.1.subscriptions organization_id) day ≡ true)
      × (r.1.transactions ≡ db.transactions)
      × (r.1.series ≡ db.series)
unfolding assign_plan
assign_plan-effect ctx organization_id plan_id now day organizations db r h by =
    let (u, _, rest) = >>=-eq-ok (require_permission ctx Permission.organization_manage) _ h in
    let (u2, _, rest) =
      >>=-eq-ok (require (organizations organization_id) ErrorCode.not_found) _ rest in
    let (plan, _, rest) = >>=-eq-ok (or_throw (db.plans plan_id) ErrorCode.not_found) _ rest in
    let (u3, _, same) = >>=-eq-ok (require plan.active ErrorCode.not_found) _ rest in
    let row = assigned plan_id plan now in
    let e = sym (ok_inj same) in
    let written : r.1.subscriptions organization_id ≡ some row =
      ap (λ r. r.1.subscriptions organization_id) e
      ∙ ap (λ b. if b then some row else db.subscriptions organization_id)
          (==_refl organization_id) in
    (
      ap (λ o. is_subscription_operational o day) written
          ∙ assigned-operational plan_id now day plan by,
      ap (λ r. r.1.transactions) e,
      ap (λ r. r.1.series) e,
    )
