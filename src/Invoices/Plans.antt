-- ===== src/Invoices/Plans.antt =====
-- src/server/billing/subscription.service.ts and plan-guard.ts: whether an organization may operate
-- and grow; and `assignPlan` of billing.service.ts. A call reads the clock once.
use filazero_local.Base.{
  ℕ, ◌+◌, ◌*◌, Bool, true, false, ◌&&◌, Option, none, some, List, ◌∷◌, ltb, ◌==◌, if◌then◌else◌,
  count_if,
}
use filazero_local.Errors.{Result, ok, ErrorCode, require, or_throw, ◌>>=◌, ◌>>◌}
use filazero_local.Access.Rbac.{Permission}
use filazero_local.Access.Context.{AuthContext, require_permission}
use filazero_local.Database.{SubscriptionStatus}
use filazero_local.Billing.Dates.{add_interval}
use filazero_local.Invoices.Tables.{Plan, Subscription, BillingAction, BillingDb}
use filazero_local.Invoices.Payment.{write_subscription}

abbrev pub is_trialing_or_active : SubscriptionStatus → Bool
is_trialing_or_active SubscriptionStatus.trialing = true
is_trialing_or_active SubscriptionStatus.active = true
is_trialing_or_active _ = false

unfoldable pub is_subscription_operational : Option Subscription → ℕ → Bool
is_subscription_operational none now = false
is_subscription_operational (some s) now =
    if is_trialing_or_active s.status then ltb now s.current_period_end else false

-- The subscription with its plan; the foreign key keeps the plan there.
unfoldable pub assert_subscription_operational : ℕ → ℕ → BillingDb → Result (Subscription × Plan)
assert_subscription_operational organization_id now db = do
  s ← or_throw (db.subscriptions organization_id) ErrorCode.payment_required
  require (is_subscription_operational (some s) now) ErrorCode.payment_required
  plan ← or_throw (db.plans s.plan_id) ErrorCode.internal
  ok (s, plan)

-- What the limits of a plan count.
pub record BranchRow : Type 0 where
  pub organization_id : ℕ

pub record QueueRow : Type 0 where
  pub branch_id : ℕ

pub record MemberRow : Type 0 where
  pub organization_id : ℕ
  pub has_active_status : Bool

abbrev pub branch_of : ℕ → BranchRow → Bool
branch_of organization_id b = b.organization_id == organization_id

abbrev pub queue_of : ℕ → QueueRow → Bool
queue_of branch_id row = row.branch_id == branch_id

abbrev pub active_member_of : ℕ → MemberRow → Bool
active_member_of organization_id m = m.organization_id == organization_id && m.has_active_status

unfoldable pub assert_can_create_branch : ℕ → ℕ → List BranchRow → BillingDb → Result (Unit {0})
assert_can_create_branch organization_id now branches db = do
  (s, plan) ← assert_subscription_operational organization_id now db
  require (ltb (count_if (branch_of organization_id) branches) plan.max_branches)
      ErrorCode.quota_exceeded

unfoldable pub assert_can_create_queue : ℕ → ℕ → ℕ → List QueueRow → BillingDb → Result (Unit {0})
assert_can_create_queue organization_id branch_id now queues db = do
  (s, plan) ← assert_subscription_operational organization_id now db
  require (ltb (count_if (queue_of branch_id) queues) plan.max_queues_per_branch)
      ErrorCode.quota_exceeded

unfoldable pub assert_can_add_member : ℕ → ℕ → List MemberRow → BillingDb → Result (Unit {0})
assert_can_add_member organization_id now members db = do
  (s, plan) ← assert_subscription_operational organization_id now db
  require (ltb (count_if (active_member_of organization_id) members) plan.max_staff)
      ErrorCode.quota_exceeded

-- An upsert with nothing to update. `trial` is the id of the plan that `TRIAL_PLAN_CODE` names, if
-- there is one, and `days` is `TRIAL_DAYS`.
unfoldable pub attach_trial_subscription :
    Option ℕ → ℕ → ℕ → ℕ → BillingDb → Option Subscription × BillingDb
attach_trial_subscription none days organization_id now db = (none, db)
attach_trial_subscription (some trial) days organization_id now db =
    elim (db.subscriptions organization_id) [
      | some s ↦ (some s, db)
      | none ↦ (some fresh, write_subscription organization_id fresh db)
    ]
  where
    fresh : Subscription
    fresh = record {
      plan_id = trial;
      status = SubscriptionStatus.trialing;
      current_period_start = now;
      current_period_end = now + days * 86400000;
      cancel_at_period_end = false;
      cancelled_at = none;
    }

abbrev pub assigned : ℕ → Plan → ℕ → Subscription
assigned plan_id plan now = record {
  plan_id = plan_id;
  status = SubscriptionStatus.active;
  current_period_start = now;
  current_period_end = add_interval now plan.interval;
  cancel_at_period_end = false;
  cancelled_at = none;
}

-- `organizations` tells which organizations there are.
unfoldable pub assign_plan :
    AuthContext → ℕ → ℕ → ℕ → (ℕ → Bool) → BillingDb → Result (Subscription × BillingDb)
assign_plan ctx organization_id plan_id now organizations db = do
  require_permission ctx Permission.organization_manage
  require (organizations organization_id) ErrorCode.not_found
  plan ← or_throw (db.plans plan_id) ErrorCode.not_found
  require plan.active ErrorCode.not_found
  let row = assigned plan_id plan now
  let changed = write_subscription organization_id row db
  ok (
    row,
    record changed {
      audit_logs =
          record {
            actor_user_id = some ctx.user_id;
            action = BillingAction.plan_assigned;
            entity_id = organization_id;
          }
          ∷ changed.audit_logs;
    },
  )
