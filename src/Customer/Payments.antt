-- ===== src/Customer/Payments.antt =====
-- src/server/customer/customer-subscription.service.ts: the trial of a new customer and
-- `applyCustomerPaymentEvent`. A call reads the clock once.
use filazero_local.Base.{
  ℕ, ◌+◌, ◌*◌, Bool, true, false, not, ◌&&◌, ◌||◌, Option, none, some, ltb, ◌==◌, if◌then◌else◌,
  is_some_of, count_if, find, modify_where,
}
use filazero_local.Errors.{Result, ok, ErrorCode, require, or_throw, ◌>>=◌, ◌>>◌}
use filazero_local.Database.{
  Db, CustomerPayment, CustomerSubscription, SubscriptionStatus, TransactionStatus, AuditAction,
  update, record_audit,
}
use filazero_local.Billing.Dates.{BillingInterval, add_interval}

abbrev pub customer_trial_days : ℕ
customer_trial_days = 30

-- An upsert with nothing to update: a subscription that is there stays as it is.
unfoldable pub attach_customer_trial : ℕ → ℕ → Db → Db
attach_customer_trial user now db = elim (db.customer_subscriptions user) [
  | some s ↦ db
  | none ↦ record db { customer_subscriptions = update db.customer_subscriptions user trial }
]
  where
    trial : CustomerSubscription
    trial = record {
      status = SubscriptionStatus.trialing;
      current_period_start = now;
      current_period_end = now + customer_trial_days * 86400000;
      cancel_at_period_end = false;
    }

pub data Outcome : Type 0 where
  succeeded failed : Outcome

-- What `normalizePaymentEvent` hands on, as far as it is used here.
pub record PaymentEvent : Type 0 where
  pub event_id : ℕ
  pub outcome : Outcome
  pub reference : ℕ
  pub provider_reference : Option ℕ
  pub paid_at : ℕ

pub record WebhookOutcome : Type 0 where
  pub duplicate : Bool
  pub payment : CustomerPayment

abbrev pub is_succeeded : TransactionStatus → Bool
is_succeeded TransactionStatus.succeeded = true
is_succeeded _ = false

-- `status IN ('PENDING', 'UNDER_REVIEW')`
abbrev pub is_open_payment : TransactionStatus → Bool
is_open_payment TransactionStatus.pending = true
is_open_payment TransactionStatus.under_review = true
is_open_payment _ = false

abbrev pub has_reference : ℕ → CustomerPayment → Bool
has_reference reference p = reference == p.reference

abbrev pub has_payment_id : ℕ → CustomerPayment → Bool
has_payment_id id p = id == p.id

-- An update by primary key that writes the event. The unique index on `provider_event_id` refuses
-- it if another payment has the event.
unfoldable pub write_event : PaymentEvent → CustomerPayment → Db → Result Db
write_event event row db = do
  require
      (count_if (λ p. not (row.id == p.id) && is_some_of event.event_id p.provider_event_id)
          db.customer_payments
        == 0)
      ErrorCode.conflict
  ok (record db {
    customer_payments = modify_where (has_payment_id row.id) (λ _. row) db.customer_payments;
  })

abbrev pub as_failed : PaymentEvent → CustomerPayment → CustomerPayment
as_failed event p = record p {
  status = TransactionStatus.failed;
  provider_event_id = some event.event_id;
  provider_reference = event.provider_reference;
  reported_failed = true;
}

abbrev pub as_paid : PaymentEvent → CustomerPayment → CustomerPayment
as_paid event p = record p {
  status = TransactionStatus.succeeded;
  provider_event_id = some event.event_id;
  provider_reference = event.provider_reference;
  paid_at = some event.paid_at;
  subscription_id = some p.user_id;
}

-- The subscription after a payment: a period that still runs is extended, else one starts now.
unfoldable pub extended : Option CustomerSubscription → ℕ → CustomerSubscription
extended existing now = record {
  status = SubscriptionStatus.active;
  current_period_start = first_day existing;
  current_period_end = add_interval (last_day existing) BillingInterval.monthly;
  cancel_at_period_end = false;
}
  where
    first_day : Option CustomerSubscription → ℕ
    first_day none = now
    first_day (some s) = if ltb now s.current_period_end then s.current_period_start else now

    last_day : Option CustomerSubscription → ℕ
    last_day none = now
    last_day (some s) = if ltb now s.current_period_end then s.current_period_end else now

-- What follows once the payment is known to be new: the failure is noted, or an open payment is
-- claimed and the subscription extended. The two updates of the payment are written as one.
unfoldable pub settle :
    Outcome → PaymentEvent → CustomerPayment → ℕ → Db → Result (WebhookOutcome × Db)
settle Outcome.failed event payment now db = do
  written ← write_event event (as_failed event payment) db
  ok (record { duplicate = false; payment = as_failed event payment }, written)
settle Outcome.succeeded event payment now db =
    if is_open_payment payment.status
    then (do
      written ← write_event event (as_paid event payment) db
      let subscription = extended (db.customer_subscriptions payment.user_id) now
      let renewed = record written {
        customer_subscriptions = update written.customer_subscriptions payment.user_id subscription;
      }
      ok (
        record { duplicate = false; payment = as_paid event payment },
        record_audit none AuditAction.customer_payment_confirmed payment.id renewed,
      ))
    else ok (record { duplicate = true; payment = payment }, db)

unfoldable pub apply_customer_payment_event : PaymentEvent → ℕ → Db → Result (WebhookOutcome × Db)
unfolding settle
apply_customer_payment_event event now db = do
  payment ← or_throw (find (has_reference event.reference) db.customer_payments) ErrorCode.not_found
  (if is_some_of event.event_id payment.provider_event_id || is_succeeded payment.status
      then ok (record { duplicate = true; payment = payment }, db)
      else settle event.outcome event payment now db)
