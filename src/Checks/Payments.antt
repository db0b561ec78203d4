-- ===== src/Checks/Payments.antt =====
-- Tests of src/server/customer/customer-subscription.service.ts and of `addInterval`.
use filazero_local.Base.{ℕ, ◌+◌, ◌*◌, ◌%◌, ◌≤◌, ◌≡◌, refl, true, false, none, [], ◌∷◌, arith, List}
use filazero_local.Errors.{Result, ok, err}
use filazero_local.Database.{Db, CustomerPayment, TransactionStatus, record_audit}
use filazero_local.Billing.Dates.{
  BillingInterval, ms_per_day, add_interval, make_day, civil, locate_year, locate_month, is_leap,
  days_to_year,
}
use filazero_local.Billing.DateLaws.{add_interval_bounds}
use filazero_local.Tickets.Join.{is_customer_operational}
use filazero_local.Customer.Payments.{
  Outcome, PaymentEvent, WebhookOutcome, apply_customer_payment_event, settle, write_event,
}
use filazero_local.Customer.OnceLaws.{
  paid_once, failed_payment_stays, HasFailed, after_events, payment_extends_subscription,
}
use filazero_local.Checks.Sample.{start}

-- From 2024-01-31 a month leads over February 29 to 2024-03-02.
overflows : add_interval 1706659200000 BillingInterval.monthly ≡ 1709337600000
unfolding add_interval make_day civil locate_year locate_month is_leap days_to_year
overflows = refl

-- From 2024-02-29 a year leads to 2025-03-01.
leap_year : add_interval 1709164800000 BillingInterval.yearly ≡ 1740787200000
unfolding add_interval make_day civil locate_year locate_month is_leap days_to_year
leap_year = refl

add_interval_bounds_example :
    (1706659200000 + 28 * ms_per_day ≤ add_interval 1706659200000 BillingInterval.monthly)
    × (add_interval 1706659200000 BillingInterval.monthly ≤ 1706659200000 + 31 * ms_per_day)
    × (1706659200000 + 365 * ms_per_day ≤ add_interval 1706659200000 BillingInterval.yearly)
    × (add_interval 1706659200000 BillingInterval.yearly ≤ 1706659200000 + 366 * ms_per_day)
    × (add_interval 1706659200000 BillingInterval.monthly % ms_per_day ≡ 1706659200000 % ms_per_day)
    × (add_interval 1706659200000 BillingInterval.yearly % ms_per_day ≡ 1706659200000 % ms_per_day)
add_interval_bounds_example = add_interval_bounds 1706659200000

-- A payment that the customer 5 has begun.
abbrev begun : CustomerPayment
begun = record {
  id = 1;
  user_id = 5;
  subscription_id = none;
  status = TransactionStatus.pending;
  reference = 77;
  provider_reference = none;
  provider_event_id = none;
  paid_at = none;
  reported_failed = false;
}

abbrev before_payment : Db
before_payment = record start { customer_payments = begun ∷ [] }

abbrev event_of : ℕ → Outcome → PaymentEvent
event_of id outcome = record {
  event_id = id;
  outcome = outcome;
  reference = 77;
  provider_reference = none;
  paid_at = 2000;
}

abbrev first_event : PaymentEvent
first_event = event_of 501 Outcome.succeeded

abbrev second_event : PaymentEvent
second_event = event_of 502 Outcome.failed

abbrev outcome_of : Result (WebhookOutcome × Db) → WebhookOutcome × Db
outcome_of (ok r) = r
outcome_of (err e) = (record { duplicate = true; payment = begun }, before_payment)

abbrev paid : WebhookOutcome × Db
paid = outcome_of (apply_customer_payment_event first_event 2000 before_payment)

is_paid : apply_customer_payment_event first_event 2000 before_payment ≡ ok paid
unfolding apply_customer_payment_event settle write_event record_audit
is_paid = refl

paid_once_example :
    apply_customer_payment_event second_event 3000 paid.1
    ≡ ok (record { duplicate = true; payment = paid.0.payment }, paid.1)
unfolding apply_customer_payment_event settle write_event
paid_once_example =
    paid_once first_event second_event 2000 3000 before_payment paid is_paid refl refl

payment_extends_subscription_example :
    is_customer_operational (paid.1.customer_subscriptions paid.0.payment.user_id) 90000 ≡ true
unfolding apply_customer_payment_event settle write_event
payment_extends_subscription_example =
    payment_extends_subscription first_event 2000 90000 before_payment paid is_paid refl refl
      (omega arith)

abbrev declined : CustomerPayment
declined = record begun { status = TransactionStatus.failed; reported_failed = true }

abbrev after_decline : Db
after_decline = record start { customer_payments = declined ∷ [] }

abbrev later_events : List (PaymentEvent × ℕ)
later_events = (first_event, 4000) ∷ (event_of 503 Outcome.failed, 5000) ∷ []

failed_payment_stays_example : HasFailed 77 after_decline (after_events later_events after_decline)
failed_payment_stays_example =
    failed_payment_stays 77 later_events after_decline after_decline (refl, (refl, tt))
      (declined, refl, refl, refl)
