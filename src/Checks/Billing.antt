-- ===== src/Checks/Billing.antt =====
-- Tests of the billing of organizations.
use filazero_local.Base.{
  ℕ, ◌≡◌, ◌<◌, ◌⊎◌, ap, refl, true, false, Option, none, some, List, [], ◌∷◌, Text, arith, ◌==◌,
  if◌then◌else◌,
}
use filazero_local.Errors.{ok, err, Result, ErrorCode}
use filazero_local.Database.{TransactionStatus, SubscriptionStatus}
use filazero_local.Billing.Dates.{
  BillingInterval, add_interval, civil, locate_year, locate_month, is_leap, days_to_year, make_day,
}
use filazero_local.Customer.Payments.{Outcome, PaymentEvent}
use filazero_local.Qr.Encoding.{codes, to_string, zeros}
use filazero_local.Invoices.Rules.{
  vat_breakdown, build_invoice_number, format_series_code, build_invoice_canonical,
  previous_hash_of, invoice_qr_payload,
}
use filazero_local.Invoices.Tables.{Plan, PaymentMethod, Transaction, BillingDb}
use filazero_local.Invoices.Series.{allocate_invoice_number, previous_invoice_hash}
use filazero_local.Invoices.Certified.{certified_payment_fails}
use filazero_local.Invoices.Signing.{SigningEnv, sign_invoice}
use filazero_local.Invoices.Payment.{characters, BillingEnv, with_invoice, renewed}
use filazero_local.Invoices.Webhook.{
  apply_payment_event, OrganizationWebhookOutcome, settle, pay, write_event, write_invoice,
  issue_invoice,
}
use filazero_local.Invoices.Counter.{Counted, counters, apply_payment_event-Counted}
use filazero_local.Invoices.Plans.{
  assert_can_create_branch, assert_subscription_operational, is_subscription_operational,
}
use filazero_local.Invoices.PlanLaws.{HasRoom, a_branch, Rows, guard, limit, guard-HasRoom}
use filazero_local.Invoices.Amounts.{AddsUp, vat_breakdown-AddsUp}
use filazero_local.Invoices.Documents.{IsInvoiceNumber, build_invoice_number_form}
use filazero_local.Invoices.Numbered.{WellNumbered}
use filazero_local.Invoices.Issue.{CanIssue}
use filazero_local.Invoices.Paid.{IsPaid, apply_payment_event-IsPaid}
use filazero_local.Invoices.Gapless.{apply_payment_event-WellNumbered}

vat_breakdown-AddsUp_example : AddsUp 2500000 1400 (vat_breakdown 2500000 1400)
vat_breakdown-AddsUp_example = vat_breakdown-AddsUp 2500000 1400

twelve : build_invoice_number (codes "FR2026") 12 ≡ ok (codes "FR2026/000012")
unfolding build_invoice_number to_string
twelve = refl

abbrev twelfth : ℕ
twelfth = 12

build_invoice_number_form_example :
    ((twelfth ≡ 0) × (build_invoice_number (codes "FR2026") twelfth ≡ err ErrorCode.internal))
    ⊎ ((0 < twelfth)
        × (number : Text) × (build_invoice_number (codes "FR2026") twelfth ≡ ok number)
        × IsInvoiceNumber (codes "FR2026") twelfth number)
build_invoice_number_form_example = build_invoice_number_form (codes "FR2026") twelfth

-- No key for certified signatures; the keyed hash is 64 characters, as that of HMAC-SHA256 is.
abbrev pub sample_signing : SigningEnv
sample_signing = record {
  agt_private_key = none;
  agt_hash_secret = none;
  payment_webhook_secret = some (codes "secret");
  rsa_sign = λ key s. none;
  hmac = λ secret s. zeros 64;
}

abbrev pub sample_env : BillingEnv
sample_env = record {
  iva_rate_bps = 1400;
  platform_tax_id = some (codes "5000000001");
  signing = sample_signing;
  to_iso_string = to_string 10;
}

abbrev sample_plan : Plan
sample_plan = record {
  active = true;
  price_cents = 2500000;
  currency = codes "AOA";
  interval = BillingInterval.monthly;
  max_branches = 3;
  max_queues_per_branch = 20;
  max_staff = 15;
}

abbrev payable : ℕ → ℕ → Transaction
payable id reference = record {
  id = id;
  organization_id = 1;
  subscription_id = none;
  plan_id = 7;
  method = PaymentMethod.bank_transfer;
  status = TransactionStatus.pending;
  amount_cents = 2500000;
  currency = codes "AOA";
  reference = reference;
  invoice_number = none;
  series_id = none;
  series_code = none;
  sequence = none;
  subtotal_cents = none;
  vat_cents = none;
  vat_rate_bps = none;
  customer_tax_id = none;
  issuer_tax_id = none;
  invoice_hash = none;
  invoice_qr = none;
  invoice_issued_at = none;
  agt_certified = false;
  provider_reference = none;
  provider_event_id = none;
  paid_at = none;
  reported_failed = false;
}

abbrev pub sample_billing : BillingDb
sample_billing = record {
  plans = λ id. some sample_plan;
  subscriptions = λ id. none;
  tax_ids = λ id. some (codes "5417000000");
  transactions = payable 1 101 ∷ payable 2 102 ∷ [];
  series = λ key. none;
  audit_logs = [];
}

abbrev paid_event : ℕ → ℕ → PaymentEvent
paid_event id reference = record {
  event_id = id;
  outcome = Outcome.succeeded;
  reference = reference;
  provider_reference = none;
  paid_at = 86400000;
}

-- What an event leaves, or the tables as they were.
abbrev left : Result (OrganizationWebhookOutcome × BillingDb) → BillingDb → BillingDb
left (ok r) db = r.1
left (err code) db = db

sample_billing-WellNumbered : WellNumbered sample_billing
sample_billing-WellNumbered = (λ key k. ground arith, λ id. ground arith, refl)

abbrev first_payment : BillingDb
first_payment =
    left (apply_payment_event sample_env (paid_event 900 101) 0 sample_billing) sample_billing

abbrev invoice_of : ℕ → List Transaction → Option Text
invoice_of id [] = none
invoice_of id (t ∷ ts) =
    let rest = invoice_of id ts in if id == t.id then t.invoice_number else rest

two_payments : Result (OrganizationWebhookOutcome × BillingDb)
two_payments = apply_payment_event sample_env (paid_event 901 102) 0 first_payment

second_is_two :
    invoice_of 2 (left two_payments sample_billing).transactions ≡ some (codes "FR1970/000002")
unfolding two_payments apply_payment_event settle pay write_event issue_invoice
    allocate_invoice_number write_invoice sign_invoice with_invoice renewed previous_invoice_hash
    previous_hash_of build_invoice_canonical invoice_qr_payload vat_breakdown build_invoice_number
    format_series_code add_interval civil locate_year locate_month is_leap days_to_year make_day
    to_string
second_is_two = refl

sample_paid :
    (r : OrganizationWebhookOutcome × BillingDb) × (apply_payment_event sample_env
        (paid_event 900 101)
        0
        sample_billing
      ≡ ok r)
unfolding apply_payment_event settle pay write_event issue_invoice allocate_invoice_number
    write_invoice sign_invoice with_invoice previous_invoice_hash build_invoice_number
    format_series_code to_string civil locate_year is_leap
sample_paid = (_, refl)

apply_payment_event-WellNumbered_example : WellNumbered sample_paid.0.1
apply_payment_event-WellNumbered_example =
    apply_payment_event-WellNumbered sample_env (paid_event 900 101) 0 sample_billing sample_paid.0
      sample_billing-WellNumbered sample_paid.1

sample_CanIssue : CanIssue sample_env (payable 1 101) 86400000 sample_billing
unfolding sign_invoice format_series_code to_string civil locate_year locate_month is_leap
    days_to_year
sample_CanIssue = (
  λ canonical. (record { hash = zeros 64; certified = false }, refl, omega arith),
  omega arith,
  omega arith,
  omega arith,
  omega arith,
)

apply_payment_event-IsPaid_example :
    (r : OrganizationWebhookOutcome × BillingDb) × (apply_payment_event sample_env
        (paid_event 900 101)
        0
        sample_billing
      ≡ ok r)
    × IsPaid (paid_event 900 101) sample_plan (payable 1 101) 0 sample_billing r
apply_payment_event-IsPaid_example =
    apply_payment_event-IsPaid sample_env (paid_event 900 101) (payable 1 101) 0 sample_billing
      sample_plan sample_billing-WellNumbered refl refl refl refl refl sample_CanIssue

-- A key of 2048 bits: its signatures have 344 characters in base64.
abbrev certified_env : BillingEnv
certified_env = record sample_env {
  signing = record sample_signing {
    agt_private_key = some (codes "key");
    rsa_sign = λ key s. some (zeros 344);
  };
}

certified_payment_fails_example :
    (code : ErrorCode) × (apply_payment_event certified_env (paid_event 900 101) 0 sample_billing
      ≡ err code)
certified_payment_fails_example =
    certified_payment_fails certified_env (codes "key") (paid_event 900 101) (payable 1 101) 0
      sample_billing refl (omega arith)
      (λ canonical hash h. let same : zeros 344 ≡ hash = cc h in omega (arith, ap characters same))
      refl refl refl refl

apply_payment_event-Counted_example :
    Counted (counters sample_billing) (counters sample_paid.0.1) sample_paid.0.0.transaction
apply_payment_event-Counted_example =
    apply_payment_event-Counted sample_env (paid_event 900 101) 0 sample_billing sample_paid.0
      sample_paid.1

-- The organization has a plan for three branches.
abbrev running : BillingDb
running = record sample_billing {
  subscriptions = λ o. some (record {
    plan_id = 7;
    status = SubscriptionStatus.active;
    current_period_start = 0;
    current_period_end = 1000;
    cancel_at_period_end = false;
    cancelled_at = none;
  });
}

abbrev two_branches : Rows
two_branches = record {
  branches = record { organization_id = 1 } ∷ record { organization_id = 1 } ∷ [];
  queues = [];
  members = [];
}

third_branch : guard a_branch 1 500 two_branches running ≡ ok tt
unfolding assert_can_create_branch assert_subscription_operational is_subscription_operational
third_branch = refl

guard-HasRoom_example : HasRoom 1 500 running (limit a_branch) 2
guard-HasRoom_example = guard-HasRoom a_branch 1 500 two_branches running third_branch

too_late : guard a_branch 1 1000 two_branches running ≡ err ErrorCode.payment_required
unfolding assert_can_create_branch assert_subscription_operational is_subscription_operational
too_late = refl
