-- ===== src/Webhooks/Handle.antt =====
-- `handlePaymentWebhook` of src/server/billing/billing.service.ts: an event is verified, read and
-- applied to the payments of customers or of organizations.
use filazero_local.Base.{
  ℕ, Bool, true, false, Option, none, some, if◌then◌else◌, Text, find, is_some, is_some_of, ◌/◌,
}
use filazero_local.Errors.{Result, ok, err, ErrorCode, or_throw, ◌>>=◌}
use filazero_local.Database.{Db}
use filazero_local.Customer.Payments
use filazero_local.Customer.Payments.{PaymentEvent, apply_customer_payment_event}
use filazero_local.Invoices.Tables.{Transaction, BillingDb}
use filazero_local.Invoices.Payment
use filazero_local.Invoices.Payment.{BillingEnv}
use filazero_local.Invoices.Webhook.{apply_payment_event}
use filazero_local.Webhooks.Signature.{SignatureVerification, SignatureFailure, verify_signature}
use filazero_local.Webhooks.Events.{
  Json, PaymentProvider, NormalizedPaymentEvent, normalize_payment_event,
}

-- The settings, and what is not of the repository: HMAC, `JSON.parse` and the reading of a date. The
-- tables know references and event ids by number: `number_of` is the number that stands for a text.
pub record WebhookEnv : Type 0 where
  pub billing : BillingEnv
  pub stripe_webhook_secret : Option Text
  pub payment_webhook_secret : Option Text
  pub tolerance_seconds : ℕ
  pub hmac : Text → Text → Text
  pub parse : Text → Option Json
  pub parse_date : Text → Option ℕ
  pub number_of : Text → ℕ

abbrev pub or_other : Option Text → Option Text → Option Text
or_other none other = other
or_other (some s) other = some s

unfoldable pub webhook_secret_for : WebhookEnv → PaymentProvider → Option Text
webhook_secret_for env PaymentProvider.stripe =
    or_other env.stripe_webhook_secret env.payment_webhook_secret
webhook_secret_for env PaymentProvider.invoice = env.payment_webhook_secret

abbrev pub reason_code : SignatureFailure → ErrorCode
reason_code SignatureFailure.expired = ErrorCode.bad_request
reason_code _ = ErrorCode.unauthenticated

-- `if (!verification.ok) throw`
abbrev pub assert_verified : SignatureVerification → Result ℕ
assert_verified (SignatureVerification.accepted timestamp) = ok timestamp
assert_verified (SignatureVerification.refused reason) = err (reason_code reason)

abbrev pub number_option : WebhookEnv → Option Text → Option ℕ
number_option env none = none
number_option env (some s) = some (env.number_of s)

-- The event as the tables know it.
abbrev pub stored : WebhookEnv → NormalizedPaymentEvent → PaymentEvent
stored env event = record {
  event_id = env.number_of event.event_id;
  outcome = event.outcome;
  reference = env.number_of event.reference;
  provider_reference = number_option env event.provider_reference;
  paid_at = event.paid_at;
}

pub data WebhookScope : Type 0 where
  organization customer : WebhookScope

pub record WebhookAnswer : Type 0 where
  pub duplicate : Bool
  pub scope : WebhookScope

abbrev pub Tables : Type 0
Tables = Db × BillingDb

unfoldable pub is_customer_payment_reference : ℕ → Db → Bool
is_customer_payment_reference reference db =
    is_some (find (Payments.has_reference reference) db.customer_payments)

unfoldable pub apply_to_customer : PaymentEvent → ℕ → Tables → Result (WebhookAnswer × Tables)
apply_to_customer event now (db, billing) = do
  (outcome, next) ← apply_customer_payment_event event now db
  ok (record { duplicate = outcome.duplicate; scope = WebhookScope.customer }, (next, billing))

unfoldable pub apply_to_organization :
    BillingEnv → PaymentEvent → ℕ → Tables → Result (WebhookAnswer × Tables)
apply_to_organization env event now (db, billing) = do
  (outcome, next) ← apply_payment_event env event now billing
  ok (record { duplicate = outcome.duplicate; scope = WebhookScope.organization }, (db, next))

-- Whether a transaction of an organization has this very event already.
abbrev pub is_applied : PaymentEvent → Option Transaction → Bool
is_applied event none = false
is_applied event (some t) = is_some_of event.event_id t.provider_event_id

-- A unique index that refused the event counts as a duplicate if the event has been applied.
abbrev pub rescue :
    PaymentEvent → Tables → Result (WebhookAnswer × Tables) → Result (WebhookAnswer × Tables)
rescue event tables (ok r) = ok r
rescue event tables (err ErrorCode.conflict) =
    if is_applied event (find (Payment.has_reference event.reference) tables.1.transactions)
    then ok (record { duplicate = true; scope = WebhookScope.organization }, tables)
    else err ErrorCode.conflict
rescue event tables (err code) = err code

-- `now` is in milliseconds, as the clock gives it.
unfoldable pub handle_payment_webhook :
    WebhookEnv → Text → Option Text → ℕ → Tables → Result (WebhookAnswer × Tables)
unfolding webhook_secret_for is_customer_payment_reference apply_to_customer apply_to_organization
handle_payment_webhook env raw_body header now tables = do
  event ← normalize_payment_event env.parse env.parse_date now raw_body
  secret ← or_throw (webhook_secret_for env event.provider) ErrorCode.service_unavailable
  _ ←
      assert_verified
        (verify_signature env.hmac secret header raw_body env.tolerance_seconds (now / 1000))
  rescue (stored env event) tables (
      if is_customer_payment_reference (stored env event).reference tables.0
      then apply_to_customer (stored env event) now tables
      else apply_to_organization env.billing (stored env event) now tables)
