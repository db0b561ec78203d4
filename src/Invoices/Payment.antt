-- ===== src/Invoices/Payment.antt =====
-- The rows that `applyPaymentEvent` of src/server/billing/billing.service.ts writes: the transaction,
-- the subscription and the invoice.
use filazero_local.Base.{
  ℕ, Bool, true, false, Option, none, some, [], ◌∷◌, ltb, leb, ◌==◌, not, ◌&&◌, count_if,
  if◌then◌else◌, length, Text,
}
use filazero_local.Database.{SubscriptionStatus, TransactionStatus}
use filazero_local.Billing.Dates.{add_interval}
use filazero_local.Customer.Payments.{PaymentEvent}
use filazero_local.Invoices.Rules.{
  InvoiceDocumentType, InvoiceSignatureInput, vat_breakdown, invoice_qr_payload,
}
use filazero_local.Invoices.Tables.{Plan, Subscription, Transaction, BillingAction, BillingDb}
use filazero_local.Qr.Encoding.{is_low}
use filazero_local.Invoices.Signing.{InvoiceSignature, SigningEnv}
use filazero_local.Invoices.Series.{InvoiceAllocation}

-- The settings, and `Date.toISOString`, which is not of the repository.
pub record BillingEnv : Type 0 where
  pub iva_rate_bps : ℕ
  pub platform_tax_id : Option Text
  pub signing : SigningEnv
  pub to_iso_string : ℕ → Text

abbrev pub has_reference : ℕ → Transaction → Bool
has_reference reference t = reference == t.reference

abbrev pub has_id : ℕ → Transaction → Bool
has_id id t = id == t.id

abbrev pub as_failed : PaymentEvent → Transaction → Transaction
as_failed event t = record t {
  status = TransactionStatus.failed;
  provider_event_id = some event.event_id;
  provider_reference = event.provider_reference;
  reported_failed = true;
}

-- The conditional claim of an open transaction.
abbrev pub as_claimed : PaymentEvent → Transaction → Transaction
as_claimed event t = record t {
  status = TransactionStatus.succeeded;
  provider_event_id = some event.event_id;
  provider_reference = event.provider_reference;
  paid_at = some event.paid_at;
}

abbrev pub log : BillingAction → ℕ → BillingDb → BillingDb
log action id db = record db {
  audit_logs = record { actor_user_id = none; action = action; entity_id = id } ∷ db.audit_logs;
}

-- The subscription after a payment: a period that still runs is extended, else one starts now.
unfoldable pub renewed : Plan → ℕ → Option Subscription → ℕ → Subscription
renewed plan plan_id existing now = record {
  plan_id = plan_id;
  status = SubscriptionStatus.active;
  current_period_start = first_day existing;
  current_period_end = add_interval (last_day existing) plan.interval;
  cancel_at_period_end = false;
  cancelled_at = none;
}
  where
    first_day : Option Subscription → ℕ
    first_day none = now
    first_day (some s) = if ltb now s.current_period_end then s.current_period_start else now

    last_day : Option Subscription → ℕ
    last_day none = now
    last_day (some s) = if ltb now s.current_period_end then s.current_period_end else now

abbrev pub write_subscription : ℕ → Subscription → BillingDb → BillingDb
write_subscription organization_id row db = record db {
  subscriptions = λ o. if o == organization_id then some row else db.subscriptions o;
}

-- `value ?? default`
abbrev pub or_default : Option Text → Text → Text
or_default none default = default
or_default (some s) default = s

-- `value || null`
abbrev pub or_null : Text → Option Text
or_null s = if length s == 0 then none else some s

abbrev pub signature_input :
    BillingEnv → Transaction → InvoiceAllocation → ℕ → Text → Text → InvoiceSignatureInput
signature_input env t allocation issued_at customer_tax_id previous_hash =
    let breakdown = vat_breakdown t.amount_cents env.iva_rate_bps in
    record {
      issuer_tax_id = or_default env.platform_tax_id [];
      customer_tax_id = customer_tax_id;
      document_type = InvoiceDocumentType.fr;
      series_code = allocation.series_code;
      sequence = allocation.sequence;
      issued_at = env.to_iso_string issued_at;
      subtotal_cents = breakdown.subtotal_cents;
      vat_cents = breakdown.vat_cents;
      total_cents = breakdown.total_cents;
      currency = t.currency;
      previous_hash = previous_hash;
    }

-- The transaction with its document.
unfoldable pub with_invoice :
    BillingEnv
    → Transaction
    → InvoiceAllocation
    → ℕ
    → InvoiceSignatureInput
    → InvoiceSignature
    → Transaction
with_invoice env t allocation issued_at input signature = record t {
  subscription_id = some t.organization_id;
  invoice_number = some allocation.invoice_number;
  series_id = some allocation.series_id;
  series_code = some allocation.series_code;
  sequence = some allocation.sequence;
  subtotal_cents = some input.subtotal_cents;
  vat_cents = some input.vat_cents;
  vat_rate_bps = some env.iva_rate_bps;
  customer_tax_id = or_null input.customer_tax_id;
  issuer_tax_id = or_null input.issuer_tax_id;
  invoice_hash = some signature.hash;
  invoice_qr = some (invoice_qr_payload input allocation.invoice_number signature.hash);
  invoice_issued_at = some issued_at;
  agt_certified = signature.certified;
}

-- The characters of a text, as the database counts them: a pair of surrogates is one.
abbrev pub characters : Text → ℕ
characters = count_if (λ c. not (is_low c))

-- Whether a column `VARCHAR(width)` holds a value.
abbrev pub column_holds : ℕ → Option Text → Bool
column_holds width none = true
column_holds width (some s) = leb (characters s) width

-- Whether a column `INTEGER` holds a value.
abbrev pub integer_holds : Option ℕ → Bool
integer_holds none = true
integer_holds (some n) = leb n 2147483647

-- Whether the columns of a document hold its number, its place, its two tax numbers and its hash.
abbrev pub document_fits : Transaction → Bool
document_fits t =
    column_holds 40 t.invoice_number
    && column_holds 20 t.series_code
    && integer_holds t.sequence
    && column_holds 20 t.customer_tax_id
    && column_holds 20 t.issuer_tax_id
    && column_holds 200 t.invoice_hash
