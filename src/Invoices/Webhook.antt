-- ===== src/Invoices/Webhook.antt =====
-- `applyPaymentEvent` of src/server/billing/billing.service.ts: what an event of the payment provider
-- does to a transaction of an organization, its subscription and its invoice. The call is one
-- database transaction; the receipt, which is sent after it, is left out. A call reads the clock once.
use filazero_local.Base.{
  ℕ, Bool, true, false, not, ◌&&◌, ◌||◌, Option, none, some, [], ◌==◌, if◌then◌else◌, Text,
  is_some_of, count_if, find, modify_where,
}
use filazero_local.Errors.{Result, ok, ErrorCode, require, or_throw, ◌>>=◌, ◌>>◌}
use filazero_local.Customer.Payments.{Outcome, PaymentEvent, is_succeeded, is_open_payment}
use filazero_local.Invoices.Rules.{
  InvoiceDocumentType, InvoiceSignatureInput, previous_hash_of, build_invoice_canonical,
}
use filazero_local.Invoices.Signing.{sign_invoice}
use filazero_local.Invoices.Tables.{Transaction, BillingAction, BillingDb}
use filazero_local.Invoices.Series.{
  InvoiceAllocation, allocate_invoice_number, previous_invoice_hash, has_document,
}
use filazero_local.Invoices.Payment.{
  BillingEnv, has_reference, has_id, as_failed, as_claimed, log, renewed, write_subscription,
  or_default, with_invoice, signature_input, document_fits,
}

-- Other transactions with the event, or with the document of `row`.
abbrev pub shares_event : Transaction → PaymentEvent → Transaction → Bool
shares_event row event t = not (row.id == t.id) && is_some_of event.event_id t.provider_event_id

-- An update by primary key that writes the event. The unique index on `provider_event_id` refuses
-- it if another transaction has the event.
unfoldable pub write_event : PaymentEvent → Transaction → BillingDb → Result BillingDb
write_event event row db = do
  require (count_if (shares_event row event) db.transactions == 0) ErrorCode.conflict
  ok (record db { transactions = modify_where (has_id row.id) (λ _. row) db.transactions })

-- The update that gives a transaction its document. The database refuses a value that its column
-- does not hold, and the unique index on the series and the number refuses the row if another
-- transaction has the document.
unfoldable pub write_invoice : InvoiceAllocation → Transaction → BillingDb → Result BillingDb
write_invoice allocation row db = do
  require (document_fits row) ErrorCode.internal
  require
      (count_if
          (λ t. not (row.id == t.id) && has_document allocation.series_id allocation.sequence t)
          db.transactions
        == 0)
      ErrorCode.conflict
  ok (record db { transactions = modify_where (has_id row.id) (λ _. row) db.transactions })

-- `transaction.customerTaxId ?? organization?.taxId ?? ""`
abbrev pub customer_tax_id_of : Transaction → Option Text → Text
customer_tax_id_of t from_organization = elim t.customer_tax_id [
  | some s ↦ s
  | none ↦ or_default from_organization []
]

-- What is signed of an invoice under a number, when the series table is that of `db`.
abbrev pub invoice_input :
    BillingEnv → Transaction → ℕ → InvoiceAllocation → BillingDb → InvoiceSignatureInput
invoice_input env t issued_at allocation db =
    signature_input env t allocation issued_at (customer_tax_id_of t (db.tax_ids t.organization_id))
      (previous_hash_of (previous_invoice_hash allocation.series_id allocation.sequence db))

-- The fiscal document of a transaction that has just been claimed.
unfoldable pub issue_invoice :
    BillingEnv → Transaction → ℕ → BillingDb → Result (Transaction × BillingDb)
issue_invoice env t issued_at db = do
  (allocation, numbered) ←
      allocate_invoice_number t.organization_id InvoiceDocumentType.fr issued_at db
  let input = invoice_input env t issued_at allocation numbered
  signature ← sign_invoice env.signing (build_invoice_canonical input)
  let row = with_invoice env t allocation issued_at input signature
  written ← write_invoice allocation row numbered
  ok (row, written)

pub record OrganizationWebhookOutcome : Type 0 where
  pub duplicate : Bool
  pub transaction : Transaction

-- An open transaction is claimed, the subscription renewed and the invoice issued.
unfoldable pub pay :
    BillingEnv
    → PaymentEvent
    → Transaction
    → ℕ
    → BillingDb
    → Result (OrganizationWebhookOutcome × BillingDb)
pay env event t now db = do
  claimed ← write_event event (as_claimed event t) db
  plan ← or_throw (claimed.plans t.plan_id) ErrorCode.not_found
  let subscription = renewed plan t.plan_id (claimed.subscriptions t.organization_id) now
  (row, invoiced) ←
      issue_invoice env (as_claimed event t) event.paid_at
        (write_subscription t.organization_id subscription claimed)
  ok (
    record { duplicate = false; transaction = row },
    log BillingAction.payment_confirmed t.id invoiced,
  )

-- What follows once the event is known to be new: the failure is noted, or an open transaction is
-- paid.
unfoldable pub settle :
    Outcome
    → BillingEnv
    → PaymentEvent
    → Transaction
    → ℕ
    → BillingDb
    → Result (OrganizationWebhookOutcome × BillingDb)
unfolding pay
settle Outcome.failed env event t now db = do
  written ← write_event event (as_failed event t) db
  ok (
    record { duplicate = false; transaction = as_failed event t },
    log BillingAction.payment_failed t.id written,
  )
settle Outcome.succeeded env event t now db =
    if is_open_payment t.status
    then pay env event t now db
    else ok (record { duplicate = true; transaction = t }, db)

unfoldable pub apply_payment_event :
    BillingEnv → PaymentEvent → ℕ → BillingDb → Result (OrganizationWebhookOutcome × BillingDb)
unfolding settle
apply_payment_event env event now db = do
  t ← or_throw (find (has_reference event.reference) db.transactions) ErrorCode.not_found
  (if is_some_of event.event_id t.provider_event_id || is_succeeded t.status
      then ok (record { duplicate = true; transaction = t }, db)
      else settle event.outcome env event t now db)
