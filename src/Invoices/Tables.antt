-- ===== src/Invoices/Tables.antt =====
-- The tables of prisma/schema.prisma that the billing of organizations reads and writes. A table
-- that is read by a unique key alone is a function from the key; an organization has one
-- subscription, which is known by it, and a series is known by its unique index.
use filazero_local.Base.{ℕ, Bool, Option, List, ◌&&◌, true, false, ◌==◌, Text}
use filazero_local.Database.{SubscriptionStatus, TransactionStatus}
use filazero_local.Billing.Dates.{BillingInterval}
use filazero_local.Invoices.Rules.{InvoiceDocumentType}

pub record Plan : Type 0 where
  pub active : Bool
  pub price_cents : ℕ
  pub currency : Text
  pub interval : BillingInterval
  pub max_branches : ℕ
  pub max_queues_per_branch : ℕ
  pub max_staff : ℕ

pub record Subscription : Type 0 where
  pub plan_id : ℕ
  pub status : SubscriptionStatus
  pub current_period_start : ℕ
  pub current_period_end : ℕ
  pub cancel_at_period_end : Bool
  pub cancelled_at : Option ℕ

-- `@@unique([organizationId, documentType, year])`
pub record SeriesKey : Type 0 where
  pub organization_id : ℕ
  pub document_type : InvoiceDocumentType
  pub year : ℕ

pub record InvoiceSeries : Type 0 where
  pub code : Text
  pub next_number : ℕ

pub data PaymentMethod : Type 0 where
  multicaixa_express bank_transfer card qr_code : PaymentMethod

-- References and events of the provider are numbers, which are only compared. The times of proofs
-- and receipts, voiding and the free metadata are left out.
pub record Transaction : Type 0 where
  pub id : ℕ
  pub organization_id : ℕ
  pub subscription_id : Option ℕ
  pub plan_id : ℕ
  pub method : PaymentMethod
  pub status : TransactionStatus
  pub amount_cents : ℕ
  pub currency : Text
  pub reference : ℕ
  pub invoice_number : Option Text
  pub series_id : Option SeriesKey
  pub series_code : Option Text
  pub sequence : Option ℕ
  pub subtotal_cents : Option ℕ
  pub vat_cents : Option ℕ
  pub vat_rate_bps : Option ℕ
  pub customer_tax_id : Option Text
  pub issuer_tax_id : Option Text
  pub invoice_hash : Option Text
  pub invoice_qr : Option Text
  pub invoice_issued_at : Option ℕ
  pub agt_certified : Bool
  pub provider_reference : Option ℕ
  pub provider_event_id : Option ℕ
  pub paid_at : Option ℕ
  pub reported_failed : Bool

pub data BillingAction : Type 0 where
  payment_failed payment_confirmed plan_assigned proof_submitted : BillingAction

-- The actor, the action and the row that it is about.
pub record BillingAudit : Type 0 where
  pub actor_user_id : Option ℕ
  pub action : BillingAction
  pub entity_id : ℕ

-- `tax_ids` has the `taxId` of the organizations, where there is one.
pub record BillingDb : Type 0 where
  pub plans : ℕ → Option Plan
  pub subscriptions : ℕ → Option Subscription
  pub tax_ids : ℕ → Option Text
  pub transactions : List Transaction
  pub series : SeriesKey → Option InvoiceSeries
  pub audit_logs : List BillingAudit

abbrev pub same_type : InvoiceDocumentType → InvoiceDocumentType → Bool
same_type InvoiceDocumentType.ft InvoiceDocumentType.ft = true
same_type InvoiceDocumentType.fr InvoiceDocumentType.fr = true
same_type _ _ = false

abbrev pub same_series : SeriesKey → SeriesKey → Bool
same_series a b =
    a.organization_id == b.organization_id
    && (same_type a.document_type b.document_type && a.year == b.year)
