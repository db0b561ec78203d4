-- ===== src/Invoices/Effects.antt =====
-- What the steps of `applyPaymentEvent` leave in the tables, when they succeed.
use filazero_local.Base.{ℕ, ◌+◌, ◌≡◌, some, ap, sym, ◌∙◌, arith}
use filazero_local.Errors.{ok, ok_inj, >>=-eq-ok}
use filazero_local.Customer.Payments.{PaymentEvent}
use filazero_local.Invoices.Tables.{Transaction, SeriesKey, BillingDb}
use filazero_local.Invoices.Rules.{
  InvoiceDocumentType, build_invoice_number, build_invoice_canonical,
}
use filazero_local.Invoices.Series.{
  InvoiceAllocation, allocate_invoice_number, next_row, series_key,
}
use filazero_local.Invoices.Payment.{BillingEnv, with_invoice}
use filazero_local.Invoices.Rows.{written}
use filazero_local.Invoices.Numbered.{last_number, after, next_row-number}
use filazero_local.Invoices.Webhook.{write_event, write_invoice, issue_invoice, invoice_input}
use filazero_local.Invoices.Signing.{sign_invoice}

pub write_event-effect :
    (event : PaymentEvent) (row : Transaction) (db db2 : BillingDb)
    → write_event event row db ≡ ok db2
    → db2 ≡ record db { transactions = written row db.transactions }
unfolding write_event
write_event-effect event row db db2 h = ground arith

write_invoice-effect :
    (a : InvoiceAllocation) (row : Transaction) (db db2 : BillingDb)
    → write_invoice a row db ≡ ok db2
    → db2 ≡ record db { transactions = written row db.transactions }
unfolding write_invoice
write_invoice-effect a row db db2 h = ground arith

abbrev pub fr_key : ℕ → ℕ → SeriesKey
fr_key organization_id date = series_key organization_id InvoiceDocumentType.fr date

allocate-effect :
    (organization_id date : ℕ) (db : BillingDb) (r : InvoiceAllocation × BillingDb)
    → allocate_invoice_number organization_id InvoiceDocumentType.fr date db ≡ ok r
    → (r.0.series_id ≡ fr_key organization_id date)
      × (r.0.sequence ≡ last_number (fr_key organization_id date) db.series + 1)
      × (r.1 ≡ record db { series = after (fr_key organization_id date) db.series })
unfolding allocate_invoice_number
allocate-effect organization_id date db r h =
    let key = fr_key organization_id date in
    let row = next_row key (db.series key) in
    let (number, shown, same) = >>=-eq-ok (build_invoice_number row.code row.next_number) _ h in
    let e = ok_inj same in
    (
      ap (λ r. r.0.series_id) (sym e),
      ap (λ r. r.0.sequence) (sym e) ∙ next_row-number key (db.series key),
      ap (λ r. r.1) (sym e),
    )

-- The row of an invoice, and where it goes.
abbrev pub IsIssued : Transaction → SeriesKey → BillingDb → Transaction × BillingDb → Type 0
IsIssued t key db r =
    (r.0.id ≡ t.id)
    × (r.0.status ≡ t.status)
    × (r.0.series_id ≡ some key)
    × (r.0.sequence ≡ some (last_number key db.series + 1))
    × (r.1.transactions ≡ written r.0 db.transactions)
    × (r.1.series ≡ after key db.series)

pub issue_invoice-IsIssued :
    (env : BillingEnv) (t : Transaction) (date : ℕ) (db : BillingDb) (r : Transaction × BillingDb)
    → issue_invoice env t date db ≡ ok r
    → IsIssued t (fr_key t.organization_id date) db r
unfolding issue_invoice with_invoice
issue_invoice-IsIssued env t date db r h =
    let (a, given, rest) =
      >>=-eq-ok (allocate_invoice_number t.organization_id InvoiceDocumentType.fr date db) _ h in
    let (is_key, is_next, is_db) = allocate-effect t.organization_id date db a given in
    let input = invoice_input env t date a.0 a.1 in
    let (signature, _, rest) =
      >>=-eq-ok (sign_invoice env.signing (build_invoice_canonical input)) _ rest in
    let row = with_invoice env t a.0 date input signature in
    let (db2, wrote, same) = >>=-eq-ok (write_invoice a.0 row a.1) _ rest in
    let effect = write_invoice-effect a.0 row a.1 db2 wrote in
    let e : (row, db2) ≡ r = ok_inj same in
    (
      ap (λ r. r.0.id) (sym e),
      ap (λ r. r.0.status) (sym e),
      ap (λ r. r.0.series_id) (sym e) ∙ ap some is_key,
      ap (λ r. r.0.sequence) (sym e) ∙ ap some is_next,
      ap (λ r. r.1.transactions) (sym e)
          ∙ ap (λ d. d.transactions) effect
          ∙ ap (λ d. written row d.transactions) is_db
          ∙ ap (λ r. written r.0 db.transactions) e,
      ap (λ r. r.1.series) (sym e) ∙ ap (λ d. d.series) effect ∙ ap (λ d. d.series) is_db,
    )
