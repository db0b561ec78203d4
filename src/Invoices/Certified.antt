-- ===== src/Invoices/Certified.antt =====
-- `applyPaymentEvent` when a key for certified signatures is configured.
use filazero_local.Base.{
  ℕ, ◌<◌, ◌≡◌, refl, false, true, some, arith, ap, sym, ◌∙◌, find, is_some_of, length, Text,
}
use filazero_local.Errors.{Result, ok, err, ErrorCode, or_throw, >>=-eq-ok, or_throw-eq-ok, ok_inj}
use filazero_local.Customer.Payments.{PaymentEvent, Outcome, is_open_payment}
use filazero_local.Invoices.Rules.{InvoiceDocumentType, build_invoice_canonical}
use filazero_local.Invoices.Tables.{Transaction, BillingDb}
use filazero_local.Invoices.Series.{InvoiceAllocation, allocate_invoice_number}
use filazero_local.Invoices.Signing.{InvoiceSignature, sign_by, certified_signature, sign_invoice}
use filazero_local.Invoices.Payment.{
  BillingEnv, has_reference, as_claimed, renewed, write_subscription, characters, document_fits,
  with_invoice,
}
use filazero_local.Invoices.Paid.{apply_payment_event-pay}
use filazero_local.Invoices.Webhook.{
  write_event, write_invoice, issue_invoice, invoice_input, pay, apply_payment_event,
  OrganizationWebhookOutcome,
}

write_invoice-fits :
    (a : InvoiceAllocation) (row : Transaction) (db db2 : BillingDb)
    → write_invoice a row db ≡ ok db2
    → document_fits row ≡ true
unfolding write_invoice
write_invoice-fits a row db db2 h = ground (arith, h)

module _ (env : BillingEnv) (key : Text) (configured : env.signing.agt_private_key ≡ some key)
    (filled : 0 < length key)
    (long : (canonical hash : Text)
      → env.signing.rsa_sign key canonical ≡ some hash
      → 200 < characters hash) where
  signature_long :
      (canonical : Text) (s : InvoiceSignature)
      → sign_invoice env.signing canonical ≡ ok s
      → 200 < characters s.hash
  unfolding sign_invoice
  signature_long canonical s h =
      let by_key : sign_by env.signing (some key) canonical ≡ ok s =
        ap (λ k. sign_by env.signing k canonical) (sym configured) ∙ h in
      let certified : certified_signature env.signing key canonical ≡ ok s =
        ground (arith, by_key, filled) in
      let (hash, made, same) =
        >>=-eq-ok (or_throw (env.signing.rsa_sign key canonical) ErrorCode.internal) _ certified in
      let is_hash : hash ≡ s.hash = ap (λ s. s.hash) (ok_inj same) in
      omega (
        arith,
        long canonical hash (or_throw-eq-ok _ ErrorCode.internal made),
        ap characters is_hash,
      )

  issue_invoice_fails :
      (t : Transaction) (date : ℕ) (db : BillingDb) (r : Transaction × BillingDb)
      → issue_invoice env t date db ≡ ok r
      → ⊥
  unfolding issue_invoice with_invoice
  issue_invoice_fails t date db r h =
      let (a, given, rest) =
        >>=-eq-ok (allocate_invoice_number t.organization_id InvoiceDocumentType.fr date db) _ h in
      let input = invoice_input env t date a.0 a.1 in
      let (s, signed, rest) =
        >>=-eq-ok (sign_invoice env.signing (build_invoice_canonical input)) _ rest in
      let row = with_invoice env t a.0 date input s in
      let (db2, wrote, _) = >>=-eq-ok (write_invoice a.0 row a.1) _ rest in
      let fits = write_invoice-fits a.0 row a.1 db2 wrote in
      ground (arith, fits, signature_long (build_invoice_canonical input) s signed)

  pay_fails :
      (event : PaymentEvent) (t : Transaction) (now : ℕ) (db : BillingDb)
      (r : OrganizationWebhookOutcome × BillingDb)
      → pay env event t now db ≡ ok r
      → ⊥
  unfolding pay
  pay_fails event t now db r h =
      let claim = as_claimed event t in
      let (claimed, _, rest) = >>=-eq-ok (write_event event claim db) _ h in
      let (plan, _, rest) =
        >>=-eq-ok (or_throw (claimed.plans t.plan_id) ErrorCode.not_found) _ rest in
      let db2 =
        write_subscription t.organization_id
          (renewed plan t.plan_id (claimed.subscriptions t.organization_id) now) claimed in
      let (issued, given, _) = >>=-eq-ok (issue_invoice env claim event.paid_at db2) _ rest in
      issue_invoice_fails claim event.paid_at db2 issued given

-- A result that is no success is an error.
not_ok :
    {A : Type 0} (x : Result A) → ((a : A) → x ≡ ok a → ⊥) → (code : ErrorCode) × (x ≡ err code)
not_ok (err code) h = (code, refl)
not_ok (ok a) h = absurd (h a refl)

-- With a key whose signatures have more than 200 characters, as those of RSA with 2048 bits have in
-- base64, no payment is confirmed: every event that reports the success of an open transaction, and
-- that this transaction has not seen, ends in an error.
pub certified_payment_fails :
    (env : BillingEnv) (key : Text) (event : PaymentEvent) (t : Transaction) (now : ℕ)
    (db : BillingDb)
    → env.signing.agt_private_key ≡ some key
    → 0 < length key
    → ((canonical hash : Text)
        → env.signing.rsa_sign key canonical ≡ some hash
        → 200 < characters hash)
    → find (has_reference event.reference) db.transactions ≡ some t
    → is_some_of event.event_id t.provider_event_id ≡ false
    → is_open_payment t.status ≡ true
    → event.outcome ≡ Outcome.succeeded
    → (code : ErrorCode) × (apply_payment_event env event now db ≡ err code)
certified_payment_fails env key event t now db configured filled long e unseen is_open success =
    let paid : apply_payment_event env event now db ≡ pay env event t now db =
      apply_payment_event-pay env event t now db e unseen is_open success in
    let (code, failed) =
      not_ok (pay env event t now db)
        λ r h. pay_fails env key configured filled long event t now db r h in
    (code, paid ∙ failed)
