-- ===== src/Invoices/Paid.antt =====
-- `applyPaymentEvent` does pay: when the success of an open transaction is reported.
use filazero_local.Base.{
  ℕ, ◌+◌, ◌≡◌, refl, true, false, Bool, ◌||◌, some, ◌==◌, arith, ap, ◌∙◌, find, count_if,
  is_some_of, Bool-cases, inl, inr, if◌then◌else◌, ==_refl, List, find-count,
}
use filazero_local.Errors.{ok, ErrorCode, or_throw}
use filazero_local.Database.{TransactionStatus}
use filazero_local.Customer.Payments.{is_open_payment, is_succeeded, PaymentEvent, Outcome}
use filazero_local.Invoices.Tables.{Plan, Transaction, BillingDb, BillingAction}
use filazero_local.Invoices.Payment.{
  BillingEnv, has_reference, as_claimed, renewed, write_subscription, log,
}
use filazero_local.Invoices.Rows.{written, find-has_id}
use filazero_local.Invoices.Numbered.{WellNumbered, last_number}
use filazero_local.Invoices.Effects.{fr_key, issue_invoice-IsIssued}
use filazero_local.Invoices.Gapless.{same_document-WellNumbered}
use filazero_local.Invoices.Webhook.{pay, settle, apply_payment_event, OrganizationWebhookOutcome}
use filazero_local.Invoices.Issue.{has_event, CanIssue, then_ok, write_event-ok, issue_invoice-ok}

-- What a payment leaves: the transaction has succeeded, with the next number of the series, and the
-- subscription is renewed.
abbrev pub IsPaid :
    PaymentEvent
    → Plan
    → Transaction
    → ℕ
    → BillingDb
    → OrganizationWebhookOutcome × BillingDb
    → Type 0
IsPaid event plan t now db r =
    (r.0.duplicate ≡ false)
    × (r.0.transaction.status ≡ TransactionStatus.succeeded)
    × (r.0.transaction.sequence
        ≡ some (last_number (fr_key t.organization_id event.paid_at) db.series + 1))
    × (r.1.subscriptions t.organization_id
        ≡ some (renewed plan t.plan_id (db.subscriptions t.organization_id) now))

find-none_of :
    (p q : Transaction → Bool) (ts : List Transaction) (t : Transaction)
    → find p ts ≡ some t
    → count_if q ts ≡ 0
    → q t ≡ false
find-none_of p q ts t e none_yet = elim (Bool-cases (q t)) [
  | inl has ↦ absurd (omega (arith, none_yet, find-count p q ts t e has))
  | inr bare ↦ bare
]

open_unsettled : (s : TransactionStatus) → is_open_payment s ≡ true → is_succeeded s ≡ false
open_unsettled TransactionStatus.pending h = refl
open_unsettled TransactionStatus.under_review h = refl
open_unsettled TransactionStatus.succeeded h = cc
open_unsettled TransactionStatus.failed h = cc
open_unsettled TransactionStatus.refunded h = cc

pay-IsPaid :
    (env : BillingEnv) (event : PaymentEvent) (t : Transaction) (now : ℕ) (db : BillingDb)
    (plan : Plan)
    → WellNumbered db
    → find (has_reference event.reference) db.transactions ≡ some t
    → count_if (has_event event) db.transactions ≡ 0
    → db.plans t.plan_id ≡ some plan
    → CanIssue env t event.paid_at db
    → (r : OrganizationWebhookOutcome × BillingDb) × (pay env event t now db ≡ ok r)
      × IsPaid event plan t now db r
unfolding pay
pay-IsPaid env event t now db plan well e fresh has_plan can =
    let claim = as_claimed event t in
    let claimed = record db { transactions = written claim db.transactions } in
    let wrote = write_event-ok event claim db fresh in
    let row = renewed plan t.plan_id (db.subscriptions t.organization_id) now in
    let own : (if t.organization_id == t.organization_id
          then some row
          else db.subscriptions t.organization_id)
        ≡ some row =
      ground (arith, ==_refl t.organization_id) in
    let db2 =
      write_subscription t.organization_id
        (renewed plan t.plan_id (claimed.subscriptions t.organization_id) now) claimed in
    let well2 : WellNumbered db2 =
      same_document-WellNumbered db db2 t claim well
        (find-has_id db.transactions t event.reference well.1 e) refl refl refl (λ key k. refl) in
    let (issued, given, kept) = issue_invoice-ok env claim event.paid_at db2 well2 can in
    let (_, status, _, sequence, _, _) =
      issue_invoice-IsIssued env claim event.paid_at db2 issued given in
    (
      (
        record { duplicate = false; transaction = issued.0 },
        log BillingAction.payment_confirmed t.id issued.1,
      ),
      then_ok _ _ _ _ wrote (
          then_ok _ _ _ _ (ap (λ o. or_throw o ErrorCode.not_found) has_plan)
            (then_ok _ _ _ _ given refl)),
      (refl, status, sequence, ap (λ s. s t.organization_id) kept ∙ own),
    )

-- A new event that reports the success of an open transaction is a payment.
pub apply_payment_event-pay :
    (env : BillingEnv) (event : PaymentEvent) (t : Transaction) (now : ℕ) (db : BillingDb)
    → find (has_reference event.reference) db.transactions ≡ some t
    → is_some_of event.event_id t.provider_event_id ≡ false
    → is_open_payment t.status ≡ true
    → event.outcome ≡ Outcome.succeeded
    → apply_payment_event env event now db ≡ pay env event t now db
unfolding apply_payment_event settle
apply_payment_event-pay env event t now db e unseen is_open success =
    then_ok _ _ _ _ (ap (λ o. or_throw o ErrorCode.not_found) e) (
      ap
        (λ b.
          if b || is_succeeded t.status
          then ok (record { duplicate = true; transaction = t }, db)
          else settle event.outcome env event t now db)
        unseen
      ∙ ap
          (λ b.
            if b
            then ok (record { duplicate = true; transaction = t }, db)
            else settle event.outcome env event t now db)
          (open_unsettled t.status is_open)
      ∙ ap (λ o. settle o env event t now db) success
      ∙ ap
          (λ b.
            if b
            then pay env event t now db
            else ok (record { duplicate = true; transaction = t }, db))
          is_open)

-- When the provider reports with a new event that an open transaction has succeeded, on a database
-- whose invoices are well numbered and which has the plan of the transaction, and when every text can
-- be signed with a hash that its column holds, and the columns hold the tax numbers, the code of the
-- series and the next number, then the call succeeds: the transaction has succeeded with the next
-- number of its series, and the subscription is renewed.
pub apply_payment_event-IsPaid :
    (env : BillingEnv) (event : PaymentEvent) (t : Transaction) (now : ℕ) (db : BillingDb)
    (plan : Plan)
    → WellNumbered db
    → find (has_reference event.reference) db.transactions ≡ some t
    → is_open_payment t.status ≡ true
    → event.outcome ≡ Outcome.succeeded
    → count_if (has_event event) db.transactions ≡ 0
    → db.plans t.plan_id ≡ some plan
    → CanIssue env t event.paid_at db
    → (r : OrganizationWebhookOutcome × BillingDb) × (apply_payment_event env event now db ≡ ok r)
      × IsPaid event plan t now db r
apply_payment_event-IsPaid env event t now db plan well e is_open success fresh has_plan can =
    let (r, paid, effect) = pay-IsPaid env event t now db plan well e fresh has_plan can in
    let unseen : is_some_of event.event_id t.provider_event_id ≡ false =
      find-none_of (has_reference event.reference) (has_event event) db.transactions t e fresh in
    (r, apply_payment_event-pay env event t now db e unseen is_open success ∙ paid, effect)
