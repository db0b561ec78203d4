-- ===== src/Invoices/Counter.antt =====
-- `applyPaymentEvent` against what it promises of the numbers: a counter for each series, from which
-- an invoice takes the next number.
use filazero_local.Base.{
  ℕ, ◌+◌, ◌≡◌, refl, ◌||◌, some, Option, ap, ◌∙◌, sym, Bool-cases, inl, inr, arith, find,
  is_some_of, if◌then◌else◌,
}
use filazero_local.Errors.{ok, >>=-eq-ok, ok_inj, or_throw, ErrorCode}
use filazero_local.Customer.Payments.{is_open_payment, is_succeeded, PaymentEvent, Outcome}
use filazero_local.Invoices.Tables.{InvoiceSeries, Transaction, SeriesKey, BillingDb, same_series}
use filazero_local.Invoices.Payment.{
  BillingEnv, has_reference, as_claimed, as_failed, renewed, write_subscription,
}
use filazero_local.Invoices.Numbered.{last_number, after, last_number-after, next_row-number}
use filazero_local.Invoices.Effects.{write_event-effect, fr_key, issue_invoice-IsIssued}
use filazero_local.Invoices.Webhook.{
  write_event, issue_invoice, pay, settle, apply_payment_event, OrganizationWebhookOutcome,
}

-- The abstract view: how many numbers each series has given out.
abbrev pub Counters : Type 0
Counters = SeriesKey → ℕ

abbrev pub counters : BillingDb → Counters
counters db key = last_number key db.series

-- A step of the counters, with the transaction that the caller gets: nothing is counted, or one
-- series counts one more and the transaction has that number of that series.
pub data Counted (before now : Counters) (t : Transaction) : Type 0 where
  stays : ((key : SeriesKey) → now key ≡ before key) → Counted before now t
  gives :
      (key : SeriesKey)
      → t.series_id ≡ some key
      → t.sequence ≡ some (before key + 1)
      → ((other : SeriesKey)
          → now other ≡ (if same_series key other then before key + 1 else before other))
      → Counted before now t

counters-after :
    (key other : SeriesKey) (series : SeriesKey → Option InvoiceSeries)
    → last_number other (after key series)
      ≡ (if same_series key other then last_number key series + 1 else last_number other series)
counters-after key other series =
    last_number-after key other series (same_series key other) refl
    ∙ ap (λ n. if same_series key other then n else last_number other series)
        (next_row-number key (series key))

pay-Counted :
    (env : BillingEnv) (event : PaymentEvent) (t : Transaction) (now : ℕ) (db : BillingDb)
    (r : OrganizationWebhookOutcome × BillingDb)
    → pay env event t now db ≡ ok r
    → Counted (counters db) (counters r.1) r.0.transaction
unfolding pay
pay-Counted env event t now db r h =
    let claim = as_claimed event t in
    let key = fr_key t.organization_id event.paid_at in
    let (claimed, wrote, rest) = >>=-eq-ok (write_event event claim db) _ h in
    let (plan, _, rest) =
      >>=-eq-ok (or_throw (claimed.plans t.plan_id) ErrorCode.not_found) _ rest in
    let row = renewed plan t.plan_id (claimed.subscriptions t.organization_id) now in
    let db2 = write_subscription t.organization_id row claimed in
    let (issued, given, same) = >>=-eq-ok (issue_invoice env claim event.paid_at db2) _ rest in
    let (_, _, is_key, is_next, _, series) =
      issue_invoice-IsIssued env claim event.paid_at db2 issued given in
    let kept = ap (λ d. d.series) (write_event-effect event claim db claimed wrote) in
    let e = sym (ok_inj same) in
    gives key (ap (λ r. r.0.transaction.series_id) e ∙ is_key)
      (ap (λ r. r.0.transaction.sequence) e ∙ is_next ∙ ap (λ s. some (last_number key s + 1)) kept)
      λ other.
        ap (λ r. last_number other r.1.series) e
        ∙ ap (last_number other) (series ∙ ap (after key) kept)
        ∙ counters-after key other db.series

settle-Counted :
    (o : Outcome) (env : BillingEnv) (event : PaymentEvent) (t : Transaction) (now : ℕ)
    (db : BillingDb) (r : OrganizationWebhookOutcome × BillingDb)
    → settle o env event t now db ≡ ok r
    → Counted (counters db) (counters r.1) r.0.transaction
unfolding settle
settle-Counted Outcome.failed env event t now db r h =
    let (db2, wrote, same) = >>=-eq-ok (write_event event (as_failed event t) db) _ h in
    let kept = ap (λ d. d.series) (write_event-effect event (as_failed event t) db db2 wrote) in
    stays
      λ key. ap (λ r. last_number key r.1.series) (sym (ok_inj same)) ∙ ap (last_number key) kept
settle-Counted Outcome.succeeded env event t now db r h =
    elim (Bool-cases (is_open_payment t.status)) [
      | inl is_open ↦ pay-Counted env event t now db r (ground (arith, h, is_open))
      | inr closed ↦
          let same : db ≡ r.1 = ground (arith, h, closed) in
          stays λ key. ap (λ d. last_number key d.series) (sym same)
    ]

-- Every call of the webhook, whatever the event, is a step of independent counters, one for each
-- series: either none moves, or one moves on by one and the transaction that is returned has this
-- number of this series.
pub apply_payment_event-Counted :
    (env : BillingEnv) (event : PaymentEvent) (now : ℕ) (db : BillingDb)
    (r : OrganizationWebhookOutcome × BillingDb)
    → apply_payment_event env event now db ≡ ok r
    → Counted (counters db) (counters r.1) r.0.transaction
unfolding apply_payment_event
apply_payment_event-Counted env event now db r h =
    let (t, _, rest) =
      >>=-eq-ok
        (or_throw (find (has_reference event.reference) db.transactions) ErrorCode.not_found) _ h in
    elim (Bool-cases (is_some_of event.event_id t.provider_event_id || is_succeeded t.status)) [
      | inl seen ↦
          let same : db ≡ r.1 = ground (arith, rest, seen) in
          stays λ key. ap (λ d. last_number key d.series) (sym same)
      | inr fresh ↦ settle-Counted event.outcome env event t now db r (ground (arith, rest, fresh))
    ]
