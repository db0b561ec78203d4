-- ===== src/Invoices/Gapless.antt =====
-- The numbers of invoices under `applyPaymentEvent`: none is skipped and none given twice.
use filazero_local.Base.{
  ℕ, ◌+◌, ◌≡◌, refl, true, false, ◌&&◌, ◌||◌, Option, none, some, bit, arith, find, count_if,
  find-count, is_some, is_some_of, ap, ◌∙◌, sym, subst, Bool-cases, inl, inr,
}
use filazero_local.Errors.{or_throw-eq-ok, ok, >>=-eq-ok, ok_inj, or_throw, ErrorCode}
use filazero_local.Customer.Payments.{is_open_payment, is_succeeded, PaymentEvent, Outcome}
use filazero_local.Invoices.Tables.{Transaction, SeriesKey, BillingDb, same_series}
use filazero_local.Invoices.Series.{has_document, is_series}
use filazero_local.Invoices.Payment.{
  BillingEnv, has_id, has_reference, as_failed, as_claimed, renewed, write_subscription,
}
use filazero_local.Invoices.Rows.{
  written, HasKeys, count_if-written, find-written, written-HasKeys, find-has_id,
}
use filazero_local.Invoices.Numbered.{WellNumbered, is_early, given_out, given_out-after}
use filazero_local.Invoices.Effects.{write_event-effect, IsIssued, fr_key, issue_invoice-IsIssued}
use filazero_local.Invoices.Webhook.{
  pay, write_event, issue_invoice, pay, settle, apply_payment_event, OrganizationWebhookOutcome,
}

-- A row that is not open takes the place of another, and the series count the difference between
-- their documents.
write-WellNumbered :
    (db db2 : BillingDb) (t row : Transaction)
    → WellNumbered db
    → find (has_id row.id) db.transactions ≡ some t
    → is_open_payment row.status ≡ false
    → db2.transactions ≡ written row db.transactions
    → ((key : SeriesKey) (k : ℕ)
        → bit (given_out key k db2.series) + bit (has_document key k t)
          ≡ bit (given_out key k db.series) + bit (has_document key k row))
    → WellNumbered db2
write-WellNumbered db db2 t row (numbers, keys, early) e closed rows counted = (
  λ key k. omega (
    arith,
    ap (count_if (has_document key k)) rows,
    count_if-written (has_document key k) db.transactions t row keys e,
    numbers key k,
    counted key k,
  ),
  subst HasKeys (sym rows) (written-HasKeys db.transactions t row keys e),
  omega (
    arith,
    ap (count_if is_early) rows,
    count_if-written is_early db.transactions t row keys e,
    early,
    ap (λ b. bit (b && is_some row.series_id)) closed,
  ),
)

-- The row keeps the document of the one before, and no number is given out.
pub same_document-WellNumbered :
    (db db2 : BillingDb) (t row : Transaction)
    → WellNumbered db
    → find (has_id row.id) db.transactions ≡ some t
    → is_open_payment row.status ≡ false
    → db2.transactions ≡ written row db.transactions
    → db2.series ≡ db.series
    → ((key : SeriesKey) (k : ℕ) → has_document key k row ≡ has_document key k t)
    → WellNumbered db2
same_document-WellNumbered db db2 t row well e closed rows series same =
    write-WellNumbered db db2 t row well e closed rows
      λ key k. omega (arith, ap (λ s. bit (given_out key k s)) series, ap bit (same key k))

bare_series : (key : SeriesKey) (o : Option SeriesKey) → is_some o ≡ false → is_series key o ≡ false
bare_series key none h = refl
bare_series key (some k) h = cc

-- The row gets the next number of a series, and the one before had no document.
next_document-WellNumbered :
    (db : BillingDb) (t : Transaction) (key : SeriesKey) (r : Transaction × BillingDb)
    → WellNumbered db
    → find (has_id t.id) db.transactions ≡ some t
    → is_open_payment t.status ≡ false
    → is_some t.series_id ≡ false
    → IsIssued t key db r
    → WellNumbered r.1
next_document-WellNumbered db t key r well e closed bare
      (id, status, series_id, sequence, rows, series) =
    write-WellNumbered db r.1 t r.0 well
      (subst (λ i. find (has_id i) db.transactions ≡ some t) (sym id) e)
      (ap is_open_payment status ∙ closed) rows
      λ other k. omega (
        arith,
        given_out-after key other k db.series,
        ap (λ s. bit (given_out other k s)) series,
        ap (λ b. bit (b && is_some_of k t.sequence)) (bare_series other t.series_id bare),
        ap (λ o. bit (is_series other o && is_some_of k r.0.sequence)) series_id,
        ap (λ o. bit (same_series other key && is_some_of k o)) sequence,
      )

-- A transaction that is open has no document.
open_bare :
    (db : BillingDb) (t : Transaction) (reference : ℕ)
    → WellNumbered db
    → find (has_reference reference) db.transactions ≡ some t
    → is_open_payment t.status ≡ true
    → is_some t.series_id ≡ false
open_bare db t reference (_, _, early) e is_open = elim (Bool-cases (is_some t.series_id)) [
  | inl has ↦ absurd (
      omega (
        arith,
        early,
        find-count (has_reference reference) is_early db.transactions t e
            (ground (arith, is_open, has)),
      ))
  | inr bare ↦ bare
]

pay-WellNumbered :
    (env : BillingEnv) (event : PaymentEvent) (t : Transaction) (now : ℕ) (db : BillingDb)
    (r : OrganizationWebhookOutcome × BillingDb)
    → WellNumbered db
    → find (has_reference event.reference) db.transactions ≡ some t
    → is_open_payment t.status ≡ true
    → pay env event t now db ≡ ok r
    → WellNumbered r.1
unfolding pay
pay-WellNumbered env event t now db r well e is_open h =
    let claim = as_claimed event t in
    let at = find-has_id db.transactions t event.reference well.1 e in
    let (claimed, wrote, rest) = >>=-eq-ok (write_event event claim db) _ h in
    let effect = write_event-effect event claim db claimed wrote in
    let (plan, _, rest) =
      >>=-eq-ok (or_throw (claimed.plans t.plan_id) ErrorCode.not_found) _ rest in
    let db2 =
      write_subscription t.organization_id
        (renewed plan t.plan_id (claimed.subscriptions t.organization_id) now) claimed in
    let (issued, given, same) = >>=-eq-ok (issue_invoice env claim event.paid_at db2) _ rest in
    let well2 : WellNumbered db2 =
      same_document-WellNumbered db db2 t claim well at refl (ap (λ d. d.transactions) effect)
        (ap (λ d. d.series) effect) (λ key k. refl) in
    let found : find (has_id t.id) db2.transactions ≡ some claim =
      ap (λ d. find (has_id t.id) d.transactions) effect
      ∙ find-written db.transactions t claim at in
    let well3 =
      next_document-WellNumbered db2 claim (fr_key t.organization_id event.paid_at) issued well2
        found refl (open_bare db t event.reference well e is_open)
        (issue_invoice-IsIssued env claim event.paid_at db2 issued given) in
    subst WellNumbered (ap (λ r. r.1) (ok_inj same)) well3

settle-WellNumbered :
    (o : Outcome) (env : BillingEnv) (event : PaymentEvent) (t : Transaction) (now : ℕ)
    (db : BillingDb) (r : OrganizationWebhookOutcome × BillingDb)
    → WellNumbered db
    → find (has_reference event.reference) db.transactions ≡ some t
    → settle o env event t now db ≡ ok r
    → WellNumbered r.1
unfolding settle
settle-WellNumbered Outcome.failed env event t now db r well e h =
    let (db2, wrote, same) = >>=-eq-ok (write_event event (as_failed event t) db) _ h in
    let effect = write_event-effect event (as_failed event t) db db2 wrote in
    let state = ok_inj same in
    same_document-WellNumbered db r.1 t (as_failed event t) well
      (find-has_id db.transactions t event.reference well.1 e) refl
      (ap (λ r. r.1.transactions) (sym state) ∙ ap (λ d. d.transactions) effect)
      (ap (λ r. r.1.series) (sym state) ∙ ap (λ d. d.series) effect) (λ key k. refl)
settle-WellNumbered Outcome.succeeded env event t now db r well e h =
    elim (Bool-cases (is_open_payment t.status)) [
      | inl is_open ↦
          pay-WellNumbered env event t now db r well e is_open (ground (arith, h, is_open))
      | inr closed ↦ let same : db ≡ r.1 = ground (arith, h, closed) in subst WellNumbered same well
    ]

-- Whatever an event of the payment provider does, the invoices of every series stay numbered from
-- one to the last number given out, with no gap and no number twice.
pub apply_payment_event-WellNumbered :
    (env : BillingEnv) (event : PaymentEvent) (now : ℕ) (db : BillingDb)
    (r : OrganizationWebhookOutcome × BillingDb)
    → WellNumbered db
    → apply_payment_event env event now db ≡ ok r
    → WellNumbered r.1
unfolding apply_payment_event
apply_payment_event-WellNumbered env event now db r well h =
    let (t, found, rest) =
      >>=-eq-ok
        (or_throw (find (has_reference event.reference) db.transactions) ErrorCode.not_found) _ h in
    elim (Bool-cases (is_some_of event.event_id t.provider_event_id || is_succeeded t.status)) [
      | inl seen ↦ let same : db ≡ r.1 = ground (arith, rest, seen) in subst WellNumbered same well
      | inr fresh ↦
          settle-WellNumbered event.outcome env event t now db r well
            (or_throw-eq-ok _ ErrorCode.not_found found) (ground (arith, rest, fresh))
    ]
