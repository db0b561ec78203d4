-- ===== src/Customer/OnceLaws.antt =====
-- A payment of a customer counts once: `applyCustomerPaymentEvent` under repeated and late events.
use filazero_local.Base.{
  ℕ, ◌+◌, ◌*◌, ◌<◌, ◌≡◌, refl, ap, true, false, ◌||◌, Option, none, some, is_some_of, find, arith,
  inl, inr, List, [], ◌∷◌, sym, subst, ◌∙◌,
}
use filazero_local.Errors.{Result, ok, err}
use filazero_local.Database.{Db, CustomerPayment, CustomerSubscription, TransactionStatus}
use filazero_local.Billing.Dates.{ms_per_day}
use filazero_local.Billing.DateLaws.{add_interval_bounds}
use filazero_local.Customer.Payments.{
  PaymentEvent, WebhookOutcome, is_succeeded, has_reference, as_paid, as_failed, is_open_payment,
  extended, apply_customer_payment_event,
}
use filazero_local.Customer.PaymentLaws.{Settled, apply-Settled}
use filazero_local.Tickets.Join.{is_customer_operational}

-- An event that a payment has already seen, or any event of a paid payment, changes nothing.
seen :
    (event : PaymentEvent) (now : ℕ) (db : Db) (p : CustomerPayment)
    → find (has_reference event.reference) db.customer_payments ≡ some p
    → (is_some_of event.event_id p.provider_event_id || is_succeeded p.status) ≡ true
    → apply_customer_payment_event event now db ≡ ok (record { duplicate = true; payment = p }, db)
unfolding apply_customer_payment_event
seen event now db p e y = rw (e, y) refl

-- A payment that has been paid is taken once: each later event for it, whatever it reports and
-- whenever it comes, is answered as a duplicate and changes nothing.
pub paid_once :
    (event later : PaymentEvent) (now at : ℕ) (db : Db) (r : WebhookOutcome × Db)
    → apply_customer_payment_event event now db ≡ ok r
    → is_succeeded r.0.payment.status ≡ true
    → later.reference ≡ event.reference
    → apply_customer_payment_event later at r.1
      ≡ ok (record { duplicate = true; payment = r.0.payment }, r.1)
paid_once event later now at db r h s same =
    let (p, e, settled) = apply-Settled event now db r h in again p e settled
  where
    again :
        (p : CustomerPayment)
        → find (has_reference event.reference) db.customer_payments ≡ some p
        → Settled event p now db r
        → apply_customer_payment_event later at r.1
          ≡ ok (record { duplicate = true; payment = r.0.payment }, r.1)
    again p e (inl nothing) =
        let paid : is_succeeded p.status ≡ true = ground arith in
        let answer = seen later at db p (rw same e) (ground arith) in
        rw (ap (λ x. x.1) nothing, ap (λ x. x.0.payment) nothing) answer
    again p e (inr (inl (failed, _, _))) = absurd (ground arith)
    again p e (inr (inr (paid, _, _, found))) =
        rw (ap (λ o. o.payment) paid)
          (seen later at r.1 (as_paid event p) (rw same found) (ground arith))

-- What a call leaves of the database: a throw leaves it as it was.
abbrev pub left_by : Result (WebhookOutcome × Db) → Db → Db
left_by (ok r) db = r.1
left_by (err e) db = db

-- Events that come one after the other, each with the time of its call.
abbrev pub after_events : List (PaymentEvent × ℕ) → Db → Db
after_events [] db = db
after_events ((event, now) ∷ events) db =
    after_events events (left_by (apply_customer_payment_event event now db) db)

abbrev pub AllAbout : ℕ → List (PaymentEvent × ℕ) → Type 0
AllAbout reference [] = Unit {0}
AllAbout reference ((event, now) ∷ events) =
    (event.reference ≡ reference) × AllAbout reference events

-- The payment `reference` of `now` has failed, and the subscriptions are those of `before`.
abbrev pub HasFailed : ℕ → Db → Db → Type 0
HasFailed reference before now =
    (p : CustomerPayment) × (find (has_reference reference) now.customer_payments ≡ some p)
    × (p.status ≡ TransactionStatus.failed)
    × (now.customer_subscriptions ≡ before.customer_subscriptions)

one_event :
    (event : PaymentEvent) (now : ℕ) (before db : Db) (x : Result (WebhookOutcome × Db))
    → apply_customer_payment_event event now db ≡ x
    → HasFailed event.reference before db
    → HasFailed event.reference before (left_by x db)
one_event event now before db (err e) h failed = failed
one_event event now before db (ok r) h (p, found, failed, kept) =
    let (q, e, settled) = apply-Settled event now db r h in
    let same : p ≡ q = cc (found, e) in
    elim settled [
      | inl nothing ↦
          let unmoved = ap (λ r. r.1) nothing in
          subst (HasFailed event.reference before) (sym unmoved) (p, found, failed, kept)
      | inr (inl (_, subscriptions, as_found)) ↦
          (as_failed event q, as_found, refl, subscriptions ∙ kept)
      | inr (inr (_, is_open, _, _)) ↦
          let closed : is_open_payment q.status ≡ false =
            ap (λ p. is_open_payment p.status) (sym same) ∙ ap is_open_payment failed in
          absurd (ground (arith, is_open, closed))
    ]

-- A payment that has failed stays failed: whatever events for it come later, in whatever number and
-- order, and also when they report its success, it has failed and no subscription has changed.
pub failed_payment_stays :
    (reference : ℕ) (events : List (PaymentEvent × ℕ)) (before db : Db)
    → AllAbout reference events
    → HasFailed reference before db
    → HasFailed reference before (after_events events db)
failed_payment_stays reference [] before db about failed = failed
failed_payment_stays reference ((event, now) ∷ events) before db (same, about) failed =
    failed_payment_stays reference events before
      (left_by (apply_customer_payment_event event now db) db) about
      (subst (λ k. HasFailed k before (left_by (apply_customer_payment_event event now db) db)) same
        (one_event event now before db (apply_customer_payment_event event now db) refl
          (subst (λ k. HasFailed k before db) (sym same) failed)))

extended-operational :
    (old : Option CustomerSubscription) (now day : ℕ)
    → day < now + 28 * ms_per_day
    → is_customer_operational (some (extended old now)) day ≡ true
unfolding is_customer_operational extended
extended-operational none now day by = ground (arith, (add_interval_bounds now).0)
extended-operational (some s) now day by =
    ground (arith, (add_interval_bounds now).0, (add_interval_bounds s.current_period_end).0)

-- A payment that is taken now keeps the customer operational for 28 days at least.
pub payment_extends_subscription :
    (event : PaymentEvent) (now day : ℕ) (db : Db) (r : WebhookOutcome × Db)
    → apply_customer_payment_event event now db ≡ ok r
    → r.0.duplicate ≡ false
    → is_succeeded r.0.payment.status ≡ true
    → day < now + 28 * ms_per_day
    → is_customer_operational (r.1.customer_subscriptions r.0.payment.user_id) day ≡ true
payment_extends_subscription event now day db r h d s by =
    let (p, e, settled) = apply-Settled event now db r h in runs p settled
  where
    runs :
        (p : CustomerPayment)
        → Settled event p now db r
        → is_customer_operational (r.1.customer_subscriptions r.0.payment.user_id) day ≡ true
    runs p (inl nothing) = absurd (ground arith)
    runs p (inr (inl (failed, _, _))) = absurd (ground arith)
    runs p (inr (inr (paid, _, renewed, _))) =
        let user : r.0.payment.user_id ≡ p.user_id = ap (λ o. o.payment.user_id) paid in
        rw (user, renewed) (extended-operational (db.customer_subscriptions p.user_id) now day by)
