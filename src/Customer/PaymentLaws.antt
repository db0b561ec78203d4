-- ===== src/Customer/PaymentLaws.antt =====
-- What `applyCustomerPaymentEvent` does to a payment and to the subscription.
use filazero_local.Base.{
  ℕ, ◌≡◌, refl, sym, subst, ◌∙◌, true, false, ◌||◌, some, List, [], ◌∷◌, ==_refl, is_some_of, find,
  modify_where, arith, inl, inr, ◌⊎◌, Bool-cases, Option-cases,
}
use filazero_local.Errors.{ok, >>=-eq-ok}
use filazero_local.Database.{Db, CustomerPayment, update, record_audit}
use filazero_local.Customer.Payments.{
  Outcome, PaymentEvent, WebhookOutcome, is_succeeded, is_open_payment, has_reference,
  has_payment_id, write_event, as_failed, as_paid, extended, settle, apply_customer_payment_event,
}

-- The row written is the one found under its reference afterwards.
find-written :
    (ps : List CustomerPayment) (p row : CustomerPayment)
    → find (has_reference row.reference) ps ≡ some p
    → row.id ≡ p.id
    → find (has_reference row.reference) (modify_where (has_payment_id row.id) (λ _. row) ps)
      ≡ some row
find-written [] p row e same = cc
find-written (q ∷ qs) p row e same =
    ground (arith, find-written qs p row, ==_refl row.reference, ==_refl row.id)

write_event-payments :
    (event : PaymentEvent) (row : CustomerPayment) (db db' : Db)
    → write_event event row db ≡ ok db'
    → db'.customer_payments ≡ modify_where (has_payment_id row.id) (λ _. row) db.customer_payments
unfolding write_event
write_event-payments event row db db' h = ground arith

write_event-subscriptions :
    (event : PaymentEvent) (row : CustomerPayment) (db db' : Db)
    → write_event event row db ≡ ok db'
    → db'.customer_subscriptions ≡ db.customer_subscriptions
unfolding write_event
write_event-subscriptions event row db db' h = ground arith

-- What a call that succeeds did to the payment `p`: nothing, or it noted the failure, or it took the
-- payment and extended the subscription.
abbrev pub IsNothing : CustomerPayment → Db → WebhookOutcome × Db → Type 0
IsNothing p db r = r ≡ (record { duplicate = true; payment = p }, db)

abbrev pub IsFailure : PaymentEvent → CustomerPayment → Db → WebhookOutcome × Db → Type 0
IsFailure event p db r =
    (r.0 ≡ record { duplicate = false; payment = as_failed event p })
    × (r.1.customer_subscriptions ≡ db.customer_subscriptions)
    × (find (has_reference event.reference) r.1.customer_payments ≡ some (as_failed event p))

abbrev pub IsPaid : PaymentEvent → CustomerPayment → ℕ → Db → WebhookOutcome × Db → Type 0
IsPaid event p now db r =
    (r.0 ≡ record { duplicate = false; payment = as_paid event p })
    × (is_open_payment p.status ≡ true)
    × (r.1.customer_subscriptions p.user_id
        ≡ some (extended (db.customer_subscriptions p.user_id) now))
    × (find (has_reference event.reference) r.1.customer_payments ≡ some (as_paid event p))

abbrev pub Settled : PaymentEvent → CustomerPayment → ℕ → Db → WebhookOutcome × Db → Type 0
Settled event p now db r = IsNothing p db r ⊎ IsFailure event p db r ⊎ IsPaid event p now db r

find-reference :
    (reference : ℕ) (ps : List CustomerPayment) (p : CustomerPayment)
    → find (has_reference reference) ps ≡ some p
    → reference ≡ p.reference
find-reference reference [] p e = cc
find-reference reference (q ∷ qs) p e = ground (arith, find-reference reference qs p)

-- The row is found under the event's reference.
find-event :
    (event : PaymentEvent) (p row : CustomerPayment) (db db' : Db)
    → find (has_reference event.reference) db.customer_payments ≡ some p
    → row.id ≡ p.id
    → row.reference ≡ p.reference
    → write_event event row db ≡ ok db'
    → find (has_reference event.reference) db'.customer_payments ≡ some row
find-event event p row db db' e id reference w =
    let same : event.reference ≡ row.reference =
      find-reference event.reference db.customer_payments p e ∙ sym reference in
    rw (write_event-payments event row db db' w, same)
      (find-written db.customer_payments p row (rw same at e) id)

settle-Settled :
    (o : Outcome) (event : PaymentEvent) (p : CustomerPayment) (now : ℕ) (db : Db)
    (r : WebhookOutcome × Db)
    → find (has_reference event.reference) db.customer_payments ≡ some p
    → settle o event p now db ≡ ok r
    → Settled event p now db r
unfolding settle record_audit
settle-Settled Outcome.failed event p now db r e h =
    let (written, w, k) = >>=-eq-ok (write_event event (as_failed event p) db) _ h in
    let found = find-event event p (as_failed event p) db written e refl refl w in
    let same : (record { duplicate = false; payment = as_failed event p }, written) ≡ r =
      ground arith in
    inr (
      inl (
        subst (IsFailure event p db) same
          (refl, write_event-subscriptions event _ db written w, found)))
settle-Settled Outcome.succeeded event p now db r e h =
    elim (Bool-cases (is_open_payment p.status)) [
      | inl y ↦
          let (written, w, k) = >>=-eq-ok (write_event event (as_paid event p) db) _ (rw y at h) in
          let found = find-event event p (as_paid event p) db written e refl refl w in
          let made : r.0 ≡ record { duplicate = false; payment = as_paid event p } = ground arith in
          let renewed : r.1.customer_subscriptions
              ≡ update written.customer_subscriptions p.user_id
                  (extended (db.customer_subscriptions p.user_id) now) =
            ground arith in
          let kept : r.1.customer_payments ≡ written.customer_payments = ground arith in
          inr (inr (made, y, rw (renewed, ==_refl p.user_id) refl, rw kept found))
      | inr n ↦ inl (ground arith)
    ]

pub apply-Settled :
    (event : PaymentEvent) (now : ℕ) (db : Db) (r : WebhookOutcome × Db)
    → apply_customer_payment_event event now db ≡ ok r
    → (p : CustomerPayment) × (find (has_reference event.reference) db.customer_payments ≡ some p)
      × Settled event p now db r
unfolding apply_customer_payment_event
apply-Settled event now db r h =
    elim (Option-cases (find (has_reference event.reference) db.customer_payments)) [
      | inl e ↦ absurd (ground arith)
      | inr (p, e) ↦
          elim (Bool-cases
            (is_some_of event.event_id p.provider_event_id || is_succeeded p.status)) [
              | inl y ↦ (p, e, inl (ground arith))
              | inr n ↦ (p, e, settle-Settled event.outcome event p now db r e (ground arith))
            ]
    ]
