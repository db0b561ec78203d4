-- ===== src/Notifications/DrainLaws.antt =====
-- What a call of `drainPendingDeliveries` may do to the outbox.
use filazero_local.Base.{
  ℕ, ◌+◌, ◌-◌, ◌*◌, ◌≤◌, ◌<◌, ◌≡◌, refl, Bool, true, false, List, [], ◌∷◌, bit, arith, ap, sym,
  subst, inl, inr, ◌⊎◌, count_if,
}
use filazero_local.Database.{Delivery, DeliveryStatus, NotificationChannel}
use filazero_local.Notifications.Dispatch.{
  as_processing, max_attempts, is_pending, is_sent, takes, one_less, outcome,
  drain_pending_deliveries, claim_pending, deliver_all,
}
use filazero_local.Notifications.Drain.{tried, done_row, drain_row, after_row}

abbrev pub is_processing : DeliveryStatus → Bool
is_processing DeliveryStatus.processing = true
is_processing _ = false

abbrev pub sent_row : Delivery → Bool
sent_row d = is_sent d.status

abbrev pub pending_row : Delivery → Bool
pending_row d = is_pending d.status

abbrev pub processing_row : Delivery → Bool
processing_row d = is_processing d.status

-- At most three attempts, and fewer for a row that waits for another one.
abbrev pub IsFit : Delivery → Type 0
IsFit d = d.attempts + bit (pending_row d) ≤ max_attempts

abbrev pub AllFit : List Delivery → Type 0
AllFit [] = Unit {0}
AllFit (d ∷ ds) = IsFit d × AllFit ds

-- The attempts that a row may still take.
abbrev pub attempts_left : Delivery → ℕ
attempts_left d = bit (pending_row d) * (max_attempts - d.attempts)

abbrev pub all_left : List Delivery → ℕ
all_left [] = 0
all_left (d ∷ ds) = attempts_left d + all_left ds

-- A row stays as it was, or it was pending and has been tried once: its status and the count of
-- attempts are new and it is not left in processing.
abbrev pub Tried : Delivery → Delivery → Type 0
Tried d e =
    (e ≡ d)
    ⊎ ((pending_row d ≡ true)
        × (e ≡ record d { status = e.status; attempts = d.attempts + 1 })
        × (processing_row e ≡ false))

abbrev pub AllTried : List Delivery → List Delivery → Type 0
AllTried [] [] = Unit {0}
AllTried (d ∷ ds) (e ∷ es) = Tried d e × AllTried ds es
AllTried _ _ = ⊥

takes-pending :
    (locked : Delivery → Bool) (limit : ℕ) (d : Delivery)
    → takes locked limit d ≡ true
    → pending_row d ≡ true
takes-pending locked limit d h = ground (arith, h)

-- What a call leaves of the table `ds`.
abbrev pub IsDrained : List Delivery → ℕ × List Delivery → Type 0
IsDrained ds done =
    AllFit done.1
    × AllTried ds done.1
    × (done.0 + count_if sent_row ds ≡ count_if sent_row done.1)
    × (all_left done.1 ≤ all_left ds)
    × (count_if processing_row done.1 ≤ count_if processing_row ds)

module _ (configured : NotificationChannel → Bool) (accepts : Delivery → Bool) where
  outcome-settled : (d : Delivery) → is_processing (outcome configured accepts d) ≡ false
  outcome-settled d = ground arith

  tried-IsFit : (d : Delivery) → pending_row d ≡ true → IsFit d → IsFit (tried configured accepts d)
  tried-IsFit d p fit = ground (arith, p, fit)

  pub tried-left :
      (d : Delivery)
      → pending_row d ≡ true
      → IsFit d
      → attempts_left (tried configured accepts d) < attempts_left d
  tried-left d p fit = ground (arith, p, fit)

  -- What holds of no rows and passes from the rest of a table to the table holds of every call.
  by_row :
      (P : List Delivery → ℕ × List Delivery → Type 0)
      → P [] (0, [])
      → ((b : Bool) (d : Delivery) (ds : List Delivery) (done : ℕ × List Delivery)
          → (b ≡ true → pending_row d ≡ true)
          → P ds done
          → P (d ∷ ds) (done_row configured accepts b d done))
      → (locked : Delivery → Bool) (limit : ℕ) (ds : List Delivery)
      → P ds (drain_pending_deliveries configured accepts locked limit ds)
  unfolding drain_pending_deliveries claim_pending deliver_all
  by_row P base step locked limit [] = base
  by_row P base step locked limit (d ∷ ds) =
      subst (P (d ∷ ds)) (sym (drain_row configured accepts locked limit d ds)) (
        step (takes locked limit d) d ds (after_row configured accepts locked limit d ds)
          (takes-pending locked limit d)
          (by_row P base step locked (one_less (takes locked limit d) limit) ds))

  all_rows :
      (locked : Delivery → Bool) (limit : ℕ) (ds : List Delivery)
      → AllFit ds
      → IsDrained ds (drain_pending_deliveries configured accepts locked limit ds)
  all_rows =
      by_row (λ ds done. AllFit ds → IsDrained ds done)
        (λ fit. (tt, tt, refl, omega arith, omega arith)) row
    where
      row :
          (b : Bool) (d : Delivery) (ds : List Delivery) (done : ℕ × List Delivery)
          → (b ≡ true → pending_row d ≡ true)
          → (AllFit ds → IsDrained ds done)
          → AllFit (d ∷ ds)
          → IsDrained (d ∷ ds) (done_row configured accepts b d done)
      row false d ds done p rest (fit, fits) =
          let (f, t, c, l, n) = rest fits in
          ((fit, f), (inl refl, t), omega (arith, c), omega (arith, l), omega (arith, n))
      row true d ds done p rest (fit, fits) =
          let (f, t, c, l, n) = rest fits in
          let pending = p refl in
          let settled : processing_row (tried configured accepts d) ≡ false =
            outcome-settled (as_processing d) in
          let unsent : sent_row d ≡ false = ground (arith, pending) in
          (
            (tried-IsFit d pending fit, f),
            (inr (pending, refl, settled), t),
            omega (arith, c, ap bit unsent),
            omega (arith, l, tried-left d pending fit),
            omega (arith, n, ap bit settled),
          )

-- A call of `drainPendingDeliveries`, whatever rows other instances are claiming and whatever the
-- providers answer, on rows that have been tried three times at most, a pending one twice at most:
-- they are so afterwards, each row stays as it was or was pending and has been tried once and is not
-- left in processing, so a message that was sent is not sent again, the attempts that are left and
-- the rows in processing do not grow, and the number returned is that of the rows that became sent.
pub drain_pending_deliveries-IsDrained :
    (configured : NotificationChannel → Bool) (accepts : Delivery → Bool) (locked : Delivery → Bool)
    (limit : ℕ) (ds : List Delivery)
    → AllFit ds
    → IsDrained ds (drain_pending_deliveries configured accepts locked limit ds)
drain_pending_deliveries-IsDrained = all_rows
