-- ===== src/Notifications/Delivered.antt =====
-- The outbox is worked off: calls of `drainPendingDeliveries` leave no row pending.
use filazero_local.Base.{
  ℕ, zero, suc, ◌*◌, ◌≤◌, ◌<◌, ◌≡◌, Bool, true, false, List, [], ◌∷◌, bit, arith, ap, ◌∙◌,
  Bool-cases, inl, inr, ltb, length, count_if,
}
use filazero_local.Database.{Delivery, NotificationChannel}
use filazero_local.Notifications.Dispatch.{takes, one_less, drain_pending_deliveries}
use filazero_local.Notifications.Drain.{done_row, drain_row, after_row}
use filazero_local.Notifications.DrainLaws.{
  pending_row, processing_row, AllFit, all_left, tried-left, drain_pending_deliveries-IsDrained,
}

-- No other instance is at work.
abbrev pub nobody : Delivery → Bool
nobody d = false

module _ (configured : NotificationChannel → Bool) (limit : ℕ) where
  -- `calls` calls; `accepts` has the answers of the providers, which may change from call to call.
  unfoldable pub drains : (ℕ → Delivery → Bool) → ℕ → List Delivery → List Delivery
  drains accepts zero ds = ds
  drains accepts (suc calls) ds =
      drains accepts calls (drain_pending_deliveries configured (accepts calls) nobody limit ds).1

pending-le : (ds : List Delivery) → AllFit ds → count_if pending_row ds ≤ all_left ds
pending-le [] fit = omega arith
pending-le (d ∷ ds) (fit, fits) = elim (Bool-cases (pending_row d)) [
  | inl p ↦ ground (arith, p, fit, pending-le ds fits)
  | inr n ↦ ground (arith, n, pending-le ds fits)
]

left-le : (ds : List Delivery) → all_left ds ≤ 3 * count_if pending_row ds
left-le [] = omega arith
left-le (d ∷ ds) = elim (Bool-cases (pending_row d)) [
  | inl p ↦ ground (arith, p, left-le ds)
  | inr n ↦ ground (arith, n, left-le ds)
]

pending-length : (ds : List Delivery) → count_if pending_row ds ≤ length ds
pending-length [] = omega arith
pending-length (d ∷ ds) = ground (arith, pending-length ds)

module _ (configured : NotificationChannel → Bool) (accepts : Delivery → Bool) where
  -- While a row is pending, a call uses up an attempt.
  progress :
      (limit : ℕ) (ds : List Delivery)
      → AllFit ds
      → 0 < limit
      → 0 < count_if pending_row ds
      → all_left (drain_pending_deliveries configured accepts nobody limit ds).1 < all_left ds
  progress limit [] fit h some_pending = absurd (omega arith)
  progress limit (d ∷ ds) (fit, fits) h some_pending = elim (Bool-cases (pending_row d)) [
    | inl p ↦
        let taken : takes nobody limit d ≡ true = ground (arith, p, h) in
        let rest = after_row configured accepts nobody limit d ds in
        let (_, _, _, less, _) =
          drain_pending_deliveries-IsDrained configured accepts nobody
            (one_less (takes nobody limit d) limit) ds fits in
        let step =
          drain_row configured accepts nobody limit d ds
          ∙ ap (λ b. done_row configured accepts b d rest) taken in
        omega (arith, ap (λ r. all_left r.1) step, tried-left configured accepts d p fit, less)
    | inr n ↦
        let left_out : takes nobody limit d ≡ false = ground (arith, n) in
        let rest = after_row configured accepts nobody limit d ds in
        let step =
          drain_row configured accepts nobody limit d ds
          ∙ ap (λ b. done_row configured accepts b d rest) left_out in
        let same =
          ap
            (λ b.
              all_left (drain_pending_deliveries configured accepts nobody (one_less b limit) ds).1)
            left_out in
        omega (
          arith,
          ap (λ r. all_left r.1) step,
          same,
          progress limit ds fits h (omega (arith, some_pending, ap bit n)),
        )
  ]

settles :
    (configured : NotificationChannel → Bool) (limit : ℕ) (accepts : ℕ → Delivery → Bool)
    (calls : ℕ) (ds : List Delivery)
    → AllFit ds
    → 0 < limit
    → all_left ds ≤ calls
    → (count_if pending_row (drains configured limit accepts calls ds) ≡ 0)
      × (count_if processing_row (drains configured limit accepts calls ds)
          ≤ count_if processing_row ds)
unfolding drains
settles configured limit accepts zero ds fit h enough =
    (omega (arith, pending-le ds fit, enough), omega arith)
settles configured limit accepts (suc calls) ds fit h enough =
    let answers = accepts calls in
    let (fits, _, _, less, idles) =
      drain_pending_deliveries-IsDrained configured answers nobody limit ds fit in
    let next = (drain_pending_deliveries configured answers nobody limit ds).1 in
    let left : all_left next ≤ calls = elim (Bool-cases (ltb 0 (count_if pending_row ds))) [
      | inl more ↦
          omega (arith, progress configured answers limit ds fit h (ground (arith, more)), enough)
      | inr none_left ↦
          let no_pending : count_if pending_row ds ≡ 0 = ground (arith, none_left) in
          omega (arith, less, left-le ds, no_pending)
    ] in
    let (none_pending, later) = settles configured limit accepts calls next fits h left in
    (none_pending, omega (arith, later, idles))

-- If no other instance is at work and each row has been tried three times at most, a pending row
-- twice at most, three calls for each row of the table, of any batch size but zero, leave no row
-- pending, whatever the providers answer from call to call. There are no more rows in
-- processing than at the start.
pub drains_settle :
    (configured : NotificationChannel → Bool) (limit : ℕ) (accepts : ℕ → Delivery → Bool)
    (calls : ℕ) (ds : List Delivery)
    → AllFit ds
    → 0 < limit
    → 3 * length ds ≤ calls
    → (count_if pending_row (drains configured limit accepts calls ds) ≡ 0)
      × (count_if processing_row (drains configured limit accepts calls ds)
          ≤ count_if processing_row ds)
drains_settle configured limit accepts calls ds fit h enough =
    settles configured limit accepts calls ds fit h
      (omega (arith, left-le ds, pending-length ds, enough))
