-- ===== src/Notifications/Drain.antt =====
-- One call of `drainPendingDeliveries`, row by row: the loop over the claimed rows touches each row
-- once, in its place.
use filazero_local.Base.{
  ℕ, ◌+◌, ◌≡◌, refl, Bool, true, false, List, [], ◌∷◌, map, bit, if◌then◌else◌, ap,
}
use filazero_local.Database.{Delivery, NotificationChannel}
use filazero_local.Notifications.Dispatch.{
  as_processing, ClaimedDelivery, further, takes, one_less, claim_pending, outcome, is_sent,
  write_status, deliver, deliver_all, drain_pending_deliveries,
}

module _ (configured : NotificationChannel → Bool) (accepts : Delivery → Bool) where
  -- A row after it has been claimed and delivered.
  abbrev pub tried : Delivery → Delivery
  tried d = record d {
    status = outcome configured accepts (as_processing d);
    attempts = d.attempts + 1;
  }

  deliver_all-further :
      (cs : List ClaimedDelivery) (d : Delivery) (ds : List Delivery)
      → deliver_all configured accepts (map further cs) (d ∷ ds)
        ≡ ((deliver_all configured accepts cs ds).0, d ∷ (deliver_all configured accepts cs ds).1)
  unfolding deliver_all deliver
  deliver_all-further [] d ds = refl
  deliver_all-further ((place, c) ∷ cs) d ds =
      ap (λ r. (bit (is_sent (outcome configured accepts c)) + r.0, r.1))
        (deliver_all-further cs d (write_status place (outcome configured accepts c) ds))

  -- The rest of the table after the first row.
  abbrev pub after_row : (Delivery → Bool) → ℕ → Delivery → List Delivery → ℕ × List Delivery
  after_row locked limit d ds =
      drain_pending_deliveries configured accepts locked (one_less (takes locked limit d) limit) ds

  abbrev claim_row :
      Bool → Delivery → List Delivery × List ClaimedDelivery → List Delivery × List ClaimedDelivery
  claim_row b d rest =
      if b
      then (as_processing d ∷ rest.0, (0, as_processing d) ∷ map further rest.1)
      else (d ∷ rest.0, map further rest.1)

  -- The result for a table from that for the table without its first row.
  abbrev pub done_row : Bool → Delivery → ℕ × List Delivery → ℕ × List Delivery
  done_row b d done =
      if b
      then (bit (is_sent (tried d).status) + done.0, tried d ∷ done.1)
      else (done.0, d ∷ done.1)

  claimed_row :
      (b : Bool) (d : Delivery) (rest : List Delivery × List ClaimedDelivery)
      → deliver_all configured accepts (claim_row b d rest).1 (claim_row b d rest).0
        ≡ done_row b d (deliver_all configured accepts rest.1 rest.0)
  unfolding deliver_all deliver
  claimed_row true d rest =
      ap (λ r. (bit (is_sent (tried d).status) + r.0, r.1))
        (deliver_all-further rest.1 (tried d) rest.0)
  claimed_row false d rest = deliver_all-further rest.1 d rest.0

  pub drain_row :
      (locked : Delivery → Bool) (limit : ℕ) (d : Delivery) (ds : List Delivery)
      → drain_pending_deliveries configured accepts locked limit (d ∷ ds)
        ≡ done_row (takes locked limit d) d (after_row locked limit d ds)
  unfolding drain_pending_deliveries claim_pending
  drain_row locked limit d ds =
      claimed_row (takes locked limit d) d
        (claim_pending locked (one_less (takes locked limit d) limit) ds)
