-- ===== src/Notifications/Dispatch.antt =====
-- src/server/notifications/notification-dispatch.service.ts: the outbox is emptied by
-- `drainPendingDeliveries`. The rows stand in the order of `created_at`. `configured` tells which
-- channels have a provider and `accepts` whether the provider takes a message, which is its answer
-- to this attempt; `locked` are the rows that another instance is claiming (SKIP LOCKED).
use filazero_local.Base.{
  ℕ, zero, suc, ◌+◌, Bool, true, false, not, ◌&&◌, List, [], ◌∷◌, map, ◌-◌, ltb, leb, bit,
  if◌then◌else◌,
}
use filazero_local.Database.{Delivery, DeliveryStatus, NotificationChannel}

abbrev pub max_attempts : ℕ
max_attempts = 3

abbrev pub is_pending : DeliveryStatus → Bool
is_pending DeliveryStatus.pending = true
is_pending _ = false

abbrev pub is_sent : DeliveryStatus → Bool
is_sent DeliveryStatus.sent = true
is_sent _ = false

-- `db.notificationDelivery.update({ where: { id } })`, of the status.
abbrev pub write_status : ℕ → DeliveryStatus → List Delivery → List Delivery
write_status place status [] = []
write_status zero status (d ∷ ds) = record d { status = status } ∷ ds
write_status (suc place) status (d ∷ ds) = d ∷ write_status place status ds

-- A row as `claimPending` leaves and returns it.
abbrev pub as_processing : Delivery → Delivery
as_processing d = record d { status = DeliveryStatus.processing; attempts = d.attempts + 1 }

-- A claimed row: its place in the table, and what it was when it was claimed.
abbrev pub ClaimedDelivery : Type 0
ClaimedDelivery = ℕ × Delivery

abbrev pub further : ClaimedDelivery → ClaimedDelivery
further (place, d) = (suc place, d)

abbrev pub takes : (Delivery → Bool) → ℕ → Delivery → Bool
takes locked limit d = is_pending d.status && (not (locked d) && ltb 0 limit)

abbrev pub one_less : Bool → ℕ → ℕ
one_less true limit = limit - 1
one_less false limit = limit

-- The table after the claim, and the rows that were claimed.
unfoldable pub claim_pending :
    (Delivery → Bool) → ℕ → List Delivery → List Delivery × List ClaimedDelivery
claim_pending locked limit [] = ([], [])
claim_pending locked limit (d ∷ ds) =
    let rest = claim_pending locked (one_less (takes locked limit d) limit) ds in
    if takes locked limit d
    then (as_processing d ∷ rest.0, (0, as_processing d) ∷ map further rest.1)
    else (d ∷ rest.0, map further rest.1)

module _ (configured : NotificationChannel → Bool) (accepts : Delivery → Bool) where
  -- What becomes of a claimed row.
  abbrev pub outcome : Delivery → DeliveryStatus
  outcome d =
      if not (configured d.channel)
      then DeliveryStatus.skipped
      else if accepts d
      then DeliveryStatus.sent
      else if leb max_attempts d.attempts
      then DeliveryStatus.failed
      else DeliveryStatus.pending

  -- Whether the message was sent, and the table.
  unfoldable pub deliver : ClaimedDelivery → List Delivery → Bool × List Delivery
  deliver (place, d) ds = (is_sent (outcome d), write_status place (outcome d) ds)

  -- The loop over the claimed rows, which counts those that were sent.
  unfoldable pub deliver_all : List ClaimedDelivery → List Delivery → ℕ × List Delivery
  unfolding deliver
  deliver_all [] ds = (0, ds)
  deliver_all (c ∷ cs) ds =
      let rest = deliver_all cs (deliver c ds).1 in (bit (deliver c ds).0 + rest.0, rest.1)

  unfoldable pub drain_pending_deliveries :
      (Delivery → Bool) → ℕ → List Delivery → ℕ × List Delivery
  unfolding claim_pending deliver_all
  drain_pending_deliveries locked limit ds =
      let claimed = claim_pending locked limit ds in deliver_all claimed.1 claimed.0
