-- ===== src/Checks/Outbox.antt =====
-- Tests of the outbox.
use filazero_local.Base.{
  ℕ, ◌≡◌, ◌≤◌, refl, true, false, Bool, List, [], ◌∷◌, arith, count_if, ◌==◌, ltb, ◌&&◌,
}
use filazero_local.Qr.Encoding.{codes}
use filazero_local.Database.{Delivery, DeliveryStatus, NotificationChannel}
use filazero_local.Notifications.Dispatch.{
  drain_pending_deliveries, claim_pending, deliver_all, deliver,
}
use filazero_local.Notifications.DrainLaws.{
  pending_row, processing_row, IsDrained, drain_pending_deliveries-IsDrained,
}
use filazero_local.Notifications.Delivered.{nobody, drains, drains_settle}

abbrev message : ℕ → NotificationChannel → Delivery
message id channel = record {
  notification_id = id;
  user_id = 5;
  channel = channel;
  recipient = codes "+244923000111";
  status = DeliveryStatus.pending;
  attempts = 0;
}

abbrev outbox : List Delivery
outbox =
    message 1 NotificationChannel.sms
    ∷ message 2 NotificationChannel.whatsapp
    ∷ message 3 NotificationChannel.sms
    ∷ []

abbrev sms_only : NotificationChannel → Bool
sms_only NotificationChannel.sms = true
sms_only NotificationChannel.whatsapp = false

-- The provider takes the first message at the second attempt and refuses the third.
abbrev answers : Delivery → Bool
answers d = d.notification_id == 1 && ltb 1 d.attempts

abbrev statuses : List Delivery → List DeliveryStatus
statuses [] = []
statuses (d ∷ ds) = d.status ∷ statuses ds

after_one_call :
    statuses (drain_pending_deliveries sms_only answers nobody 2 outbox).1
    ≡ DeliveryStatus.pending ∷ DeliveryStatus.skipped ∷ DeliveryStatus.pending ∷ []
unfolding drain_pending_deliveries claim_pending deliver_all deliver
after_one_call = refl

after_nine_calls :
    statuses (drains sms_only 2 (λ k. answers) 9 outbox)
    ≡ DeliveryStatus.sent ∷ DeliveryStatus.skipped ∷ DeliveryStatus.failed ∷ []
unfolding drains drain_pending_deliveries claim_pending deliver_all deliver
after_nine_calls = refl

-- A row that was left in processing before.
abbrev with_stuck : List Delivery
with_stuck =
    record (message 4 NotificationChannel.sms) { status = DeliveryStatus.processing } ∷ outbox

drains_settle_example :
    (count_if pending_row (drains sms_only 2 (λ k. answers) 12 with_stuck) ≡ 0)
    × (count_if processing_row (drains sms_only 2 (λ k. answers) 12 with_stuck)
        ≤ count_if processing_row with_stuck)
drains_settle_example =
    drains_settle sms_only 2 (λ k. answers) 12 with_stuck
      (omega arith, (omega arith, (omega arith, (omega arith, tt)))) (omega arith) (omega arith)

drain_pending_deliveries-IsDrained_example :
    IsDrained outbox (drain_pending_deliveries sms_only answers nobody 2 outbox)
drain_pending_deliveries-IsDrained_example =
    drain_pending_deliveries-IsDrained sms_only answers nobody 2 outbox
      (omega arith, (omega arith, (omega arith, tt)))
