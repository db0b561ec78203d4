-- ===== src/Notifications/Create.antt =====
-- src/server/notifications/notification.service.ts `createNotification`, with the outbox rows of
-- `enqueueNotificationDeliveries` (notification-dispatch.service.ts).
use filazero_local.Base.{
  ℕ, Option, none, some, List, [], ◌∷◌, ◌++◌, map, if◌then◌else◌, length, Text,
}
use filazero_local.Database.{
  Db, NotificationType, NotificationChannel, Delivery, DeliveryStatus, User,
}
use filazero_local.Notifications.Phone.{
  normalize_nullable_phone, select_channels, is_out_of_app_type,
}

-- One row for each channel the user has agreed to. The unique index on (notification, channel)
-- cannot refuse one: the notification is new and `select_channels` names no channel twice.
unfoldable pub delivery_rows : ℕ → ℕ → List NotificationChannel → Option Text → List Delivery
delivery_rows notification user channels none = []
delivery_rows notification user channels (some phone) = map row channels
  where
    row : NotificationChannel → Delivery
    row c = record {
      notification_id = notification;
      user_id = user;
      channel = c;
      recipient = phone;
      status = DeliveryStatus.pending;
      attempts = 0;
    }

unfoldable pub enqueue_notification_deliveries : ℕ → ℕ → User → Db → Db
unfolding delivery_rows
enqueue_notification_deliveries notification user recipient db = record db {
  deliveries =
      db.deliveries
      ++ delivery_rows notification user (select_channels recipient)
          (normalize_nullable_phone recipient.phone);
}

-- The outbox rows of an event worth a message outside the app, if the user is there.
unfoldable pub enqueue_for : ℕ → ℕ → Option User → Db → Db
unfolding enqueue_notification_deliveries
enqueue_for notification user none db = db
enqueue_for notification user (some u) db = enqueue_notification_deliveries notification user u db

unfoldable pub create_notification : ℕ → NotificationType → ℕ → Db → Db
unfolding enqueue_for
create_notification user kind ticket db =
    if is_out_of_app_type kind then enqueue_for id user (db.users user) written else written
  where
    id : ℕ
    id = length db.notifications

    written : Db
    written = record db {
      notifications =
          db.notifications ++ record { user_id = user; kind = kind; ticket_id = ticket } ∷ [];
    }

-- `if (ticket.userId) await createNotification(...)`: a guest is told nothing.
unfoldable pub notify_owner : Option ℕ → NotificationType → ℕ → Db → Db
notify_owner none kind ticket db = db
notify_owner (some user) kind ticket db = create_notification user kind ticket db
