-- ===== src/Notifications/DeliveryLaws.antt =====
-- Which outbox rows `createNotification` of src/server/notifications/notification.service.ts writes.
use filazero_local.Base.{
  ℕ, ◌≡◌, Bool, true, some, List, [], ◌∷◌, ◌++◌, arith, length, In, Option-cases, Bool-cases, inl,
  inr, ◌⊎◌,
}
use filazero_local.Database.{Db, NotificationType, NotificationChannel, Delivery, User}
use filazero_local.Notifications.Phone.{
  normalize_nullable_phone, select_channels, is_out_of_app_type,
}
use filazero_local.Notifications.Create.{
  create_notification, enqueue_for, enqueue_notification_deliveries, delivery_rows,
}

-- Whether the user has agreed to a channel.
abbrev pub has_agreed : User → NotificationChannel → Bool
has_agreed u NotificationChannel.whatsapp = u.whatsapp_opt_in
has_agreed u NotificationChannel.sms = u.sms_opt_in

-- A row for this user and notification: the user agreed to its channel, and it goes to the number
-- that the user's phone stands for.
abbrev pub IsWanted : ℕ → ℕ → User → Delivery → Type 0
IsWanted notification user u d =
    (d.notification_id ≡ notification)
    × (d.user_id ≡ user)
    × (normalize_nullable_phone u.phone ≡ some d.recipient)
    × (has_agreed u d.channel ≡ true)

In-append_cases : {A : Type 0} (xs ys : List A) (a : A) → In a (xs ++ ys) → In a xs ⊎ In a ys
In-append_cases [] ys a i = inr i
In-append_cases (x ∷ xs) ys a (inl e) = inl (inl e)
In-append_cases (x ∷ xs) ys a (inr i) = ground (arith, In-append_cases xs ys a i)

rows-IsWanted :
    (notification user : ℕ) (u : User) (d : Delivery)
    → In d (delivery_rows notification user (select_channels u) (normalize_nullable_phone u.phone))
    → IsWanted notification user u d
unfolding delivery_rows select_channels
rows-IsWanted notification user u d i = elim (Option-cases (normalize_nullable_phone u.phone)) [
  | inl e ↦ absurd (rw e at i)
  | inr (phone, e) ↦ ground (arith, rw e at i)
]

-- A message outside the app is queued only for an event worth one, to a user who is there, over a
-- channel that the user has agreed to, and to the plausible number that the user's phone stands for.
pub create_notification-deliveries :
    (user : ℕ) (kind : NotificationType) (ticket : ℕ) (db : Db) (d : Delivery)
    → In d (create_notification user kind ticket db).deliveries
    → In d db.deliveries
      ⊎ ((u : User) × (db.users user ≡ some u)
          × (is_out_of_app_type kind ≡ true)
          × IsWanted (length db.notifications) user u d)
unfolding create_notification enqueue_for enqueue_notification_deliveries
create_notification-deliveries user kind ticket db d i =
    elim (Bool-cases (is_out_of_app_type kind)) [
      | inl y ↦ elim (Option-cases (db.users user)) [
        | inl e ↦ inl (rw (y, e) at i)
        | inr (u, e) ↦
            let rows =
              delivery_rows (length db.notifications) user (select_channels u)
                (normalize_nullable_phone u.phone) in
            elim (In-append_cases db.deliveries rows d (rw (y, e) at i)) [
              | inl old ↦ inl old
              | inr new ↦ inr (u, e, y, rows-IsWanted (length db.notifications) user u d new)
            ]
      ]
      | inr n ↦ inl (rw n at i)
    ]
