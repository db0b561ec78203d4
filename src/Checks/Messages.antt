-- ===== src/Checks/Messages.antt =====
-- Tests of src/server/notifications.
use filazero_local.Base.{
  ◌≤◌, ◌≡◌, refl, none, some, [], ◌∷◌, length, Text, true, false, ◌==◌, if◌then◌else◌, In, inl, ◌⊎◌,
}
use filazero_local.Database.{
  Db, Delivery, NotificationType, NotificationChannel, User, DeliveryStatus,
}
use filazero_local.Notifications.Phone.{
  normalize_phone, normalize_nullable_phone, select_channels, is_out_of_app_type,
}
use filazero_local.Notifications.Create.{
  create_notification, enqueue_for, enqueue_notification_deliveries, delivery_rows,
}
use filazero_local.Notifications.PhoneLaws.{IsNumber, normalize_phone_form}
use filazero_local.Notifications.DeliveryLaws.{IsWanted, create_notification-deliveries}
use filazero_local.Checks.Sample.{start}

-- `0923 456 789`
abbrev local_number : Text
local_number = 48 ∷ 57 ∷ 50 ∷ 51 ∷ 32 ∷ 52 ∷ 53 ∷ 54 ∷ 32 ∷ 55 ∷ 56 ∷ 57 ∷ []

-- `+244923456789`
abbrev full_number : Text
full_number = 43 ∷ 50 ∷ 52 ∷ 52 ∷ 57 ∷ 50 ∷ 51 ∷ 52 ∷ 53 ∷ 54 ∷ 55 ∷ 56 ∷ 57 ∷ []

local_is_completed : normalize_phone local_number ≡ some full_number
unfolding normalize_phone
local_is_completed = refl

too_short : normalize_phone (43 ∷ 50 ∷ 52 ∷ 52 ∷ []) ≡ none
unfolding normalize_phone
too_short = refl

normalize_phone_form_example :
    (digits : Text) × (full_number ≡ 43 ∷ digits)
    × IsNumber digits
    × (9 ≤ length digits)
    × (length digits ≤ 15)
normalize_phone_form_example = normalize_phone_form local_number full_number local_is_completed

-- The customer 5 with a phone, who has agreed to SMS only.
abbrev with_phone : Db
with_phone = record start {
  users = λ k.
      if k == 5
      then some (record { phone = some local_number; sms_opt_in = true; whatsapp_opt_in = false })
      else none;
}

abbrev sms_row : Delivery
sms_row = record {
  notification_id = 0;
  user_id = 5;
  channel = NotificationChannel.sms;
  recipient = full_number;
  status = DeliveryStatus.pending;
  attempts = 0;
}

one_row :
    (create_notification 5 NotificationType.customer_called 11 with_phone).deliveries ≡ sms_row ∷ []
unfolding create_notification enqueue_for enqueue_notification_deliveries delivery_rows
    select_channels normalize_nullable_phone normalize_phone is_out_of_app_type
one_row = refl

sms_row_is_In :
    In sms_row (create_notification 5 NotificationType.customer_called 11 with_phone).deliveries
sms_row_is_In = rw one_row (inl refl)

create_notification-deliveries_example :
    In sms_row with_phone.deliveries
    ⊎ ((u : User) × (with_phone.users 5 ≡ some u)
        × (is_out_of_app_type NotificationType.customer_called ≡ true)
        × IsWanted (length with_phone.notifications) 5 u sms_row)
create_notification-deliveries_example =
    create_notification-deliveries 5 NotificationType.customer_called 11 with_phone sms_row
      sms_row_is_In
