-- ===== src/Notifications/Phone.antt =====
-- src/server/notifications/notification-messages.ts: phone numbers and the choice of channels.
use filazero_local.Base.{
  Bool, true, false, not, ◌&&◌, ◌||◌, Option, none, some, List, [], ◌∷◌, ◌++◌, ltb, leb, ◌==◌,
  if◌then◌else◌, length, drop, select, Text, trim, starts_with, is_digit, drop_while, is_some,
}
use filazero_local.Database.{NotificationChannel, NotificationType, User}

-- `244`, Angola.
abbrev pub default_country_code : Text
default_country_code = 50 ∷ 52 ∷ 52 ∷ []

-- `digits.startsWith("00") ? digits.slice(2) : digits`
abbrev pub drop_international : Text → Text
drop_international digits = if starts_with (48 ∷ 48 ∷ []) digits then drop 2 digits else digits

-- `digits.replace(/^0+/, "")`
abbrev pub drop_zeros : Text → Text
drop_zeros = drop_while (λ c. c == 48)

-- A number with no `+` gets the country code unless it starts with it or is longer than 9.
abbrev pub add_country_code : Text → Text → Text
add_country_code code digits =
    if not (starts_with code digits) && leb (length digits) 9 then code ++ digits else digits

-- `+` and 9 to 15 digits, or nothing.
abbrev pub plausible : Text → Option Text
plausible digits =
    if ltb (length digits) 9 || ltb 15 (length digits) then none else some (43 ∷ digits)

-- The digits of a number, once the leading `00` is gone.
abbrev pub bare_digits : Text → Text
bare_digits raw = drop_international (select is_digit raw)

-- What remains to be done once it is known whether the number began with `+`.
abbrev pub finish_phone : Bool → Text → Option Text
finish_phone true digits = plausible digits
finish_phone false digits = plausible (add_country_code default_country_code (drop_zeros digits))

unfoldable pub normalize_phone : Text → Option Text
normalize_phone raw =
    if length (bare_digits raw) == 0
    then none
    else finish_phone (starts_with (43 ∷ []) (trim raw)) (bare_digits raw)

-- The same for a nullable column.
unfoldable pub normalize_nullable_phone : Option Text → Option Text
normalize_nullable_phone none = none
normalize_nullable_phone (some raw) = normalize_phone raw

unfoldable pub select_channels : User → List NotificationChannel
select_channels user =
    if is_some (normalize_nullable_phone user.phone)
    then (if user.whatsapp_opt_in then NotificationChannel.whatsapp ∷ [] else [])
      ++ (if user.sms_opt_in then NotificationChannel.sms ∷ [] else [])
    else []

unfoldable pub is_out_of_app_type : NotificationType → Bool
is_out_of_app_type NotificationType.queue_joined = true
is_out_of_app_type NotificationType.customer_called = true
is_out_of_app_type NotificationType.service_completed = true
is_out_of_app_type NotificationType.ticket_cancelled = true
is_out_of_app_type _ = false
