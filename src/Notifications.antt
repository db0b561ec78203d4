-- ===== src/Notifications.antt =====
-- Notifications: phone numbers and channels (notification-messages.ts), the rows that an event
-- writes (notification.service.ts) and the outbox (notification-dispatch.service.ts).
pub mod Phone
pub mod Create
pub mod Dispatch
pub mod Drain
pub mod DrainLaws
pub mod Delivered
pub mod PhoneLaws
pub mod DeliveryLaws
