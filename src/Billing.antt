-- ===== src/Billing.antt =====
-- src/server/billing: what subscriptions of organizations and of customers share.
pub mod Dates
pub mod DateLaws
