-- ===== src/Checks.antt =====
-- Tests of the definitions on concrete inputs, and an application of each theorem that has
-- hypotheses to an input where they hold.
pub mod Sample
pub mod Guards
pub mod Machine
pub mod Runs
pub mod Calls
pub mod Histories
pub mod Limits
pub mod Payments
pub mod Messages
pub mod Transfers
pub mod Statuses
pub mod Codes
pub mod Billing
pub mod Outbox
pub mod Webhook
