-- ===== src/Invoices.antt =====
-- src/server/billing: the payments and invoices of organizations. `Rules` has the pure rules of
-- agt.ts, `Tables` the rows, `Series` the numbers of invoice-series.service.ts, `Payment` the
-- webhook of billing.service.ts and `Plans` the limits of a plan.
pub mod Rules
pub mod Tables
pub mod Series
pub mod Signing
pub mod Payment
pub mod Webhook
pub mod Gapless
pub mod Effects
pub mod Amounts
pub mod Documents
pub mod Plans
pub mod PlanLaws
pub mod Counter
pub mod Issue
pub mod Paid
pub mod Certified
pub mod Rows
pub mod Numbered
