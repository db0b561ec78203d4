-- ===== src/Customer.antt =====
-- src/server/customer: the subscription that customers pay for.
pub mod Payments
pub mod PaymentLaws
pub mod OnceLaws
