-- ===== src/Webhooks.antt =====
-- The webhook of the payment providers: its signature (src/server/billing/signature.ts), the reading
-- of an event (billing.rules.ts) and `handlePaymentWebhook` (billing.service.ts).
pub mod Signature
pub mod Events
pub mod Handle
pub mod SignatureLaws
pub mod SignatureRound
