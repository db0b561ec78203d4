-- ===== src/Qr.antt =====
-- src/server/billing/qr-payment.ts: the payment code that a bank's application scans, a text of
-- tagged elements with a checksum. `Encoding` has what the source calls of the language: UTF-8,
-- the printing of numbers, padding and upper case.
pub mod Encoding
pub mod Tlv
pub mod Numbers
pub mod Checksum
pub mod RoundTrip
pub mod IbanLaws
pub mod OneDigit
pub mod Rounds
pub mod Decimal
pub mod Crc
pub mod Iban
pub mod Payload
