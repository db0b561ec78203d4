-- ===== src/Invoices/Rules.antt =====
-- src/server/billing/agt.ts: VAT, the numbers of documents and the text that is signed. Amounts are
-- counts of cents; a rate is in basis points.
use filazero_local.Base.{
  ℕ, ◌+◌, ◌-◌, ◌*◌, ◌/◌, not, List, [], ◌∷◌, ◌++◌, ◌==◌, if◌then◌else◌, take, select, Text,
  is_space,
}
use filazero_local.Errors.{Result, ok, err, ErrorCode}
use filazero_local.Qr.Encoding.{codes, to_string, pad_start}

pub data InvoiceDocumentType : Type 0 where
  ft fr : InvoiceDocumentType

-- The type as it is written.
abbrev pub type_name : InvoiceDocumentType → Text
type_name InvoiceDocumentType.ft = codes "FT"
type_name InvoiceDocumentType.fr = codes "FR"

pub record VatBreakdown : Type 0 where
  pub subtotal_cents : ℕ
  pub vat_cents : ℕ
  pub total_cents : ℕ

-- `Math.round(a / b)`, for products below 2 ^ 53.
abbrev pub round_div : ℕ → ℕ → ℕ
round_div a b = (2 * a + b) / (2 * b)

unfoldable pub vat_breakdown : ℕ → ℕ → VatBreakdown
vat_breakdown gross_cents rate_bps =
    if rate_bps == 0
    then record { subtotal_cents = gross_cents; vat_cents = 0; total_cents = gross_cents }
    else record {
      subtotal_cents = round_div (gross_cents * 10000) (10000 + rate_bps);
      vat_cents = gross_cents - round_div (gross_cents * 10000) (10000 + rate_bps);
      total_cents = gross_cents;
    }

unfoldable pub format_series_code : InvoiceDocumentType → ℕ → Text
format_series_code document_type year = type_name document_type ++ to_string 10 year

unfoldable pub build_invoice_number : Text → ℕ → Result Text
build_invoice_number series_code sequence =
    if sequence == 0
    then err ErrorCode.internal
    else ok (series_code ++ codes "/" ++ pad_start 6 (to_string 10 sequence))

pub record InvoiceSignatureInput : Type 0 where
  pub issuer_tax_id : Text
  pub customer_tax_id : Text
  pub document_type : InvoiceDocumentType
  pub series_code : Text
  pub sequence : ℕ
  pub issued_at : Text
  pub subtotal_cents : ℕ
  pub vat_cents : ℕ
  pub total_cents : ℕ
  pub currency : Text
  pub previous_hash : Text

-- `parts.join(separator)`
abbrev pub join_with : ℕ → List Text → Text
join_with separator [] = []
join_with separator (s ∷ []) = s
join_with separator (s ∷ t ∷ parts) = s ++ separator ∷ join_with separator (t ∷ parts)

unfoldable pub build_invoice_canonical : InvoiceSignatureInput → Text
build_invoice_canonical input = join_with 59 (
    input.issuer_tax_id
    ∷ input.customer_tax_id
    ∷ type_name input.document_type
    ∷ input.series_code
    ∷ to_string 10 input.sequence
    ∷ input.issued_at
    ∷ to_string 10 input.subtotal_cents
    ∷ to_string 10 input.vat_cents
    ∷ to_string 10 input.total_cents
    ∷ input.currency
    ∷ input.previous_hash
    ∷ [])

unfoldable pub previous_hash_of : Text → Text
previous_hash_of hash = take 4 (select (λ c. not (is_space c)) hash)

unfoldable pub invoice_qr_payload : InvoiceSignatureInput → Text → Text → Text
invoice_qr_payload input invoice_number hash = join_with 124 (
    input.issuer_tax_id
    ∷ input.customer_tax_id
    ∷ type_name input.document_type
    ∷ invoice_number
    ∷ input.issued_at
    ∷ to_string 10 input.total_cents
    ∷ input.currency
    ∷ hash
    ∷ [])
