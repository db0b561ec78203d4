-- ===== src/Invoices/Documents.antt =====
-- The number that is printed on an invoice.
use filazero_local.Base.{
  ℕ, ◌<◌, ◌≤◌, ◌≡◌, refl, true, ◌⊎◌, inl, inr, arith, ltb, leb, Bool-cases, length, ◌++◌, Text,
}
use filazero_local.Errors.{ok, err, ErrorCode}
use filazero_local.Qr.Encoding.{codes, to_string, pad_start}
use filazero_local.Qr.Iban.{all_digits}
use filazero_local.Qr.Decimal.{
  value, value-pad_start, all_digits-pad_start, length-pad_start, to_string-short,
}
use filazero_local.Invoices.Rules.{build_invoice_number}

-- The code of the series, a stroke, and the decimal digits of the place: six, or more if the place
-- has more.
abbrev pub IsInvoiceNumber : Text → ℕ → Text → Type 0
IsInvoiceNumber series_code n number =
    (digits : Text) × (number ≡ series_code ++ codes "/" ++ digits)
    × (all_digits digits ≡ true)
    × (value 0 digits ≡ n)
    × (6 ≤ length digits)
    × ((length digits ≡ 6) ⊎ (1000000 ≤ n))

six_or_more : (n : ℕ) → (length (pad_start 6 (to_string 10 n)) ≡ 6) ⊎ (1000000 ≤ n)
six_or_more n = elim (Bool-cases (leb 1000000 n)) [
  | inl large ↦ inr (ground (arith, large))
  | inr small ↦
      let short : length (to_string 10 n) ≤ 6 = to_string-short 5 n (ground (arith, small)) in
      inl (omega (arith, length-pad_start 6 (to_string 10 n), short))
]

build_invoice_number-IsInvoiceNumber :
    (series_code : Text) (n : ℕ)
    → 0 < n
    → (build_invoice_number series_code n
        ≡ ok (series_code ++ codes "/" ++ pad_start 6 (to_string 10 n)))
      × IsInvoiceNumber series_code n (series_code ++ codes "/" ++ pad_start 6 (to_string 10 n))
unfolding build_invoice_number
build_invoice_number-IsInvoiceNumber series_code n h =
    let long : 6 ≤ length (pad_start 6 (to_string 10 n)) =
      omega (arith, length-pad_start 6 (to_string 10 n)) in
    (
      ground (arith, h),
      (
        pad_start 6 (to_string 10 n),
        refl,
        all_digits-pad_start 6 n,
        value-pad_start 6 n,
        long,
        six_or_more n,
      ),
    )

-- A document has a number exactly if its place in the series is not zero, and the number is the code
-- of the series, a stroke, and decimal digits that are read as the place: six of them below a
-- million, and never fewer.
pub build_invoice_number_form :
    (series_code : Text) (n : ℕ)
    → ((n ≡ 0) × (build_invoice_number series_code n ≡ err ErrorCode.internal))
      ⊎ ((0 < n)
          × (number : Text) × (build_invoice_number series_code n ≡ ok number)
          × IsInvoiceNumber series_code n number)
unfolding build_invoice_number
build_invoice_number_form series_code n = elim (Bool-cases (ltb 0 n)) [
  | inl positive ↦
      let h : 0 < n = ground (arith, positive) in
      let (shown, form) = build_invoice_number-IsInvoiceNumber series_code n h in
      inr (h, series_code ++ codes "/" ++ pad_start 6 (to_string 10 n), shown, form)
  | inr zero_place ↦ inl (ground (arith, zero_place), ground (arith, zero_place))
]
