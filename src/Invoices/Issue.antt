-- ===== src/Invoices/Issue.antt =====
-- When the document of a payment can be issued.
use filazero_local.Base.{
  ℕ, ◌+◌, ◌<◌, ◌≡◌, refl, true, Bool, not, ◌&&◌, ◌==◌, arith, ap, ◌∙◌, count_if, count_if-le,
  count_if-append, ◌≤◌, Text, ◌++◌, length, [], ◌∷◌, is_some_of,
}
use filazero_local.Errors.{require, ok, ErrorCode, ◌>>=◌, Result}
use filazero_local.Customer.Payments.{PaymentEvent}
use filazero_local.Invoices.Rules.{
  InvoiceDocumentType, build_invoice_number, build_invoice_canonical,
}
use filazero_local.Qr.Decimal.{length-pad_start, to_string-short}
use filazero_local.Invoices.Signing.{InvoiceSignature, sign_invoice}
use filazero_local.Qr.Encoding.{is_low, codes, to_string, pad_start}
use filazero_local.Invoices.Tables.{SeriesKey, Transaction, BillingDb}
use filazero_local.Invoices.Series.{
  InvoiceAllocation, allocate_invoice_number, has_document, next_row,
}
use filazero_local.Invoices.Payment.{
  BillingEnv, document_fits, characters, column_holds, or_default, or_null, with_invoice,
}
use filazero_local.Invoices.Rows.{written}
use filazero_local.Invoices.Numbered.{WellNumbered, last_number, after, next_row-number}
use filazero_local.Invoices.Effects.{fr_key}
use filazero_local.Invoices.Webhook.{
  shares_event, write_event, write_invoice, issue_invoice, invoice_input, customer_tax_id_of,
}

abbrev pub has_event : PaymentEvent → Transaction → Bool
has_event event t = is_some_of event.event_id t.provider_event_id

-- What follows a step that succeeds.
pub then_ok :
    {A B : Type 0} (x : Result A) (f : A → Result B) (a : A) (y : Result B)
    → x ≡ ok a
    → f a ≡ y
    → (x >>= f) ≡ y
then_ok x f a y is_a is_y = ap (λ x. x >>= f) is_a ∙ is_y

pub write_event-ok :
    (event : PaymentEvent) (row : Transaction) (db : BillingDb)
    → count_if (has_event event) db.transactions ≡ 0
    → write_event event row db ≡ ok (record db { transactions = written row db.transactions })
unfolding write_event
write_event-ok event row db fresh =
    let others : count_if (shares_event row event) db.transactions ≡ 0 = omega (
      arith,
      fresh,
      count_if-le (shares_event row event) (has_event event) (λ t h. ground (arith, h))
          db.transactions,
    ) in
    ground (arith, others)

write_invoice-ok :
    (a : InvoiceAllocation) (row : Transaction) (db : BillingDb)
    → document_fits row ≡ true
    → count_if (has_document a.series_id a.sequence) db.transactions ≡ 0
    → write_invoice a row db ≡ ok (record db { transactions = written row db.transactions })
unfolding write_invoice
write_invoice-ok a row db fits fresh =
    let test = λ (t : Transaction). not (row.id == t.id) && has_document a.series_id a.sequence t in
    let others : count_if test db.transactions ≡ 0 = omega (
      arith,
      fresh,
      count_if-le test (has_document a.series_id a.sequence) (λ t h. ground (arith, h))
          db.transactions,
    ) in
    then_ok _ _ tt _ (ap (λ b. require b ErrorCode.internal) fits) (ground (arith, others))

characters-le : (s : Text) → characters s ≤ length s
characters-le [] = omega arith
characters-le (c ∷ s) = ground (arith, characters-le s)

characters-number :
    (code : Text) (n : ℕ)
    → characters code ≤ 20
    → n ≤ 2147483647
    → characters (code ++ codes "/" ++ pad_start 6 (to_string 10 n)) ≤ 40
characters-number code n short small =
    let digits = pad_start 6 (to_string 10 n) in
    omega (
      arith,
      short,
      count_if-append (λ c. not (is_low c)) (code ++ codes "/") digits,
      count_if-append (λ c. not (is_low c)) code (codes "/"),
      characters-le digits,
      length-pad_start 6 (to_string 10 n),
      to_string-short 9 n (omega (arith, small)),
    )

build-ok :
    (code : Text) (n : ℕ)
    → 0 < n
    → build_invoice_number code n ≡ ok (code ++ codes "/" ++ pad_start 6 (to_string 10 n))
unfolding build_invoice_number
build-ok code n h = ground (arith, h)

-- The number that an organization's next document gets.
abbrev IsNext : SeriesKey → BillingDb → InvoiceAllocation → Type 0
IsNext key db a =
    (a.series_id ≡ key)
    × (a.sequence ≡ last_number key db.series + 1)
    × (a.series_code ≡ (next_row key (db.series key)).code)
    × (a.invoice_number ≡ a.series_code ++ codes "/" ++ pad_start 6 (to_string 10 a.sequence))

allocate-ok :
    (organization_id date : ℕ) (db : BillingDb)
    → (a : InvoiceAllocation) × (allocate_invoice_number organization_id InvoiceDocumentType.fr date
          db
        ≡ ok (a, record db { series = after (fr_key organization_id date) db.series }))
      × IsNext (fr_key organization_id date) db a
unfolding allocate_invoice_number
allocate-ok organization_id date db =
    let key = fr_key organization_id date in
    let row = next_row key (db.series key) in
    let next = next_row-number key (db.series key) in
    let number = row.code ++ codes "/" ++ pad_start 6 (to_string 10 row.next_number) in
    (
      record {
        series_id = key;
        series_code = row.code;
        sequence = row.next_number;
        invoice_number = number;
      },
      then_ok _ _ _ _ (build-ok row.code row.next_number (omega (arith, next))) refl,
      (refl, next, refl, refl),
    )

-- What the next document of a transaction `t` needs: every text can be signed, with a hash of 200
-- characters at most, the tax numbers and the code of the series have 20 at most, and the series has
-- given out fewer numbers than an INTEGER counts.
abbrev pub CanIssue : BillingEnv → Transaction → ℕ → BillingDb → Type 0
CanIssue env t date db =
    ((canonical : Text)
      → (s : InvoiceSignature) × (sign_invoice env.signing canonical ≡ ok s)
        × (characters s.hash ≤ 200))
    × (characters (customer_tax_id_of t (db.tax_ids t.organization_id)) ≤ 20)
    × (characters (or_default env.platform_tax_id []) ≤ 20)
    × (characters (next_row key (db.series key)).code ≤ 20)
    × (last_number key db.series < 2147483647)
  where
    key : SeriesKey
    key = fr_key t.organization_id date

or_null-holds :
    (width : ℕ) (s : Text) → characters s ≤ width → column_holds width (or_null s) ≡ true
or_null-holds width [] h = refl
or_null-holds width (c ∷ s) h = ground (arith, h)

with_invoice-fits :
    (env : BillingEnv) (t : Transaction) (date : ℕ) (db numbered : BillingDb)
    (a : InvoiceAllocation) (signature : InvoiceSignature)
    → CanIssue env t date db
    → IsNext (fr_key t.organization_id date) db a
    → numbered.tax_ids ≡ db.tax_ids
    → characters signature.hash ≤ 200
    → document_fits (with_invoice env t a date (invoice_input env t date a numbered) signature)
      ≡ true
unfolding with_invoice
with_invoice-fits env t date db numbered a signature can next same short =
    let (_, customer, issuer, code, room) = can in
    let (_, place, series, number) = next in
    let small : a.sequence ≤ 2147483647 = omega (arith, place, room) in
    let code_short : characters a.series_code ≤ 20 = omega (arith, ap characters series, code) in
    let number_short : characters a.invoice_number ≤ 40 =
      omega (
        arith,
        ap characters number,
        characters-number a.series_code a.sequence code_short small,
      ) in
    let customer_fits =
      ap (λ f. column_holds 20 (or_null (customer_tax_id_of t (f t.organization_id)))) same
      ∙ or_null-holds 20 _ customer in
    let issuer_fits = or_null-holds 20 _ issuer in
    ground (arith, number_short, code_short, small, customer_fits, issuer_fits, short)

pub issue_invoice-ok :
    (env : BillingEnv) (t : Transaction) (date : ℕ) (db : BillingDb)
    → WellNumbered db
    → CanIssue env t date db
    → (r : Transaction × BillingDb) × (issue_invoice env t date db ≡ ok r)
      × (r.1.subscriptions ≡ db.subscriptions)
unfolding issue_invoice
issue_invoice-ok env t date db well can =
    let key = fr_key t.organization_id date in
    let n = last_number key db.series + 1 in
    let numbered = record db { series = after key db.series } in
    let (a, given, next) = allocate-ok t.organization_id date db in
    let input = invoice_input env t date a numbered in
    let (signature, signed, short) = can.0 (build_invoice_canonical input) in
    let row = with_invoice env t a date input signature in
    let last = well.0 key n in
    let none_yet : count_if (has_document key n) db.transactions ≡ 0 = ground (arith, last) in
    let free : count_if (has_document a.series_id a.sequence) db.transactions ≡ 0 =
      ap (λ k. count_if (has_document k a.sequence) db.transactions) next.0
      ∙ ap (λ n. count_if (has_document key n) db.transactions) next.1
      ∙ none_yet in
    let fits = with_invoice-fits env t date db numbered a signature can next refl short in
    let wrote = write_invoice-ok a row numbered fits free in
    (
      (row, record numbered { transactions = written row db.transactions }),
      then_ok _ _ _ _ given (then_ok _ _ _ _ signed (then_ok _ _ _ _ wrote refl)),
      refl,
    )
