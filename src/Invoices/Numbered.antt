-- ===== src/Invoices/Numbered.antt =====
-- The numbers of a series: those that have been given out are those of the invoices.
use filazero_local.Base.{
  ℕ, ◌+◌, ◌≡◌, refl, true, false, Bool, ◌&&◌, Option, none, some, ◌==◌, bit, arith, leb, count_if,
  is_some, ap, ◌∙◌, sym, if◌then◌else◌, subst, Bool-cases, inl, inr,
}
use filazero_local.Customer.Payments.{is_open_payment}
use filazero_local.Invoices.Tables.{
  Transaction, SeriesKey, InvoiceSeries, BillingDb, same_series, same_type,
}
use filazero_local.Invoices.Rules.{InvoiceDocumentType}
use filazero_local.Invoices.Series.{has_document, next_row, write_series}
use filazero_local.Invoices.Rows.{HasKeys}

-- The last number given out in a series.
abbrev pub last_number : SeriesKey → (SeriesKey → Option InvoiceSeries) → ℕ
last_number key series = elim (series key) [ none ↦ 0 | some row ↦ row.next_number ]

abbrev pub given_out : SeriesKey → ℕ → (SeriesKey → Option InvoiceSeries) → Bool
given_out key k series = leb 1 k && leb k (last_number key series)

-- An open transaction that has a document already.
abbrev pub is_early : Transaction → Bool
is_early t = is_open_payment t.status && is_some t.series_id

-- One document under each number that has been given out and none under the others, in every
-- series; ids are a primary key; and no open transaction has a document.
abbrev pub WellNumbered : BillingDb → Type 0
WellNumbered db =
    ((key : SeriesKey) (k : ℕ)
      → count_if (has_document key k) db.transactions ≡ bit (given_out key k db.series))
    × HasKeys db.transactions
    × (count_if is_early db.transactions ≡ 0)

pub same_type-eq : (a b : InvoiceDocumentType) → same_type a b ≡ true → a ≡ b
same_type-eq InvoiceDocumentType.ft InvoiceDocumentType.ft h = refl
same_type-eq InvoiceDocumentType.ft InvoiceDocumentType.fr h = cc
same_type-eq InvoiceDocumentType.fr InvoiceDocumentType.ft h = cc
same_type-eq InvoiceDocumentType.fr InvoiceDocumentType.fr h = refl

pub same_type_refl : (a : InvoiceDocumentType) → same_type a a ≡ true
same_type_refl InvoiceDocumentType.ft = refl
same_type_refl InvoiceDocumentType.fr = refl

pub same_series-eq : (a b : SeriesKey) → same_series a b ≡ true → a ≡ b
same_series-eq a b h =
    let organization : a.organization_id ≡ b.organization_id = ground (arith, h) in
    let year : a.year ≡ b.year = ground (arith, h) in
    let kind : a.document_type ≡ b.document_type = same_type-eq _ _ (ground (arith, h)) in
    cc (organization, year, kind)

pub same_series_refl : (a : SeriesKey) → same_series a a ≡ true
same_series_refl a = ground (arith, same_type_refl a.document_type)

pub next_row-number :
    (key : SeriesKey) (o : Option InvoiceSeries)
    → (next_row key o).next_number ≡ (elim o [ none ↦ 0 | some row ↦ row.next_number ]) + 1
next_row-number key none = refl
next_row-number key (some row) = refl

abbrev pub after : SeriesKey → (SeriesKey → Option InvoiceSeries) → SeriesKey → Option InvoiceSeries
after key series = write_series key (next_row key (series key)) series

-- One more number given out in a series.
OneMore : SeriesKey → (SeriesKey → Option InvoiceSeries) → ℕ → SeriesKey → Type 0
OneMore key series k other =
    bit (given_out other k (after key series))
    ≡ bit (given_out other k series)
      + bit (same_series other key && k == last_number key series + 1)

pub last_number-after :
    (key other : SeriesKey) (series : SeriesKey → Option InvoiceSeries) (b : Bool)
    → same_series key other ≡ b
    → last_number other (after key series)
      ≡ (if b then (next_row key (series key)).next_number else last_number other series)
last_number-after key other series true h =
    ap (λ b. last_number other (λ k. if b then some (next_row key (series key)) else series k)) h
last_number-after key other series false h =
    ap (λ b. last_number other (λ k. if b then some (next_row key (series key)) else series k)) h

next_bit :
    (k n m : ℕ) → m ≡ n + 1 → bit (leb 1 k && leb k m) ≡ bit (leb 1 k && leb k n) + bit (k == n + 1)
next_bit k n m h = ground arith

same_bit :
    (k n m : ℕ) (b c : Bool)
    → m ≡ n
    → b ≡ false
    → bit (leb 1 k && leb k m) ≡ bit (leb 1 k && leb k n) + bit (b && c)
same_bit k n m b c h e = ground arith

given_out-own :
    (key : SeriesKey) (k : ℕ) (series : SeriesKey → Option InvoiceSeries) → OneMore key series k key
unfolding OneMore
given_out-own key k series =
    let last : last_number key (after key series) ≡ last_number key series + 1 =
      last_number-after key key series true (same_series_refl key)
      ∙ next_row-number key (series key) in
    next_bit k (last_number key series) (last_number key (after key series)) last
    ∙ ap (λ b. bit (given_out key k series) + bit (b && k == last_number key series + 1))
        (sym (same_series_refl key))

pub given_out-after :
    (key other : SeriesKey) (k : ℕ) (series : SeriesKey → Option InvoiceSeries)
    → bit (given_out other k (after key series))
      ≡ bit (given_out other k series)
        + bit (same_series other key && k == last_number key series + 1)
unfolding OneMore
given_out-after key other k series = elim (Bool-cases (same_series other key)) [
  | inl same ↦
      subst (OneMore key series k) (sym (same_series-eq other key same))
        (given_out-own key k series)
  | inr apart ↦ elim (Bool-cases (same_series key other)) [
    | inl same ↦
        subst (OneMore key series k) (same_series-eq key other same) (given_out-own key k series)
    | inr still ↦
        same_bit k (last_number other series) (last_number other (after key series))
          (same_series other key) (k == last_number key series + 1)
          (last_number-after key other series false still) apart
  ]
]
