-- ===== src/Invoices/Series.antt =====
-- src/server/billing/invoice-series.service.ts: the next number of a series, and the hash of the
-- document before it.
use filazero_local.Base.{
  ℕ, ◌+◌, ◌-◌, ◌/◌, Bool, false, ◌&&◌, Option, none, some, [], leb, if◌then◌else◌, Text, find,
  is_some_of,
}
use filazero_local.Errors.{Result, ok, ◌>>=◌}
use filazero_local.Billing.Dates.{civil, ms_per_day}
use filazero_local.Invoices.Rules.{InvoiceDocumentType, format_series_code, build_invoice_number}
use filazero_local.Invoices.Tables.{SeriesKey, InvoiceSeries, Transaction, BillingDb, same_series}

pub record InvoiceAllocation : Type 0 where
  pub series_id : SeriesKey
  pub series_code : Text
  pub sequence : ℕ
  pub invoice_number : Text

-- `date.getUTCFullYear()`
abbrev pub utc_full_year : ℕ → ℕ
utc_full_year date = 1970 + (civil (date / ms_per_day)).0

-- The row that the upsert leaves: the first number, or the next one.
abbrev pub next_row : SeriesKey → Option InvoiceSeries → InvoiceSeries
next_row key none = record { code = format_series_code key.document_type key.year; next_number = 1 }
next_row key (some row) = record row { next_number = row.next_number + 1 }

abbrev pub write_series :
    SeriesKey
    → InvoiceSeries
    → (SeriesKey → Option InvoiceSeries)
    → SeriesKey
    → Option InvoiceSeries
write_series key row series k = if same_series key k then some row else series k

abbrev pub series_key : ℕ → InvoiceDocumentType → ℕ → SeriesKey
series_key organization_id document_type date = record {
  organization_id = organization_id;
  document_type = document_type;
  year = utc_full_year date;
}

unfoldable pub allocate_invoice_number :
    ℕ → InvoiceDocumentType → ℕ → BillingDb → Result (InvoiceAllocation × BillingDb)
allocate_invoice_number organization_id document_type date db = do
  let key = series_key organization_id document_type date
  let row = next_row key (db.series key)
  number ← build_invoice_number row.code row.next_number
  ok (
    record {
      series_id = key;
      series_code = row.code;
      sequence = row.next_number;
      invoice_number = number;
    },
    record db { series = write_series key row db.series },
  )

abbrev pub is_series : SeriesKey → Option SeriesKey → Bool
is_series key none = false
is_series key (some k) = same_series key k

-- Whether a transaction has the document `sequence` of a series.
abbrev pub has_document : SeriesKey → ℕ → Transaction → Bool
has_document key sequence t = is_series key t.series_id && is_some_of sequence t.sequence

abbrev pub hash_of : Option Transaction → Text
hash_of none = []
hash_of (some t) = elim t.invoice_hash [ none ↦ [] | some hash ↦ hash ]

unfoldable pub previous_invoice_hash : SeriesKey → ℕ → BillingDb → Text
previous_invoice_hash key sequence db =
    if leb sequence 1 then [] else hash_of (find (has_document key (sequence - 1)) db.transactions)
