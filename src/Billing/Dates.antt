-- ===== src/Billing/Dates.antt =====
-- `addInterval` of src/server/billing/billing.rules.ts, with the calendar of `Date` for times from
-- 1970 on. A time is in milliseconds; years count from 1970, months and days of a month from 0.
use filazero_local.Base.{
  ℕ, zero, suc, ◌+◌, ◌-◌, ◌*◌, ◌/◌, ◌%◌, Bool, not, ◌&&◌, ◌||◌, List, [], ◌∷◌, ltb, ◌==◌,
  if◌then◌else◌,
}

pub data BillingInterval : Type 0 where
  monthly yearly : BillingInterval

abbrev pub ms_per_day : ℕ
ms_per_day = 86400000

unfoldable pub is_leap : ℕ → Bool
is_leap n = ((1970 + n) % 4 == 0 && not ((1970 + n) % 100 == 0)) || (1970 + n) % 400 == 0

abbrev pub year_length : Bool → ℕ
year_length leap = if leap then 366 else 365

abbrev pub month_lengths : Bool → List ℕ
month_lengths leap =
    31 ∷ (if leap then 29 else 28) ∷ 31 ∷ 30 ∷ 31 ∷ 30 ∷ 31 ∷ 31 ∷ 30 ∷ 31 ∷ 30 ∷ 31 ∷ []

-- The days of the first `m` months of a list.
abbrev pub days_before : List ℕ → ℕ → ℕ
days_before [] m = 0
days_before (len ∷ lens) zero = 0
days_before (len ∷ lens) (suc m) = len + days_before lens m

-- The month and the day of the month of a day.
unfoldable pub locate_month : List ℕ → ℕ → ℕ × ℕ
locate_month [] day = (0, day)
locate_month (len ∷ lens) day =
    let rest = locate_month lens (day - len) in
    if ltb day len then (0, day) else (rest.0 + 1, rest.1)

-- The days from 1970 to the first day of a year.
unfoldable pub days_to_year : ℕ → ℕ
days_to_year zero = 0
days_to_year (suc n) = days_to_year n + year_length (is_leap n)

-- The year and the day of the year, from the year `n` on and with `fuel` years to try.
unfoldable pub locate_year : ℕ → ℕ → ℕ → ℕ × ℕ
locate_year zero n day = (n, day)
locate_year (suc fuel) n day =
    let rest = locate_year fuel (suc n) (day - year_length (is_leap n)) in
    if ltb day (year_length (is_leap n)) then (n, day) else rest

-- `MakeDay` of ECMAScript: a month past December belongs to a later year, and a day past the end of
-- its month to a later month.
unfoldable pub make_day : ℕ → ℕ → ℕ → ℕ
make_day n m day =
    days_to_year (n + m / 12) + days_before (month_lengths (is_leap (n + m / 12))) (m % 12) + day

-- The year, month and day of the month of a number of days. Each year tried takes off 365 days.
unfoldable pub civil : ℕ → ℕ × ℕ × ℕ
civil days = (n, month.0, month.1)
  where
    n : ℕ
    n = (locate_year (days / 365 + 1) 0 days).0

    month : ℕ × ℕ
    month = locate_month (month_lengths (is_leap n)) (locate_year (days / 365 + 1) 0 days).1

unfoldable pub add_interval : ℕ → BillingInterval → ℕ
add_interval date BillingInterval.monthly =
    let (n, m, d) = civil (date / ms_per_day) in
    make_day n (m + 1) d * ms_per_day + date % ms_per_day
add_interval date BillingInterval.yearly =
    let (n, m, d) = civil (date / ms_per_day) in
    make_day (n + 1) m d * ms_per_day + date % ms_per_day
