-- ===== src/Billing/DateLaws.antt =====
-- How far `addInterval` moves a time.
use filazero_local.Base.{
  ℕ, zero, suc, ◌+◌, ◌-◌, ◌*◌, ◌/◌, ◌%◌, ◌≤◌, ◌<◌, ◌≡◌, refl, ap, Bool, true, false, List, [], ◌∷◌,
  arith, ltb, inl, inr, length, Bool-cases,
}
use filazero_local.Billing.Dates.{
  BillingInterval, ms_per_day, is_leap, year_length, month_lengths, days_before, locate_month,
  days_to_year, locate_year, make_day, civil, add_interval,
}

-- A list of months as long as a year places every day of the year in one of its months.
locate_month-days_before :
    (lens : List ℕ) (day : ℕ)
    → days_before lens (locate_month lens day).0 + (locate_month lens day).1 ≡ day
unfolding locate_month
locate_month-days_before [] day = omega arith
locate_month-days_before (len ∷ lens) day =
    ground (arith, locate_month-days_before lens (day - len))

abbrev total : List ℕ → ℕ
total [] = 0
total (len ∷ lens) = len + total lens

locate_month-lt :
    (lens : List ℕ) (day : ℕ) → day < total lens → (locate_month lens day).0 < length lens
unfolding locate_month
locate_month-lt [] day h = absurd (omega arith)
locate_month-lt (len ∷ lens) day h = ground (arith, locate_month-lt lens (day - len))

-- Months of 28 to 31 days.
abbrev Usual : List ℕ → Type 0
Usual [] = Unit {0}
Usual (len ∷ lens) = (28 ≤ len) × (len ≤ 31) × Usual lens

days_before-zero : (lens : List ℕ) → days_before lens zero ≡ 0
days_before-zero [] = refl
days_before-zero (len ∷ lens) = refl

-- The next month begins 28 to 31 days later.
days_before-suc :
    (lens : List ℕ) (m : ℕ)
    → Usual lens
    → m < length lens
    → (days_before lens m + 28 ≤ days_before lens (suc m))
      × (days_before lens (suc m) ≤ days_before lens m + 31)
days_before-suc [] m u h = absurd (omega arith)
days_before-suc (len ∷ lens) zero (low, high, u) h = omega (arith, days_before-zero lens)
days_before-suc (len ∷ lens) (suc m) (low, high, u) h =
    let (after, before) = days_before-suc lens m u (omega arith) in (omega arith, omega arith)

month_lengths-Usual : (leap : Bool) → Usual (month_lengths leap)
month_lengths-Usual true = ground arith
month_lengths-Usual false = ground arith

total-month_lengths : (leap : Bool) → total (month_lengths leap) ≡ year_length leap
total-month_lengths true = refl
total-month_lengths false = refl

-- A leap day moves the later months by one.
days_before-leap :
    (leap : Bool) (m : ℕ)
    → (days_before (month_lengths false) m ≤ days_before (month_lengths leap) m)
      × (days_before (month_lengths leap) m ≤ days_before (month_lengths false) m + 1)
days_before-leap leap zero = (omega arith, omega arith)
days_before-leap leap (suc zero) = (omega arith, omega arith)
days_before-leap true (suc (suc m)) = (omega arith, omega arith)
days_before-leap false (suc (suc m)) = (omega arith, omega arith)

-- With fuel for the years that the days fill the day is found in its year.
locate_year-days_to_year :
    (fuel n day : ℕ)
    → day < fuel * 365
    → (days_to_year (locate_year fuel n day).0 + (locate_year fuel n day).1 ≡ days_to_year n + day)
      × ((locate_year fuel n day).1 < year_length (is_leap (locate_year fuel n day).0))
unfolding locate_year days_to_year
locate_year-days_to_year zero n day h = absurd (omega arith)
locate_year-days_to_year (suc fuel) n day h =
    ground (arith, locate_year-days_to_year fuel (suc n) (day - year_length (is_leap n)))

-- A date of the calendar, from what is left of the days.
civil_days :
    (days : ℕ)
    → (days_to_year (civil days).0
          + days_before (month_lengths (is_leap (civil days).0)) (civil days).1
          + (civil days).2
        ≡ days)
      × ((civil days).1 < 12)
unfolding civil days_to_year
civil_days days =
    let fuel = days / 365 + 1 in
    let (found, inside) = locate_year-days_to_year fuel 0 days (omega arith) in
    let n = (locate_year fuel 0 days).0 in
    let r = (locate_year fuel 0 days).1 in
    let lens = month_lengths (is_leap n) in
    let split = locate_month-days_before lens r in
    (
      omega (arith, found, split),
      locate_month-lt lens r (omega (arith, total-month_lengths (is_leap n), inside)),
    )

-- Inside a year no month carries over.
make_day-within :
    (n m d : ℕ)
    → m < 12
    → make_day n m d ≡ days_to_year n + days_before (month_lengths (is_leap n)) m + d
unfolding make_day
make_day-within n m d h =
    let year : n + m / 12 ≡ n = omega arith in
    let month : m % 12 ≡ m = omega arith in rw (year, month) refl

-- The month after December is January.
make_day-carry : (n d : ℕ) → make_day n 12 d ≡ days_to_year n + year_length (is_leap n) + d
unfolding make_day days_to_year
make_day-carry n d = let year : n + 1 ≡ suc n = omega arith in rw year (omega arith)

make_day-next_month :
    (n m d : ℕ)
    → m < 12
    → (days_to_year n + days_before (month_lengths (is_leap n)) m + d + 28 ≤ make_day n (m + 1) d)
      × (make_day n (m + 1) d ≤ days_to_year n + days_before (month_lengths (is_leap n)) m + d + 31)
make_day-next_month n m d h = elim (Bool-cases (ltb m 11)) [
  | inl y ↦
      let lens = month_lengths (is_leap n) in
      let next : m + 1 ≡ suc m = omega arith in
      let len = days_before-suc lens m (month_lengths-Usual (is_leap n)) (ground arith) in
      let day = make_day-within n (m + 1) d (ground arith) in
      omega (arith, len, day, ap (days_before lens) next)
  | inr last ↦
      let december : m ≡ 11 = ground arith in
      let lens = month_lengths (is_leap n) in
      let len = days_before-suc lens 11 (month_lengths-Usual (is_leap n)) (omega arith) in
      let all : days_before lens 12 ≡ year_length (is_leap n) = total-month_lengths (is_leap n) in
      rw december (omega (arith, len, all, make_day-carry n d))
]

make_day-next_year :
    (n m d : ℕ)
    → m < 12
    → (days_to_year n + days_before (month_lengths (is_leap n)) m + d + 365 ≤ make_day (n + 1) m d)
      × (make_day (n + 1) m d
          ≤ days_to_year n + days_before (month_lengths (is_leap n)) m + d + 366)
unfolding days_to_year
make_day-next_year n m d h =
    let next : n + 1 ≡ suc n = omega arith in
    rw next (
      ground (
        arith,
        make_day-within (suc n) m d h,
        days_before-leap (is_leap n) m,
        days_before-leap (is_leap (suc n)) m,
      ))

-- A month takes 28 to 31 days and a year 365 or 366, whatever the date and with the carry of
-- February 29 and of the 29th to the 31st of a month; the time of the day stays.
pub add_interval_bounds :
    (date : ℕ)
    → (date + 28 * ms_per_day ≤ add_interval date BillingInterval.monthly)
      × (add_interval date BillingInterval.monthly ≤ date + 31 * ms_per_day)
      × (date + 365 * ms_per_day ≤ add_interval date BillingInterval.yearly)
      × (add_interval date BillingInterval.yearly ≤ date + 366 * ms_per_day)
      × (add_interval date BillingInterval.monthly % ms_per_day ≡ date % ms_per_day)
      × (add_interval date BillingInterval.yearly % ms_per_day ≡ date % ms_per_day)
unfolding add_interval
add_interval_bounds date =
    let days = date / ms_per_day in
    let (same, m) = civil_days days in
    let month = make_day-next_month (civil days).0 (civil days).1 (civil days).2 m in
    let year = make_day-next_year (civil days).0 (civil days).1 (civil days).2 m in
    (
      omega (arith, same, month),
      omega (arith, same, month),
      omega (arith, same, year),
      omega (arith, same, year),
      omega arith,
      omega arith,
    )
