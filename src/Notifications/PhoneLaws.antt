-- ===== src/Notifications/PhoneLaws.antt =====
-- What `normalizePhone` of src/server/notifications/notification-messages.ts returns.
use filazero_local.Base.{
  ℕ, ◌≤◌, ◌≡◌, refl, Bool, true, false, not, some, [], ◌∷◌, arith, ◌==◌, length, select, Text, trim,
  starts_with, is_digit, drop_while, count_if,
}
use filazero_local.Notifications.Phone.{
  default_country_code, drop_international, drop_zeros, add_country_code, plausible, bare_digits,
  finish_phone, normalize_phone,
}

abbrev no_digit : ℕ → Bool
no_digit c = not (is_digit c)

-- A text of digits.
abbrev pub IsNumber : Text → Type 0
IsNumber s = count_if no_digit s ≡ 0

select-IsNumber : (s : Text) → IsNumber (select is_digit s)
select-IsNumber [] = refl
select-IsNumber (c ∷ s) = ground (arith, select-IsNumber s)

drop_while-IsNumber : (p : ℕ → Bool) (s : Text) → IsNumber s → IsNumber (drop_while p s)
drop_while-IsNumber p [] h = refl
drop_while-IsNumber p (c ∷ s) h = ground (arith, drop_while-IsNumber p s)

drop_international-IsNumber : (s : Text) → IsNumber s → IsNumber (drop_international s)
drop_international-IsNumber [] h = ground arith
drop_international-IsNumber (c ∷ []) h = ground arith
drop_international-IsNumber (c ∷ d ∷ s) h = ground arith

add_country_code-IsNumber :
    (s : Text) → IsNumber s → IsNumber (add_country_code default_country_code s)
add_country_code-IsNumber s h = ground arith

plausible-eq :
    (s p : Text)
    → IsNumber s
    → plausible s ≡ some p
    → (digits : Text) × (p ≡ 43 ∷ digits)
      × IsNumber digits
      × (9 ≤ length digits)
      × (length digits ≤ 15)
plausible-eq s p n h = (s, ground arith, n, ground arith, ground arith)

finish_phone_form :
    (plus : Bool) (s p : Text)
    → IsNumber s
    → finish_phone plus s ≡ some p
    → (digits : Text) × (p ≡ 43 ∷ digits)
      × IsNumber digits
      × (9 ≤ length digits)
      × (length digits ≤ 15)
finish_phone_form true s p n h = plausible-eq s p n h
finish_phone_form false s p n h =
    plausible-eq (add_country_code default_country_code (drop_zeros s)) p
      (add_country_code-IsNumber (drop_zeros s) (drop_while-IsNumber (λ c. c == 48) s n)) h

-- A number that is accepted is in the form of E.164: a plus sign and 9 to 15 digits.
pub normalize_phone_form :
    (raw p : Text)
    → normalize_phone raw ≡ some p
    → (digits : Text) × (p ≡ 43 ∷ digits)
      × IsNumber digits
      × (9 ≤ length digits)
      × (length digits ≤ 15)
unfolding normalize_phone
normalize_phone_form raw p h =
    finish_phone_form (starts_with (43 ∷ []) (trim raw)) (bare_digits raw) p
      (drop_international-IsNumber (select is_digit raw) (select-IsNumber raw)) (ground arith)
