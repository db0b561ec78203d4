-- ===== src/Qr/IbanLaws.antt =====
-- The check digits of an Angolan account number: those that are derived are right, and no other
-- digit fits in the place of one.
use mathlib.Core.List.{append_assoc}
use filazero_local.Base.{
  ℕ, ◌+◌, ◌-◌, ◌/◌, ◌%◌, ◌<◌, ◌≡◌, refl, true, Bool, [], ◌∷◌, ◌++◌, arith, Text, ◌&&◌,
  if◌then◌else◌, ap, sym, ◌∙◌, leb, ◌==◌,
}
use filazero_local.Qr.Encoding.{codes, to_string, pad_start}
use filazero_local.Qr.Numbers.{pad_start-two, each_below, each_below-holds}
use filazero_local.Qr.Iban.{
  all_digits, is_bban, is_iban_shape, letters_as_numbers, remainder_of, fold_digit, check_digits,
  promote, normalize_iban, to_angola_iban, has_check_digits, is_valid_angola_iban,
}

pub letters_as_numbers-append :
    (s t : Text) → letters_as_numbers (s ++ t) ≡ letters_as_numbers s ++ letters_as_numbers t
unfolding letters_as_numbers
letters_as_numbers-append [] t = refl
letters_as_numbers-append (c ∷ s) t =
    let shown = if leb 65 c && leb c 90 then to_string 10 (c - 55) else c ∷ [] in
    ap (λ u. shown ++ u) (letters_as_numbers-append s t) ∙ sym (append_assoc shown _ _)

letters_as_numbers-digits : (s : Text) → all_digits s ≡ true → letters_as_numbers s ≡ s
unfolding letters_as_numbers
letters_as_numbers-digits [] h = refl
letters_as_numbers-digits (c ∷ s) h = ground (arith, letters_as_numbers-digits s)

pub remainder_of-append :
    (r : ℕ) (s t : Text) → remainder_of r (s ++ t) ≡ remainder_of (remainder_of r s) t
remainder_of-append r [] t = refl
remainder_of-append r (c ∷ s) t = remainder_of-append (fold_digit r c) s t

pub remainder_of-lt : (r : ℕ) (s : Text) → r < 97 → remainder_of r s < 97
remainder_of-lt r [] h = h
remainder_of-lt r (c ∷ s) h = remainder_of-lt (fold_digit r c) s (omega arith)

-- A number below a hundred, in two digits.
abbrev pair : ℕ → Text
pair n = (48 + n / 10) ∷ (48 + n % 10) ∷ []

-- What is left of 98 for an account number of remainder `r`.
abbrev missing : ℕ → ℕ
missing r = 98 - remainder_of r (codes "102400")

missing-lt : (r : ℕ) → missing r < 100
missing-lt r = omega arith

abbrev fits : ℕ → Bool
fits r = remainder_of (remainder_of r (codes "1024")) (pair (missing r)) == 1

fits_table : each_below 97 fits ≡ true
fits_table = refl

-- Digits in front of other characters count as they stand.
remainder_of-digits :
    (s t : Text)
    → all_digits s ≡ true
    → remainder_of 0 (letters_as_numbers (s ++ t))
      ≡ remainder_of (remainder_of 0 s) (letters_as_numbers t)
remainder_of-digits s t h =
    ap (remainder_of 0) (
      letters_as_numbers-append s t
      ∙ ap (λ u. u ++ letters_as_numbers t) (letters_as_numbers-digits s h))
    ∙ remainder_of-append 0 s (letters_as_numbers t)

check_digits-digits :
    (bban : Text)
    → all_digits bban ≡ true
    → check_digits bban ≡ pair (missing (remainder_of 0 bban))
unfolding check_digits letters_as_numbers to_string
check_digits-digits bban h =
    ap (λ r. pad_start 2 (to_string 10 (98 - r))) (remainder_of-digits bban (codes "AO00") h)
    ∙ pad_start-two (missing (remainder_of 0 bban)) (missing-lt (remainder_of 0 bban))

-- Any two digits behind the country code count as they stand.
remainder_of-check :
    (bban : Text) (n : ℕ)
    → all_digits bban ≡ true
    → n < 100
    → remainder_of 0 (letters_as_numbers (bban ++ (codes "AO" ++ pair n)))
      ≡ remainder_of (remainder_of (remainder_of 0 bban) (codes "1024")) (pair n)
unfolding letters_as_numbers to_string
remainder_of-check bban n h lt =
    remainder_of-digits bban (codes "AO" ++ pair n) h
    ∙ ap (λ s. remainder_of (remainder_of 0 bban) (codes "1024" ++ s))
        (letters_as_numbers-digits (pair n) (ground arith))

has_check_digits-pair :
    (bban : Text) (n : ℕ)
    → is_bban bban ≡ true
    → n < 100
    → has_check_digits (codes "AO" ++ pair n ++ bban)
      ≡ (remainder_of (remainder_of (remainder_of 0 bban) (codes "1024")) (pair n) == 1)
unfolding has_check_digits
has_check_digits-pair bban n h lt =
    let digits : all_digits bban ≡ true = ground (arith, h) in
    let shape : is_iban_shape (codes "AO" ++ pair n ++ bban) ≡ true = ground (arith, h) in
    let counted = ap (λ r. r == 1) (remainder_of-check bban n digits lt) in
    ap (λ b. b && remainder_of 0 (letters_as_numbers (bban ++ (codes "AO" ++ pair n))) == 1) shape
    ∙ counted

-- `toAngolaIban` completes the 21 digits of an account number, given with or without spaces and
-- hyphens, by check digits with which `isValidAngolaIban` accepts it.
pub is_valid_angola_iban-bban :
    (unicode : Text → Text) (value : Text)
    → is_bban (normalize_iban unicode value) ≡ true
    → is_valid_angola_iban unicode value ≡ true
unfolding is_valid_angola_iban to_angola_iban promote
is_valid_angola_iban-bban unicode value h =
    let bban = normalize_iban unicode value in
    let r = remainder_of 0 bban in
    let digits : all_digits bban ≡ true = ground (arith, h) in
    let promoted : promote bban ≡ codes "AO" ++ pair (missing r) ++ bban =
      ground (arith, h, check_digits-digits bban digits) in
    ap has_check_digits promoted
    ∙ has_check_digits-pair bban (missing r) h (missing-lt r)
    ∙ each_below-holds 97 fits r fits_table (remainder_of-lt 0 bban (omega arith))
