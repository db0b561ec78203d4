-- ===== src/Qr/Decimal.antt =====
-- A number is read back from its decimal digits, with or without zeros in front.
use mathlib.Core.List.{foldl}
use filazero_local.Base.{
  ℕ, zero, suc, ◌+◌, ◌-◌, ◌*◌, ◌/◌, ◌%◌, ◌<◌, ◌≡◌, refl, [], ◌∷◌, ◌++◌, arith, length, Text, ◌∙◌,
  ◌≤◌, true, ap, length-append,
}
use filazero_local.Qr.Iban.{all_digits}
use filazero_local.Qr.Encoding.{to_string, pad_start, print_onto, zeros, digit}

-- `Number(s)` of a text of digits, behind the number `n`.
abbrev pub value : ℕ → Text → ℕ
value = foldl (λ n c. n * 10 + (c - 48))

pub value-print_onto :
    (fuel n : ℕ) (out : Text) → n < fuel → value 0 (print_onto fuel 10 n out) ≡ value n out
value-print_onto zero n out h = absurd (omega arith)
value-print_onto (suc fuel) n out h =
    ground (arith, value-print_onto fuel (n / 10) (digit (n % 10) ∷ out))

pub all_digits-print_onto :
    (fuel n : ℕ) (out : Text) → all_digits out ≡ true → all_digits (print_onto fuel 10 n out) ≡ true
all_digits-print_onto zero n out h = h
all_digits-print_onto (suc fuel) n out h =
    ground (arith, h, all_digits-print_onto fuel (n / 10) (digit (n % 10) ∷ out))

length-print_onto : (fuel n : ℕ) (out : Text) → length out ≤ length (print_onto fuel 10 n out)
length-print_onto zero n out = omega arith
length-print_onto (suc fuel) n out =
    ground (arith, length-print_onto fuel (n / 10) (digit (n % 10) ∷ out))

pub print_onto-filled : (fuel n : ℕ) → 0 < length (print_onto (suc fuel) 10 n [])
print_onto-filled fuel n = ground (arith, length-print_onto fuel (n / 10) (digit (n % 10) ∷ []))

-- 10 ^ k
abbrev pub tens : ℕ → ℕ
tens zero = 1
tens (suc k) = 10 * tens k

print_onto-short :
    (fuel k n : ℕ) (out : Text)
    → n < tens (suc k)
    → length (print_onto fuel 10 n out) ≤ length out + suc k
print_onto-short zero k n out h = omega arith
print_onto-short (suc fuel) zero n out h = ground arith
print_onto-short (suc fuel) (suc k) n out h =
    ground (arith, print_onto-short fuel k (n / 10) (digit (n % 10) ∷ out))

-- A number below 10 ^ (k + 1) has at most k + 1 digits.
pub to_string-short : (k n : ℕ) → n < tens (suc k) → length (to_string 10 n) ≤ suc k
unfolding to_string
to_string-short k n h = omega (arith, print_onto-short (suc n) k n [] h)

all_digits-zeros : (n : ℕ) (s : Text) → all_digits s ≡ true → all_digits (zeros n ++ s) ≡ true
all_digits-zeros zero s h = h
all_digits-zeros (suc n) s h = ground (arith, all_digits-zeros n s h)

pub all_digits-pad_start : (width n : ℕ) → all_digits (pad_start width (to_string 10 n)) ≡ true
unfolding to_string
all_digits-pad_start width n =
    all_digits-zeros (width - length (to_string 10 n)) (to_string 10 n)
      (all_digits-print_onto (suc n) n [] refl)

length-zeros : (n : ℕ) → length (zeros n) ≡ n
length-zeros zero = refl
length-zeros (suc n) = omega (arith, length-zeros n)

-- The width is a least one.
pub length-pad_start :
    (width : ℕ) (s : Text) → length (pad_start width s) ≡ (width - length s) + length s
length-pad_start width s =
    length-append (zeros (width - length s)) s
    ∙ ap (λ n. n + length s) (length-zeros (width - length s))

value-zeros : (n : ℕ) (s : Text) → value 0 (zeros n ++ s) ≡ value 0 s
value-zeros zero s = refl
value-zeros (suc n) s = value-zeros n s

-- `String(n)`, padded with zeros to any width, is read back as `n`.
pub value-pad_start : (width n : ℕ) → value 0 (pad_start width (to_string 10 n)) ≡ n
unfolding to_string
value-pad_start width n =
    value-zeros (width - length (to_string 10 n)) (to_string 10 n)
    ∙ value-print_onto (suc n) n [] (omega arith)
