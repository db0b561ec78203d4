-- ===== src/Qr/Iban.antt =====
-- `normalizeIban`, `toAngolaIban` and `isValidAngolaIban`. `unicode` is `toUpperCase` on a text
-- with characters outside ASCII.
use mathlib.Core.List.{foldl}
use filazero_local.Base.{
  ℕ, ◌+◌, ◌-◌, ◌*◌, ◌%◌, Bool, true, not, ◌&&◌, ◌||◌, [], ◌∷◌, ◌++◌, leb, ◌==◌, if◌then◌else◌,
  length, take, drop, select, Text, is_space, is_digit, starts_with,
}
use filazero_local.Qr.Encoding.{codes, to_string, pad_start, to_upper}

abbrev pub all_digits : Text → Bool
all_digits [] = true
all_digits (c ∷ s) = is_digit c && all_digits s

-- `iban.replace(/[\s-]/g, "")`, in upper case
unfoldable pub normalize_iban : (Text → Text) → Text → Text
normalize_iban unicode iban = to_upper unicode (select (λ c. not (is_space c || c == 45)) iban)

-- `/^\d{21}$/`
abbrev pub is_bban : Text → Bool
is_bban s = all_digits s && length s == 21

-- `/^AO\d{23}$/`
abbrev pub is_iban_shape : Text → Bool
is_iban_shape s = starts_with (codes "AO") s && (all_digits (drop 2 s) && length s == 25)

-- `String(letter.charCodeAt(0) - 55)` in place of each letter.
unfoldable pub letters_as_numbers : Text → Text
letters_as_numbers [] = []
letters_as_numbers (c ∷ s) =
    (if leb 65 c && leb c 90 then to_string 10 (c - 55) else c ∷ []) ++ letters_as_numbers s

-- One round of the loop over the digits.
abbrev pub fold_digit : ℕ → ℕ → ℕ
fold_digit remainder character = (remainder * 10 + (character - 48)) % 97

abbrev pub remainder_of : ℕ → Text → ℕ
remainder_of = foldl fold_digit

unfoldable pub check_digits : Text → Text
unfolding letters_as_numbers
check_digits bban =
    pad_start 2 (to_string 10 (98 - remainder_of 0 (letters_as_numbers (bban ++ codes "AO00"))))

unfoldable pub promote : Text → Text
unfolding check_digits
promote normalized =
    if is_iban_shape normalized
    then normalized
    else if is_bban normalized
    then codes "AO" ++ check_digits normalized ++ normalized
    else normalized

unfoldable pub to_angola_iban : (Text → Text) → Text → Text
unfolding promote
to_angola_iban unicode value = promote (normalize_iban unicode value)

unfoldable pub has_check_digits : Text → Bool
unfolding letters_as_numbers
has_check_digits normalized =
    is_iban_shape normalized
    && remainder_of 0 (letters_as_numbers (drop 4 normalized ++ take 4 normalized)) == 1

unfoldable pub is_valid_angola_iban : (Text → Text) → Text → Bool
unfolding has_check_digits
is_valid_angola_iban unicode iban = has_check_digits (to_angola_iban unicode iban)
