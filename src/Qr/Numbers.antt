-- ===== src/Qr/Numbers.antt =====
-- Printed numbers of a known width, by a table of all of them.
use filazero_local.Base.{
  ℕ, zero, suc, ◌+◌, ◌*◌, ◌/◌, ◌%◌, ◌<◌, ◌≡◌, refl, Bool, true, ◌&&◌, [], ◌∷◌, map, arith, length,
  Text, same_text, same_text_eq, ltb, ◌≤◌, ◌-◌, ◌++◌, length-append,
}
use filazero_local.Qr.Encoding.{to_string, pad_start, upper, is_ascii, print_onto, digit, zeros}

abbrev pub each_below : ℕ → (ℕ → Bool) → Bool
each_below zero p = true
each_below (suc n) p = p n && each_below n p

pub each_below-holds : (n : ℕ) (p : ℕ → Bool) (x : ℕ) → each_below n p ≡ true → x < n → p x ≡ true
each_below-holds zero p x h lt = absurd (omega arith)
each_below-holds (suc n) p x h lt = ground (arith, each_below-holds n p x)

abbrev two_shown : ℕ → Bool
two_shown n = same_text (pad_start 2 (to_string 10 n)) ((48 + n / 10) ∷ (48 + n % 10) ∷ [])

two_shown_table : each_below 100 two_shown ≡ true
unfolding to_string
two_shown_table = refl

pub pad_start-two :
    (n : ℕ) → n < 100 → pad_start 2 (to_string 10 n) ≡ (48 + n / 10) ∷ (48 + n % 10) ∷ []
pad_start-two n h = same_text_eq _ _ (each_below-holds 100 two_shown n two_shown_table h)

-- 16 ^ k
abbrev sixteens : ℕ → ℕ
sixteens zero = 1
sixteens (suc k) = 16 * sixteens k

length-print_onto :
    (fuel k n : ℕ) (out : Text)
    → n < sixteens (suc k)
    → length (print_onto fuel 16 n out) ≤ length out + suc k
length-print_onto zero k n out h = omega arith
length-print_onto (suc fuel) zero n out h = ground arith
length-print_onto (suc fuel) (suc k) n out h =
    ground (arith, length-print_onto fuel k (n / 16) (digit (n % 16) ∷ out))

-- Characters of ASCII before the lower case.
abbrev pub is_tidy : Text → Bool
is_tidy [] = true
is_tidy (c ∷ s) = ltb c 91 && is_tidy s

print_onto-is_tidy :
    (fuel n : ℕ) (out : Text)
    → is_tidy (map upper out) ≡ true
    → is_tidy (map upper (print_onto fuel 16 n out)) ≡ true
print_onto-is_tidy zero n out h = h
print_onto-is_tidy (suc fuel) n out h =
    ground (arith, print_onto-is_tidy fuel (n / 16) (digit (n % 16) ∷ out))

zeros-is_tidy : (n : ℕ) (s : Text) → is_tidy s ≡ true → is_tidy (zeros n ++ s) ≡ true
zeros-is_tidy zero s h = h
zeros-is_tidy (suc n) s h = ground (arith, zeros-is_tidy n s h)

pub is_tidy-is_ascii : (s : Text) → is_tidy s ≡ true → is_ascii s ≡ true
is_tidy-is_ascii [] h = refl
is_tidy-is_ascii (c ∷ s) h = ground (arith, is_tidy-is_ascii s)

pub is_tidy-upper : (s : Text) → is_tidy s ≡ true → map upper s ≡ s
is_tidy-upper [] h = refl
is_tidy-upper (c ∷ s) h = ground (arith, is_tidy-upper s)

length-zeros : (n : ℕ) → length (zeros n) ≡ n
length-zeros zero = refl
length-zeros (suc n) = omega (arith, length-zeros n)

length-map-upper : (s : Text) → length (map upper s) ≡ length s
length-map-upper [] = refl
length-map-upper (c ∷ s) = omega (arith, length-map-upper s)

-- Sixteen bits, printed as the checksum prints them.
abbrev pub hex_four : ℕ → Text
hex_four n = pad_start 4 (map upper (to_string 16 n))

pub length-hex_four : (n : ℕ) → n < 0x10000 → length (hex_four n) ≡ 4
unfolding to_string
length-hex_four n h =
    let shown = to_string 16 n in
    omega (
      arith,
      length-print_onto (suc n) 3 n [] h,
      length-map-upper shown,
      length-zeros (4 - length (map upper shown)),
      length-append (zeros (4 - length (map upper shown))) (map upper shown),
    )

pub hex_four-is_tidy : (n : ℕ) → is_tidy (hex_four n) ≡ true
unfolding to_string
hex_four-is_tidy n =
    zeros-is_tidy (4 - length (map upper (to_string 16 n))) _ (print_onto-is_tidy (suc n) n [] refl)
