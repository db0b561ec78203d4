-- ===== src/Qr/OneDigit.antt =====
-- A wrong digit in an Angolan account number is always noticed.
use mathlib.Core.List.{append_assoc}
use filazero_local.Base.{
  ℕ, length, ◌≢◌, false, Bool-cases, inl, inr, ◌<◌, ◌≡◌, true, [], ◌∷◌, ◌++◌, arith, ap, sym, ◌∙◌,
  Text, is_digit,
}
use filazero_local.Qr.Iban.{
  letters_as_numbers, remainder_of, fold_digit, has_check_digits, all_digits,
}
use filazero_local.Qr.IbanLaws.{letters_as_numbers-append, remainder_of-append}

remainder_of-injective :
    (s : Text) (r q : ℕ) → r < 97 → q < 97 → remainder_of r s ≡ remainder_of q s → r ≡ q
remainder_of-injective [] r q hr hq h = h
remainder_of-injective (c ∷ s) r q hr hq h =
    let before : fold_digit r c ≡ fold_digit q c =
      remainder_of-injective s (fold_digit r c) (fold_digit q c) (omega arith) (omega arith) h in
    omega (arith, before)

letters_as_numbers-digit :
    (c : ℕ) (s : Text) → is_digit c ≡ true → letters_as_numbers (c ∷ s) ≡ c ∷ letters_as_numbers s
unfolding letters_as_numbers
letters_as_numbers-digit c s h = ground (arith, h)

remainder_of-at :
    (u v : Text) (c : ℕ)
    → is_digit c ≡ true
    → remainder_of 0 (letters_as_numbers (u ++ c ∷ v))
      ≡ remainder_of (fold_digit (remainder_of 0 (letters_as_numbers u)) c) (letters_as_numbers v)
remainder_of-at u v c h =
    ap (remainder_of 0) (letters_as_numbers-append u (c ∷ v))
    ∙ remainder_of-append 0 (letters_as_numbers u) (letters_as_numbers (c ∷ v))
    ∙ ap (remainder_of (remainder_of 0 (letters_as_numbers u))) (letters_as_numbers-digit c v h)

-- One digit is settled by the others and the remainder.
remainder_of-digit :
    (u v : Text) (c d : ℕ)
    → is_digit c ≡ true
    → is_digit d ≡ true
    → remainder_of 0 (letters_as_numbers (u ++ c ∷ v))
      ≡ remainder_of 0 (letters_as_numbers (u ++ d ∷ v))
    → c ≡ d
remainder_of-digit u v c d hc hd h =
    let start = remainder_of 0 (letters_as_numbers u) in
    let same : fold_digit start c ≡ fold_digit start d =
      remainder_of-injective (letters_as_numbers v) _ _ (omega arith) (omega arith)
        (sym (remainder_of-at u v c hc) ∙ h ∙ remainder_of-at u v d hd) in
    ground (arith, same, hc, hd)

all_digits-at : (u v : Text) (c : ℕ) → all_digits (u ++ c ∷ v) ≡ true → is_digit c ≡ true
all_digits-at [] v c h = ground (arith, h)
all_digits-at (x ∷ u) v c h = ground (arith, all_digits-at u v c)

has_check_digits-parts :
    (a b x y : ℕ) (s : Text)
    → has_check_digits (a ∷ b ∷ x ∷ y ∷ s) ≡ true
    → (a ≡ 65)
      × (b ≡ 79)
      × (all_digits (x ∷ y ∷ s) ≡ true)
      × (remainder_of 0 (letters_as_numbers (s ++ a ∷ b ∷ x ∷ y ∷ [])) ≡ 1)
unfolding has_check_digits
has_check_digits-parts a b x y s h = ground (arith, h)

length-has_check_digits : (s : Text) → has_check_digits s ≡ true → length s ≡ 25
unfolding has_check_digits
length-has_check_digits s h = ground (arith, h)

-- The digit in one place of two texts that `has_check_digits` accepts, given by the text after
-- the first four places with these four moved to its end.
moved-digit :
    (u v tail : Text) (c d : ℕ)
    → is_digit c ≡ true
    → is_digit d ≡ true
    → remainder_of 0 (letters_as_numbers (u ++ c ∷ v ++ tail)) ≡ 1
    → remainder_of 0 (letters_as_numbers (u ++ d ∷ v ++ tail)) ≡ 1
    → c ≡ d
moved-digit u v tail c d hc hd one one2 =
    let move : (e : ℕ)
        → remainder_of 0 (letters_as_numbers (u ++ e ∷ v ++ tail))
          ≡ remainder_of 0 (letters_as_numbers (u ++ e ∷ (v ++ tail))) =
      λ e. ap (λ s. remainder_of 0 (letters_as_numbers s)) (append_assoc u (e ∷ v) tail) in
    remainder_of-digit u (v ++ tail) c d hc hd (sym (move c) ∙ one ∙ sym one2 ∙ move d)

-- The same for one of the two check digits, which are moved with the country code.
moved-check :
    (s : Text) (a b : ℕ) (u v : Text) (c d : ℕ)
    → is_digit c ≡ true
    → is_digit d ≡ true
    → remainder_of 0 (letters_as_numbers (s ++ (a ∷ b ∷ u ++ c ∷ v))) ≡ 1
    → remainder_of 0 (letters_as_numbers (s ++ (a ∷ b ∷ u ++ d ∷ v))) ≡ 1
    → c ≡ d
moved-check s a b u v c d hc hd one one2 =
    let move : (e : ℕ)
        → remainder_of 0 (letters_as_numbers (s ++ (a ∷ b ∷ u) ++ e ∷ v))
          ≡ remainder_of 0 (letters_as_numbers (s ++ (a ∷ b ∷ u ++ e ∷ v))) =
      λ e. ap (λ s. remainder_of 0 (letters_as_numbers s)) (append_assoc s (a ∷ b ∷ u) (e ∷ v)) in
    remainder_of-digit (s ++ (a ∷ b ∷ u)) v c d hc hd (move c ∙ one ∙ sym one2 ∙ sym (move d))

-- Of two accepted account numbers that differ at most in one place there is only one.
has_check_digits-settles :
    (u v : Text) (c d : ℕ)
    → has_check_digits (u ++ c ∷ v) ≡ true
    → has_check_digits (u ++ d ∷ v) ≡ true
    → c ≡ d
has_check_digits-settles [] (b ∷ x ∷ y ∷ s) c d hc hd =
    cc ((has_check_digits-parts c b x y s hc).0, (has_check_digits-parts d b x y s hd).0)
has_check_digits-settles (a ∷ []) (x ∷ y ∷ s) c d hc hd =
    cc ((has_check_digits-parts a c x y s hc).1, (has_check_digits-parts a d x y s hd).1)
has_check_digits-settles (a ∷ b ∷ []) (y ∷ s) c d hc hd =
    let (_, _, digits, one) = has_check_digits-parts a b c y s hc in
    let (_, _, digits2, one2) = has_check_digits-parts a b d y s hd in
    moved-check s a b [] (y ∷ []) c d (all_digits-at [] (y ∷ s) c digits)
      (all_digits-at [] (y ∷ s) d digits2) one one2
has_check_digits-settles (a ∷ b ∷ x ∷ []) s c d hc hd =
    let (_, _, digits, one) = has_check_digits-parts a b x c s hc in
    let (_, _, digits2, one2) = has_check_digits-parts a b x d s hd in
    moved-check s a b (x ∷ []) [] c d (all_digits-at (x ∷ []) s c digits)
      (all_digits-at (x ∷ []) s d digits2) one one2
has_check_digits-settles (a ∷ b ∷ x ∷ y ∷ u) v c d hc hd =
    let (_, _, digits, one) = has_check_digits-parts a b x y (u ++ c ∷ v) hc in
    let (_, _, digits2, one2) = has_check_digits-parts a b x y (u ++ d ∷ v) hd in
    moved-digit u v (a ∷ b ∷ x ∷ y ∷ []) c d (all_digits-at (x ∷ y ∷ u) v c digits)
      (all_digits-at (x ∷ y ∷ u) v d digits2) one one2
has_check_digits-settles u v c d hc hd =
    absurd (omega (arith, length-has_check_digits (u ++ c ∷ v) hc))

-- An account number with right check digits has wrong ones once a single character, wherever it
-- stands, is replaced by another.
pub has_check_digits-one_place :
    (u v : Text) (c d : ℕ)
    → has_check_digits (u ++ c ∷ v) ≡ true
    → c ≢ d
    → has_check_digits (u ++ d ∷ v) ≡ false
has_check_digits-one_place u v c d right other = elim (Bool-cases (has_check_digits (u ++ d ∷ v))) [
  | inl too ↦ absurd (other (has_check_digits-settles u v c d right too))
  | inr wrong ↦ wrong
]
