-- ===== src/Base/Lists.antt =====
-- Lists measured by native numbers, and rows counted by a Boolean predicate.
use Prim.Native.Nat.{ℕ, zero, suc, ◌+◌, ◌≤◌, ◌<◌}
use mathlib.Core.Path.{◌≡◌, refl, sym, subst}
use mathlib.Core.Bool.{Bool, true, false, not, ◌&&◌}
use mathlib.Core.Logic.{◌⊎◌, inl, inr}
use mathlib.Core.Option.{Option, none, some}
use mathlib.Core.List.{List, [], ◌∷◌, ◌++◌, map}
use native.Mathlib.Omega.{arith}
use filazero_local.Base.Tests.{Bool-cases, if◌then◌else◌, bit}

module _ {ℓ} {A : Type ℓ} where
  abbrev pub length : List A → ℕ
  length [] = 0
  length (x ∷ xs) = suc (length xs)

  abbrev pub take : ℕ → List A → List A
  take zero xs = []
  take (suc n) [] = []
  take (suc n) (x ∷ xs) = x ∷ take n xs

  abbrev pub drop : ℕ → List A → List A
  drop zero xs = xs
  drop (suc n) [] = []
  drop (suc n) (x ∷ xs) = drop n xs

  -- How many rows satisfy `p`.
  abbrev pub count_if : (A → Bool) → List A → ℕ
  count_if p [] = 0
  count_if p (x ∷ xs) = bit (p x) + count_if p xs

  -- The rows that satisfy `p`, in order.
  abbrev pub select : (A → Bool) → List A → List A
  select p [] = []
  select p (x ∷ xs) = let rest = select p xs in if p x then x ∷ rest else rest

  -- The first row that satisfies `p`.
  abbrev pub find : (A → Bool) → List A → Option A
  find p [] = none
  find p (x ∷ xs) = let rest = find p xs in if p x then some x else rest

  -- `f` applied to the rows that satisfy `p`.
  abbrev pub modify_where : (A → Bool) → (A → A) → List A → List A
  modify_where p f [] = []
  modify_where p f (x ∷ xs) = (if p x then f x else x) ∷ modify_where p f xs

  pub length-append : (xs ys : List A) → length (xs ++ ys) ≡ length xs + length ys
  length-append [] ys = omega arith
  length-append (x ∷ xs) ys = omega (arith, length-append xs ys)

  pub take-append : (xs ys : List A) → take (length xs) (xs ++ ys) ≡ xs
  take-append [] ys = refl
  take-append (x ∷ xs) ys = cc (take-append xs ys)

  pub drop-append : (xs ys : List A) → drop (length xs) (xs ++ ys) ≡ ys
  drop-append [] ys = refl
  drop-append (x ∷ xs) ys = drop-append xs ys

  pub count_if-append :
      (p : A → Bool) (xs ys : List A) → count_if p (xs ++ ys) ≡ count_if p xs + count_if p ys
  count_if-append p [] ys = omega arith
  count_if-append p (x ∷ xs) ys = omega (arith, count_if-append p xs ys)

  pub count_if-le :
      (p q : A → Bool)
      → ((x : A) → p x ≡ true → q x ≡ true)
      → (xs : List A) → count_if p xs ≤ count_if q xs
  count_if-le p q h [] = omega arith
  count_if-le p q h (x ∷ xs) = ground (arith, h x, count_if-le p q h xs)

  pub count_if-ext :
      (p q : A → Bool) → ((x : A) → p x ≡ q x) → (xs : List A) → count_if p xs ≡ count_if q xs
  count_if-ext p q h [] = refl
  count_if-ext p q h (x ∷ xs) = ground (arith, h x, count_if-ext p q h xs)

  pub count_if-length-select : (p : A → Bool) (xs : List A) → length (select p xs) ≡ count_if p xs
  count_if-length-select p [] = refl
  count_if-length-select p (x ∷ xs) = ground (arith, count_if-length-select p xs)

  -- A row-wise rewrite that leaves `p` as it was leaves the count as it was.
  pub count_if-map :
      (p : A → Bool) (f : A → A)
      → ((x : A) → p (f x) ≡ p x)
      → (xs : List A) → count_if p (map f xs) ≡ count_if p xs
  count_if-map p f h [] = refl
  count_if-map p f h (x ∷ xs) = ground (arith, h x, count_if-map p f h xs)

  -- A row that is found satisfies the test, so the test counts at least one.
  pub find-holds : (p : A → Bool) (xs : List A) (a : A) → find p xs ≡ some a → p a ≡ true
  find-holds p [] a e = cc
  find-holds p (x ∷ xs) a e = ground (arith, find-holds p xs a)

  pub find-none : (p : A → Bool) (xs : List A) → find p xs ≡ none → count_if p xs ≡ 0
  find-none p [] e = refl
  find-none p (x ∷ xs) e = ground (arith, find-none p xs)

  pub find-count :
      (p q : A → Bool) (xs : List A) (a : A) → find p xs ≡ some a → q a ≡ true → 0 < count_if q xs
  find-count p q [] a e h = cc
  find-count p q (x ∷ xs) a e h = ground (arith, find-count p q xs a)

  modify_where-none :
      (p : A → Bool) (f : A → A) (q : A → Bool) (xs : List A)
      → count_if p xs ≡ 0
      → count_if q (modify_where p f xs) ≡ count_if q xs
  modify_where-none p f q [] e = refl
  modify_where-none p f q (x ∷ xs) e = ground (arith, modify_where-none p f q xs)

  -- The count after one row, the only one under its key, has been rewritten.
  pub count_if-modify_where :
      (p : A → Bool) (f : A → A) (q : A → Bool) (xs : List A) (a : A)
      → find p xs ≡ some a
      → count_if p xs ≤ 1
      → count_if q (modify_where p f xs) + bit (q a) ≡ count_if q xs + bit (q (f a))
  count_if-modify_where p f q [] a e u = cc
  count_if-modify_where p f q (x ∷ xs) a e u =
      ground (arith, count_if-modify_where p f q xs a, modify_where-none p f q xs)

-- Membership, computed by the list.
module _ {A : Type 0} where
  abbrev pub In : A → List A → Type 0
  In a [] = ⊥
  In a (x ∷ xs) = (x ≡ a) ⊎ In a xs

  pub count_if-In : (p : A → Bool) (xs : List A) (a : A) → In a xs → p a ≡ true → 0 < count_if p xs
  count_if-In p [] a i h = absurd i
  count_if-In p (x ∷ xs) a i h = ground (arith, count_if-In p xs a)

  pub count_if-some :
      (p : A → Bool) (xs : List A) → 0 < count_if p xs → (a : A) × In a xs × (p a ≡ true)
  count_if-some p [] h = absurd (omega arith)
  count_if-some p (x ∷ xs) h = elim (Bool-cases (p x)) [
    | inl here ↦ (x, inl refl, here)
    | inr elsewhere ↦
        let (a, there, holds) = count_if-some p xs (ground (arith, h, elsewhere)) in
        (a, inr there, holds)
  ]

  pub find-In : (p : A → Bool) (xs : List A) (a : A) → find p xs ≡ some a → In a xs
  find-In p [] a e = cc
  find-In p (x ∷ xs) a e = ground (arith, find-In p xs a)

  pub In-select : (p : A → Bool) (xs : List A) (a : A) → In a (select p xs) → In a xs × (p a ≡ true)
  In-select p [] a i = absurd i
  In-select p (x ∷ xs) a i = ground (arith, In-select p xs a)

  pub select-In : (p : A → Bool) (xs : List A) (a : A) → In a xs → p a ≡ true → In a (select p xs)
  select-In p [] a i h = absurd i
  select-In p (x ∷ xs) a i h = ground (arith, select-In p xs a)

  pub count_if-select :
      (p q : A → Bool) (xs : List A) → count_if p (select q xs) ≡ count_if (λ x. q x && p x) xs
  count_if-select p q [] = refl
  count_if-select p q (x ∷ xs) = ground (arith, count_if-select p q xs)

  -- A row that is the only one with its key is the one found by it.
  pub find-only :
      (p : A → Bool) (xs : List A) (a : A)
      → In a xs
      → p a ≡ true
      → count_if p xs ≤ 1
      → find p xs ≡ some a
  find-only p [] a i h u = absurd i
  find-only p (x ∷ xs) a i h u = ground (arith, find-only p xs a, count_if-In p xs a)

  -- If the only row with the key fails `q`, no row has the key and passes `q`.
  pub count_if-excluded :
      (p q : A → Bool) (xs : List A) (a : A)
      → In a xs
      → p a ≡ true
      → q a ≡ false
      → count_if p xs ≤ 1
      → count_if (λ x. q x && p x) xs ≡ 0
  count_if-excluded p q [] a i h k u = absurd i
  count_if-excluded p q (x ∷ xs) a (inl e) h k u =
      let key : p x ≡ true = subst (λ y. p y ≡ true) (sym e) h in
      let out : q x ≡ false = subst (λ y. q y ≡ false) (sym e) k in
      ground (arith, count_if-le (λ y. q y && p y) p (λ y h. ground arith) xs)
  count_if-excluded p q (x ∷ xs) a (inr i) h k u =
      ground (arith, count_if-excluded p q xs a i h k, count_if-In p xs a i h)

  -- If some row passes `q`, every row that does has the key, and one row only has the key, then
  -- the row found by the key passes `q`.
  pub find-holds_only :
      (p q : A → Bool) (xs : List A) (a : A)
      → find p xs ≡ some a
      → count_if p xs ≤ 1
      → 0 < count_if (λ x. q x && p x) xs
      → q a ≡ true
  find-holds_only p q xs a e u h =
      ground (arith, count_if-excluded p q xs a (find-In p xs a e) (find-holds p xs a e))

  pub count_if-split :
      (p q : A → Bool) (xs : List A)
      → count_if q xs ≡ count_if (λ x. q x && p x) xs + count_if (λ x. not (p x) && q x) xs
  count_if-split p q [] = refl
  count_if-split p q (x ∷ xs) = ground (arith, count_if-split p q xs)
