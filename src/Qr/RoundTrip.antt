-- ===== src/Qr/RoundTrip.antt =====
-- Elements written by `tlv`, one behind the other, and read back by `parseTlv`.
use mathlib.Core.List.{append_assoc}
use mathlib.Core.Option.{some_inj}
use filazero_local.Base.{
  ℕ, suc, ◌+◌, ◌-◌, ◌/◌, ◌%◌, ◌<◌, ◌≤◌, ◌≡◌, refl, true, Bool, Option, none, some, List, [], ◌∷◌,
  ◌++◌, arith, length, take, drop, Text, length-append, subst, map, take-append, drop-append,
  is_digit, ◌&&◌, not, ap, sym, ◌∙◌,
}
use filazero_local.Qr.Encoding.{
  Bytes, utf8, utf8_after, unit_bytes, waiting, is_low, ◌>>=◌, >>=-eq-some, to_string, pad_start,
}
use filazero_local.Qr.Numbers.{pad_start-two}
use filazero_local.Qr.Payload.{join}
use filazero_local.Qr.Tlv.{TlvElement, tlv, parse_from, parse_tlv, two_digits}

-- A text that does not begin with the second half of a surrogate pair.
abbrev starts_whole : Text → Bool
starts_whole [] = true
starts_whole (c ∷ s) = not (is_low c)

-- Two texts that are not joined inside a surrogate pair are encoded one after the other.
utf8_after-append :
    (high : Option ℕ) (s t : Text)
    → starts_whole t ≡ true
    → utf8_after high (s ++ t) ≡ utf8_after high s ++ utf8_after none t
unfolding utf8_after
utf8_after-append none [] t h = refl
utf8_after-append (some high) [] [] h = refl
utf8_after-append (some high) [] (c ∷ t) h = ground (arith, h)
utf8_after-append high (c ∷ s) t h =
    ap (λ b. unit_bytes high c ++ b) (utf8_after-append (waiting c) s t h)
    ∙ sym (append_assoc (unit_bytes high c) _ _)

-- A digit is encoded as itself.
utf8_after-digit :
    (c : ℕ) (s : Text) → is_digit c ≡ true → utf8_after none (c ∷ s) ≡ c ∷ utf8_after none s
unfolding utf8_after
utf8_after-digit c s h = ground arith

-- An element as `tlv` writes it, taken apart.
tlv-parts :
    (tag value s : Text)
    → tlv tag value ≡ some s
    → (a b : ℕ) × (tag ≡ a ∷ b ∷ [])
      × (is_digit a ≡ true)
      × (is_digit b ≡ true)
      × (length (utf8 value) < 100)
      × (s ≡ a ∷ b ∷ (48 + length (utf8 value) / 10) ∷ (48 + length (utf8 value) % 10) ∷ value)
unfolding tlv
tlv-parts [] value s h = cc
tlv-parts (a ∷ []) value s h = cc
tlv-parts (a ∷ b ∷ c ∷ tag) value s h = cc
tlv-parts (a ∷ b ∷ []) value s h =
    let digits : is_digit a && is_digit b ≡ true = ground (arith, h) in
    let small : length (utf8 value) < 100 = ground (arith, h) in
    let shown : a ∷ b ∷ pad_start 2 (to_string 10 (length (utf8 value))) ++ value ≡ s =
      ground (arith, h) in
    (
      a,
      b,
      refl,
      ground (arith, digits),
      ground (arith, digits),
      small,
      sym shown ∙ ap (λ t. a ∷ b ∷ t ++ value) (pad_start-two _ small),
    )

tlv-starts_whole : (tag value s t : Text) → tlv tag value ≡ some s → starts_whole (s ++ t) ≡ true
tlv-starts_whole tag value s t h =
    let (a, b, _, da, _, _, same) = tlv-parts tag value s h in
    subst (λ s. starts_whole (s ++ t) ≡ true) (sym same) (ground (arith, da))

-- What `tlv` wrote in front of other elements is encoded to four digits and the value's bytes.
utf8-tlv :
    (a b n : ℕ) (value rest : Text)
    → is_digit a ≡ true
    → is_digit b ≡ true
    → n < 100
    → starts_whole rest ≡ true
    → utf8 (a ∷ b ∷ (48 + n / 10) ∷ (48 + n % 10) ∷ value ++ rest)
      ≡ a ∷ b ∷ (48 + n / 10) ∷ (48 + n % 10) ∷ utf8 value ++ utf8 rest
unfolding utf8
utf8-tlv a b n value rest da db small whole = cc (
  utf8_after-digit a (b ∷ (48 + n / 10) ∷ (48 + n % 10) ∷ value ++ rest) da,
  utf8_after-digit b ((48 + n / 10) ∷ (48 + n % 10) ∷ value ++ rest) db,
  utf8_after-digit (48 + n / 10) ((48 + n % 10) ∷ value ++ rest) (ground arith),
  utf8_after-digit (48 + n % 10) (value ++ rest) (ground arith),
  utf8_after-append none value rest whole,
)

module _ (decode : Bytes → Text) where
  -- One round of the parser on an element as `tlv` writes it.
  parse_from-element :
      (fuel a b n : ℕ) (value rest : Bytes)
      → is_digit a ≡ true
      → is_digit b ≡ true
      → n < 100
      → length value ≡ n
      → parse_from decode (suc fuel) (a ∷ b ∷ (48 + n / 10) ∷ (48 + n % 10) ∷ value ++ rest) ≡ (
          parse_from decode fuel rest >>= λ elements.
          some (record { tag = a ∷ b ∷ []; length = n; value = decode value } ∷ elements))
  unfolding parse_from
  parse_from-element fuel a b n value rest da db small size =
      let announced : two_digits (48 + n / 10) (48 + n % 10) ≡ n = omega arith in
      let taken : take (two_digits (48 + n / 10) (48 + n % 10)) (value ++ rest) ≡ value =
        ap (λ m. take m (value ++ rest)) (announced ∙ sym size) ∙ take-append value rest in
      let dropped : drop (two_digits (48 + n / 10) (48 + n % 10)) (value ++ rest) ≡ rest =
        ap (λ m. drop m (value ++ rest)) (announced ∙ sym size) ∙ drop-append value rest in
      ground (arith, announced, taken, dropped, da, db, length-append value rest)

-- The elements as they are written: a tag and a value each.
abbrev pub write : Text × Text → Option Text
write (tag, value) = tlv tag value

-- The element that stands for them.
abbrev pub element : Text × Text → TlvElement
element (tag, value) = record { tag = tag; length = length (utf8 value); value = value }

-- The decoder gives back the text of every value.
abbrev pub Decodes : (Bytes → Text) → List (Text × Text) → Type 0
Decodes decode [] = Unit {0}
Decodes decode ((tag, value) ∷ fields) = (decode (utf8 value) ≡ value) × Decodes decode fields

join-starts_whole :
    (fields : List (Text × Text)) (payload : Text)
    → join (map write fields) ≡ some payload
    → starts_whole payload ≡ true
join-starts_whole [] payload h = subst (λ s. starts_whole s ≡ true) (some_inj.0 h) refl
join-starts_whole ((tag, value) ∷ fields) payload h =
    let (s, first, after) = >>=-eq-some (tlv tag value) _ h in
    let (rest, others, same) = >>=-eq-some (join (map write fields)) _ after in
    subst (λ s. starts_whole s ≡ true) (some_inj.0 same) (tlv-starts_whole tag value s rest first)

-- The parser reads back the element that `tlv` wrote, and goes on behind it.
parse_from-tlv :
    (decode : Bytes → Text) (tag value s rest : Text) (elements : List TlvElement) (fuel : ℕ)
    → tlv tag value ≡ some s
    → starts_whole rest ≡ true
    → decode (utf8 value) ≡ value
    → length (utf8 (s ++ rest)) ≤ fuel
    → ((n : ℕ) → length (utf8 rest) ≤ n → parse_from decode n (utf8 rest) ≡ some elements)
    → parse_from decode fuel (utf8 (s ++ rest)) ≡ some (element (tag, value) ∷ elements)
parse_from-tlv decode tag value s rest elements fuel wrote whole d enough go_on =
    let (a, b, is_tag, da, db, small, is_s) = tlv-parts tag value s wrote in
    let n = length (utf8 value) in
    let bytes : utf8 (s ++ rest) ≡ a ∷ b ∷ (48 + n / 10) ∷ (48 + n % 10) ∷ utf8 value ++ utf8 rest =
      ap (λ t. utf8 (t ++ rest)) is_s ∙ utf8-tlv a b n value rest da db small whole in
    let size : 4 + length (utf8 rest) ≤ fuel =
      omega (arith, enough, ap length bytes, length-append (utf8 value) (utf8 rest)) in
    let round =
      parse_from-element decode (fuel - 1) a b n (utf8 value) (utf8 rest) da db small refl in
    let again = go_on (fuel - 1) (omega (arith, size)) in
    let fuel_eq : fuel ≡ suc (fuel - 1) = omega (arith, size) in
    ap (parse_from decode fuel) bytes
    ∙ ap
        (λ m. parse_from decode m (a ∷ b ∷ (48 + n / 10) ∷ (48 + n % 10) ∷ utf8 value ++ utf8 rest))
        fuel_eq
    ∙ round
    ∙ cc (again, is_tag, d)

parse_from-join :
    (decode : Bytes → Text) (fields : List (Text × Text)) (payload : Text) (fuel : ℕ)
    → join (map write fields) ≡ some payload
    → Decodes decode fields
    → length (utf8 payload) ≤ fuel
    → parse_from decode fuel (utf8 payload) ≡ some (map element fields)
unfolding parse_from utf8 utf8_after
parse_from-join decode [] payload fuel h d enough =
    subst (λ s. parse_from decode fuel (utf8 s) ≡ some []) (some_inj.0 h) refl
parse_from-join decode ((tag, value) ∷ fields) payload fuel h (d, ds) enough =
    let (s, first, after) = >>=-eq-some (tlv tag value) _ h in
    let (rest, others, same) = >>=-eq-some (join (map write fields)) _ after in
    let whole = some_inj.0 same in
    subst (λ t. parse_from decode fuel (utf8 t) ≡ some (map element ((tag, value) ∷ fields))) whole
      (parse_from-tlv decode tag value s rest (map element fields) fuel first
        (join-starts_whole fields rest others) d
        (subst (λ t. length (utf8 t) ≤ fuel) (sym whole) enough)
        (λ n. parse_from-join decode fields rest n others ds))

-- What `tlv` writes, for any number of tags and values, and `join` puts behind one another, the
-- parser reads back: the same tags and values, and the sizes of the values in bytes. The decoder
-- is asked to give back the text of each value.
pub parse_tlv-join :
    (decode : Bytes → Text) (fields : List (Text × Text)) (payload : Text)
    → join (map write fields) ≡ some payload
    → Decodes decode fields
    → parse_tlv decode payload ≡ some (map element fields)
unfolding parse_tlv
parse_tlv-join decode fields payload h d =
    parse_from-join decode fields payload (length (utf8 payload)) h d (omega arith)
