-- ===== src/Qr/Tlv.antt =====
-- `tlv` and `parseTlv`: one tagged element, and a sequence of them read back.
use filazero_local.Base.{
  ℕ, zero, suc, ◌+◌, ◌-◌, ◌*◌, Bool, false, ◌&&◌, Option, none, some, List, [], ◌∷◌, ◌++◌, ltb,
  if◌then◌else◌, length, take, drop, Text, is_digit,
}
use filazero_local.Qr.Encoding.{Bytes, utf8, to_string, pad_start, ◌>>=◌}

pub record TlvElement : Type 0 where
  pub tag : Text
  pub length : ℕ
  pub value : Text

-- `/^\d{2}$/.test(s)`
abbrev pub is_two_digits : Text → Bool
is_two_digits (a ∷ b ∷ []) = is_digit a && is_digit b
is_two_digits _ = false

unfoldable pub tlv : Text → Text → Option Text
tlv tag value =
    if is_two_digits tag
    then (if ltb 99 (length (utf8 value))
        then none
        else some (tag ++ pad_start 2 (to_string 10 (length (utf8 value))) ++ value))
    else none

-- `Number(lengthText)`, of two digits.
abbrev pub two_digits : ℕ → ℕ → ℕ
two_digits a b = (a - 48) * 10 + (b - 48)

-- `decode` is `TextDecoder.decode`. Of a header it is only asked whether it is four digits, which
-- the decoder leaves as they are and makes of nothing else. The cursor is what is left to read.
module _ (decode : Bytes → Text) where
  unfoldable pub parse_from : ℕ → Bytes → Option (List TlvElement)
  parse_from fuel [] = some []
  parse_from zero (a ∷ bytes) = none
  parse_from (suc fuel) (a ∷ b ∷ c ∷ d ∷ bytes) =
      let rest = parse_from fuel (drop (two_digits c d) bytes) in
      if is_two_digits (a ∷ b ∷ []) && is_two_digits (c ∷ d ∷ [])
      then (if ltb (length bytes) (two_digits c d)
          then none
          else rest >>= λ elements. some (
              record {
                tag = a ∷ b ∷ [];
                length = two_digits c d;
                value = decode (take (two_digits c d) bytes);
              }
              ∷ elements))
      else none
  parse_from (suc fuel) bytes = none

  -- Each round reads four bytes at least, so there are fewer rounds than bytes.
  unfoldable pub parse_tlv : Text → Option (List TlvElement)
  unfolding parse_from
  parse_tlv payload = parse_from (length (utf8 payload)) (utf8 payload)
