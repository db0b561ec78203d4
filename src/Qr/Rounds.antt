-- ===== src/Qr/Rounds.antt =====
-- The loop of `parseTlv` ends: every round leaves less to read.
use filazero_local.Base.{ℕ, zero, suc, ◌≤◌, ◌≡◌, refl, [], ◌∷◌, arith, length, drop, Text}
use filazero_local.Qr.Encoding.{Bytes, utf8}
use filazero_local.Qr.Tlv.{parse_from, parse_tlv, two_digits}

length-drop : (n : ℕ) (bytes : Bytes) → length (drop n bytes) ≤ length bytes
length-drop zero bytes = omega arith
length-drop (suc n) [] = omega arith
length-drop (suc n) (b ∷ bytes) = omega (arith, length-drop n bytes)

parse_from-enough :
    (decode : Bytes → Text) (m n : ℕ) (bytes : Bytes)
    → length bytes ≤ m
    → length bytes ≤ n
    → parse_from decode m bytes ≡ parse_from decode n bytes
unfolding parse_from
parse_from-enough decode m n [] hm hn = refl
parse_from-enough decode zero n (a ∷ bytes) hm hn = absurd (omega arith)
parse_from-enough decode (suc m) zero (a ∷ bytes) hm hn = absurd (omega arith)
parse_from-enough decode (suc m) (suc n) (a ∷ []) hm hn = refl
parse_from-enough decode (suc m) (suc n) (a ∷ b ∷ []) hm hn = refl
parse_from-enough decode (suc m) (suc n) (a ∷ b ∷ c ∷ []) hm hn = refl
parse_from-enough decode (suc m) (suc n) (a ∷ b ∷ c ∷ d ∷ bytes) hm hn =
    let shorter = length-drop (two_digits c d) bytes in
    cc (
      parse_from-enough decode m n (drop (two_digits c d) bytes) (omega (arith, shorter))
        (omega (arith, shorter)))

-- `parseTlv` never stops for want of rounds: any larger number of rounds gives what it returns.
pub parse_tlv_total :
    (decode : Bytes → Text) (payload : Text) (rounds : ℕ)
    → length (utf8 payload) ≤ rounds
    → parse_from decode rounds (utf8 payload) ≡ parse_tlv decode payload
unfolding parse_tlv
parse_tlv_total decode payload rounds h =
    parse_from-enough decode rounds (length (utf8 payload)) (utf8 payload) h (omega arith)
