-- ===== src/Qr/Crc.antt =====
-- `crc16ccitt` and `verifyEmvCoChecksum`.
use Prim.Native.Nat.{bit_and, bit_xor}
use mathlib.Core.List.{foldl}
use filazero_local.Base.{
  ℕ, zero, suc, ◌-◌, ◌*◌, ◌%◌, Bool, false, map, ltb, ◌==◌, if◌then◌else◌, length, take, drop, Text,
  same_text,
}
use filazero_local.Qr.Encoding.{utf8, to_string, pad_start, upper, to_upper}

-- One round of the inner loop: `crc` stays below 2 ^ 16, and the shift is cut to 16 bits.
unfoldable pub crc_bit : ℕ → ℕ
crc_bit crc =
    if bit_and crc 0x8000 == 0 then crc * 2 % 0x10000 else bit_xor (crc * 2) 0x1021 % 0x10000

unfoldable pub crc_bits : ℕ → ℕ → ℕ
unfolding crc_bit
crc_bits zero crc = crc
crc_bits (suc rounds) crc = crc_bits rounds (crc_bit crc)

-- One round of the outer loop.
unfoldable pub crc_byte : ℕ → ℕ → ℕ
unfolding crc_bits
crc_byte crc byte = crc_bits 8 (bit_xor crc (byte * 256))

unfoldable pub crc16ccitt : Text → Text
unfolding crc_byte
crc16ccitt input = pad_start 4 (map upper (to_string 16 (foldl crc_byte 0xffff (utf8 input))))

-- `payload.slice(-4)` of a text of four units or more.
abbrev pub last_four : Text → Text
last_four s = drop (length s - 4) s

-- `payload.slice(0, -4)`
abbrev pub all_but_four : Text → Text
all_but_four s = take (length s - 4) s

unfoldable pub verify_emv_co_checksum : (Text → Text) → Text → Bool
verify_emv_co_checksum unicode payload =
    if ltb (length payload) 8
    then false
    else same_text (to_upper unicode (last_four payload)) (crc16ccitt (all_but_four payload))
