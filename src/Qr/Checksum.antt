-- ===== src/Qr/Checksum.antt =====
-- The checksum at the end of a payment code, and the test that a reader makes of it.
use mathlib.Core.List.{foldl}
use mathlib.Core.Option.{some_inj}
use filazero_local.Base.{
  ℕ, zero, suc, ◌-◌, ◌<◌, ◌≤◌, ap, ◌∙◌, take-append, drop-append, ◌≡◌, true, some, [], ◌∷◌, ◌++◌,
  arith, length, take, drop, Text, same_text_refl, length-append, subst,
}
use filazero_local.Qr.Encoding.{Bytes, utf8, codes, to_upper, >>=-eq-some}
use filazero_local.Qr.Numbers.{
  length-hex_four, hex_four-is_tidy, is_tidy-is_ascii, is_tidy-upper, is_tidy,
}
use filazero_local.Qr.Crc.{crc_bit, crc_bits, crc_byte, crc16ccitt, verify_emv_co_checksum}
use filazero_local.Qr.Payload.{
  AngolaBankQrInput, with_checksum, build_angola_bank_qr, assert_qr_input, qr_body,
}

crc_bits-lt : (rounds crc : ℕ) → crc_bits (suc rounds) crc < 0x10000
unfolding crc_bits
crc_bits-lt zero crc = ground arith
crc_bits-lt (suc rounds) crc = crc_bits-lt rounds (crc_bit crc)

crc_byte-lt : (bytes : Bytes) (crc : ℕ) → crc < 0x10000 → foldl crc_byte crc bytes < 0x10000
unfolding crc_byte
crc_byte-lt [] crc h = h
crc_byte-lt (b ∷ bytes) crc h = crc_byte-lt bytes (crc_byte crc b) (crc_bits-lt 7 _)

length-crc16ccitt : (s : Text) → length (crc16ccitt s) ≡ 4
unfolding crc16ccitt
length-crc16ccitt s = length-hex_four _ (crc_byte-lt (utf8 s) 0xffff (omega arith))

crc16ccitt-is_tidy : (s : Text) → is_tidy (crc16ccitt s) ≡ true
unfolding crc16ccitt
crc16ccitt-is_tidy s = hex_four-is_tidy _

to_upper_tidy : (unicode : Text → Text) (s : Text) → is_tidy s ≡ true → to_upper unicode s ≡ s
unfolding to_upper
to_upper_tidy unicode s h = ground (arith, is_tidy-is_ascii s h, is_tidy-upper s h)

-- A text that ends in the checksum of what stands before passes the test.
verify-append :
    (unicode : Text → Text) (s : Text)
    → 4 ≤ length s
    → verify_emv_co_checksum unicode (s ++ crc16ccitt s) ≡ true
unfolding verify_emv_co_checksum
verify-append unicode s h =
    let shown = crc16ccitt s in
    let size : length (s ++ shown) - 4 ≡ length s =
      omega (arith, length-append s shown, length-crc16ccitt s) in
    ground (
      arith,
      length-append s shown,
      length-crc16ccitt s,
      ap (λ n. take n (s ++ shown)) size ∙ take-append s shown,
      ap (λ n. drop n (s ++ shown)) size ∙ drop-append s shown,
      to_upper_tidy unicode shown (crc16ccitt-is_tidy s),
      same_text_refl shown,
    )

-- A payment code that `buildAngolaBankQr` returns, for whatever input, passes the test
-- `verifyEmvCoChecksum` of its reader.
pub verify_emv_co_checksum-build_angola_bank_qr :
    (unicode : Text → Text) (input : AngolaBankQrInput) (payload : Text)
    → build_angola_bank_qr unicode input ≡ some payload
    → verify_emv_co_checksum unicode payload ≡ true
unfolding build_angola_bank_qr with_checksum
verify_emv_co_checksum-build_angola_bank_qr unicode input payload built =
    let (u, passed, rest) = >>=-eq-some (assert_qr_input unicode input) _ built in
    let (body, shown, same) = >>=-eq-some (qr_body unicode input) _ rest in
    let start = body ++ codes "6304" in
    subst (λ t. verify_emv_co_checksum unicode t ≡ true) (some_inj.0 same)
      (verify-append unicode start (omega (arith, length-append body (codes "6304"))))
