-- ===== src/Checks/Codes.antt =====
-- Tests of src/server/billing/qr-payment.ts.
use filazero_local.Base.{◌≡◌, refl, true, false, none, some, List, [], ◌∷◌, Text, map, arith}
use filazero_local.Qr.Encoding.{codes, utf8, utf8_after, to_string, to_upper}
use filazero_local.Qr.Tlv.{tlv, parse_tlv, parse_from}
use filazero_local.Qr.Crc.{crc16ccitt, crc_byte, crc_bits, crc_bit, verify_emv_co_checksum}
use filazero_local.Qr.Checksum.{verify_emv_co_checksum-build_angola_bank_qr}
use filazero_local.Qr.IbanLaws.{is_valid_angola_iban-bban}
use filazero_local.Qr.OneDigit.{has_check_digits-one_place}
use filazero_local.Qr.RoundTrip.{parse_tlv-join, element}
use filazero_local.Qr.Rounds.{parse_tlv_total}
use filazero_local.Qr.Iban.{
  to_angola_iban, is_valid_angola_iban, promote, check_digits, letters_as_numbers, normalize_iban,
  has_check_digits,
}
use filazero_local.Qr.Payload.{
  Amount, AngolaBankQrInput, format_qr_amount, build_angola_bank_qr, qr_body, with_checksum,
  assert_qr_input,
}

abbrev as_is : Text → Text
as_is s = s

-- The published check value of the checksum.
published_check : crc16ccitt (codes "123456789") ≡ codes "29B1"
unfolding crc16ccitt crc_byte crc_bits crc_bit utf8 to_string
published_check = refl

abbrev sample_account : Text
sample_account = codes "005100002109917510176"

abbrev sample_input : AngolaBankQrInput
sample_input = record {
  iban = sample_account;
  merchant_name = codes "Clinica";
  merchant_city = none;
  amount_cents = some (Amount.cents 123456);
  reference = codes "FT1";
  acquirer_gui = none;
  merchant_category_code = none;
}

-- The text that stands for the sample, as computed.
sample_code : (payload : Text) × (build_angola_bank_qr as_is sample_input ≡ some payload)
unfolding build_angola_bank_qr assert_qr_input qr_body with_checksum format_qr_amount crc16ccitt
    crc_byte crc_bits crc_bit utf8 to_string tlv to_angola_iban is_valid_angola_iban promote
    check_digits letters_as_numbers normalize_iban has_check_digits to_upper
sample_code = (_, refl)

verify_emv_co_checksum-build_angola_bank_qr_example :
    verify_emv_co_checksum as_is sample_code.0 ≡ true
verify_emv_co_checksum-build_angola_bank_qr_example =
    verify_emv_co_checksum-build_angola_bank_qr as_is sample_input sample_code.0 sample_code.1

is_valid_angola_iban-bban_example : is_valid_angola_iban as_is sample_account ≡ true
unfolding normalize_iban to_upper
is_valid_angola_iban-bban_example = is_valid_angola_iban-bban as_is sample_account refl

abbrev sample_fields : List (Text × Text)
sample_fields = (codes "00", codes "01") ∷ (codes "59", codes "Clinica") ∷ []

abbrev sample_elements : Text
sample_elements = codes "0002015907Clinica"

parse_tlv-join_example : parse_tlv as_is sample_elements ≡ some (map element sample_fields)
unfolding tlv utf8 utf8_after to_string
parse_tlv-join_example = parse_tlv-join as_is sample_fields sample_elements refl (refl, (refl, tt))

parse_tlv_total_example :
    parse_from as_is 100 (utf8 sample_elements) ≡ parse_tlv as_is sample_elements
unfolding utf8 utf8_after
parse_tlv_total_example = parse_tlv_total as_is sample_elements 100 (omega arith)

-- The last digit of the account, 6, read as 7.
has_check_digits-one_place_example : has_check_digits (codes "AO06005100002109917510177") ≡ false
unfolding has_check_digits letters_as_numbers to_string
has_check_digits-one_place_example =
    has_check_digits-one_place (codes "AO0600510000210991751017") [] 54 55 refl (omega arith)

truncated : parse_tlv as_is (codes "0002015907Clin") ≡ none
unfolding parse_tlv parse_from utf8 utf8_after
truncated = refl
