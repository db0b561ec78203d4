-- ===== src/Qr/Payload.antt =====
-- `formatQrAmount`, `assertQrInput`, `buildAngolaBankQr` and `tryBuildAngolaBankQr`.
use filazero_local.Base.{
  ℕ, ◌/◌, ◌%◌, Bool, true, false, Option, none, some, List, [], ◌∷◌, ◌++◌, ◌==◌, if◌then◌else◌,
  length, take, Text, trim, is_some, not,
}
use filazero_local.Qr.Encoding.{codes, to_string, pad_start, ◌>>=◌}
use filazero_local.Qr.Tlv.{tlv}
use filazero_local.Qr.Crc.{crc16ccitt}
use filazero_local.Qr.Iban.{to_angola_iban, is_valid_angola_iban}

-- A number of cents, or one that is negative or not an integer.
pub data Amount : Type 0 where
  cents : ℕ → Amount
  not_cents : Amount

pub record AngolaBankQrInput : Type 0 where
  pub iban : Text
  pub merchant_name : Text
  pub merchant_city : Option Text
  pub amount_cents : Option Amount
  pub reference : Text
  pub acquirer_gui : Option Text
  pub merchant_category_code : Option Text

-- `(amountCents / 100).toFixed(2)`, which is exact below 2 ^ 50.
unfoldable pub format_qr_amount : Amount → Option Text
format_qr_amount Amount.not_cents = none
format_qr_amount (Amount.cents n) =
    some (to_string 10 (n / 100) ++ codes "." ++ pad_start 2 (to_string 10 (n % 100)))

-- `if (!test) throw`
abbrev pub check : Bool → Option (Unit {0})
check false = none
check true = some tt

abbrev pub is_blank : Text → Bool
is_blank s = length (trim s) == 0

abbrev pub is_amount : Option Amount → Bool
is_amount none = true
is_amount (some (Amount.cents n)) = true
is_amount (some Amount.not_cents) = false

unfoldable pub assert_qr_input : (Text → Text) → AngolaBankQrInput → Option (Unit {0})
assert_qr_input unicode input = do
  _ ← check (is_valid_angola_iban unicode input.iban)
  _ ← check (not (is_blank input.merchant_name))
  _ ← check (not (is_blank input.reference))
  check (is_amount input.amount_cents)

-- `input.acquirerGui ? tlv("00", input.acquirerGui) : ""`
abbrev pub gui_element : Option Text → Option Text
gui_element none = some []
gui_element (some gui) = if length gui == 0 then some [] else tlv (codes "00") gui

-- `dynamic ? tlv("54", formatQrAmount(amount)) : ""`
abbrev pub amount_element : Option Amount → Option Text
amount_element none = some []
amount_element (some amount) = format_qr_amount amount >>= tlv (codes "54")

abbrev pub or_else : Option Text → Text → Text
or_else none default = default
or_else (some s) default = s

-- `[...].join("")`
abbrev pub join : List (Option Text) → Option Text
join [] = some []
join (element ∷ elements) = element >>= λ s. join elements >>= λ rest. some (s ++ rest)

unfoldable pub qr_body : (Text → Text) → AngolaBankQrInput → Option Text
qr_body unicode input = do
  domestic ← join (
      gui_element input.acquirer_gui
      ∷ tlv (codes "01") (to_angola_iban unicode input.iban)
      ∷ tlv (codes "02") input.reference
      ∷ [])
  additional ← join (tlv (codes "01") input.reference ∷ tlv (codes "05") input.reference ∷ [])
  join (
      tlv (codes "00") (codes "01")
      ∷ tlv (codes "01") (if is_some input.amount_cents then codes "12" else codes "11")
      ∷ tlv (codes "26") domestic
      ∷ tlv (codes "52") (or_else input.merchant_category_code (codes "0000"))
      ∷ tlv (codes "53") (codes "973")
      ∷ amount_element input.amount_cents
      ∷ tlv (codes "58") (codes "AO")
      ∷ tlv (codes "59") (take 25 (trim input.merchant_name))
      ∷ tlv (codes "60") (take 15 (trim (or_else input.merchant_city (codes "Luanda"))))
      ∷ tlv (codes "62") additional
      ∷ [])

unfoldable pub with_checksum : Text → Text
with_checksum body = body ++ codes "6304" ++ crc16ccitt (body ++ codes "6304")

unfoldable pub build_angola_bank_qr : (Text → Text) → AngolaBankQrInput → Option Text
unfolding assert_qr_input qr_body with_checksum
build_angola_bank_qr unicode input = do
  _ ← assert_qr_input unicode input
  body ← qr_body unicode input
  some (with_checksum body)
