-- ===== src/Webhooks/Signature.antt =====
-- src/server/billing/signature.ts. `hmac` is HMAC-SHA256 in hexadecimal, of a cryptographic library:
-- from the secret and the text. Times are in seconds.
use mathlib.Core.List.{foldl}
use filazero_local.Base.{
  ℕ, ◌+◌, ◌-◌, Bool, true, false, not, ◌&&◌, ◌||◌, Option, none, some, List, [], ◌∷◌, ◌++◌, ltb,
  ◌==◌, if◌then◌else◌, length, Text, trim, same_text,
}
use filazero_local.Qr.Encoding.{codes, utf8, to_string}
use filazero_local.Qr.Decimal.{value}
use filazero_local.Qr.Iban.{all_digits}

pub data SignatureFailure : Type 0 where
  malformed expired mismatch missing : SignatureFailure

pub data SignatureVerification : Type 0 where
  accepted : (timestamp : ℕ) → SignatureVerification
  refused : (reason : SignatureFailure) → SignatureVerification

-- The parts of a text between commas.
abbrev pub split_commas : Text → Text → List Text
split_commas part [] = part ∷ []
split_commas part (c ∷ s) = elim (c == 44) [
  | true ↦ part ∷ split_commas [] s
  | false ↦ split_commas (part ++ c ∷ []) s
]

-- The text in front of the first `=` and the text behind it, if there is one.
abbrev pub at_separator : Text → Text → Option (Text × Text)
at_separator key [] = none
at_separator key (c ∷ s) = elim (c == 61) [
  | true ↦ some (key, s)
  | false ↦ at_separator (key ++ c ∷ []) s
]

-- `t` and `v1`, where they are given.
pub record SignatureHeader : Type 0 where
  pub t : Option Text
  pub v1 : Option Text

abbrev pub read_pair : SignatureHeader → Option (Text × Text) → SignatureHeader
read_pair parsed none = parsed
read_pair parsed (some (key, v)) =
    if same_text (trim key) (codes "t")
    then record parsed { t = some (trim v) }
    else if same_text (trim key) (codes "v1")
    then record parsed { v1 = some (trim v) }
    else parsed

unfoldable pub parse_header : Text → SignatureHeader
parse_header header =
    foldl (λ parsed part. read_pair parsed (at_separator [] part)) (record { t = none; v1 = none })
      (split_commas [] header)

-- `Buffer.from(a).equals(b)`, in constant time.
abbrev pub safe_equal : Text → Text → Bool
safe_equal a b = same_text (utf8 a) (utf8 b)

-- `Math.abs(now - timestamp)`
abbrev pub distance : ℕ → ℕ → ℕ
distance a b = (a - b) + (b - a)

abbrev pub is_number : Text → Bool
is_number t = all_digits t && not (length t == 0)

module _ (hmac : Text → Text → Text) where
  abbrev pub compute_signature : Text → ℕ → Text → Text
  compute_signature secret timestamp payload =
      hmac secret (to_string 10 timestamp ++ codes "." ++ payload)

  unfoldable pub build_signature_header : Text → Text → ℕ → Text
  build_signature_header secret payload timestamp =
      codes "t="
      ++ to_string 10 timestamp
      ++ codes ",v1="
      ++ compute_signature secret timestamp payload

  -- What follows once the timestamp and the signature have been found in the header.
  abbrev pub check_signature : Text → Text → ℕ → ℕ → Text → Text → SignatureVerification
  check_signature secret payload tolerance now t v1 =
      if length v1 == 0 || not (is_number t)
      then SignatureVerification.refused SignatureFailure.malformed
      else if ltb tolerance (distance now (value 0 t))
      then SignatureVerification.refused SignatureFailure.expired
      else if safe_equal (compute_signature secret (value 0 t) payload) v1
      then SignatureVerification.accepted (value 0 t)
      else SignatureVerification.refused SignatureFailure.mismatch

  abbrev pub check_parsed : Text → Text → ℕ → ℕ → Option Text → Option Text → SignatureVerification
  check_parsed secret payload tolerance now (some t) (some v1) =
      check_signature secret payload tolerance now t v1
  check_parsed secret payload tolerance now _ _ =
      SignatureVerification.refused SignatureFailure.malformed

  unfoldable pub verify_signature : Text → Option Text → Text → ℕ → ℕ → SignatureVerification
  unfolding parse_header
  verify_signature secret none payload tolerance now =
      SignatureVerification.refused SignatureFailure.missing
  verify_signature secret (some header) payload tolerance now =
      let parsed = parse_header header in
      if length header == 0
      then SignatureVerification.refused SignatureFailure.missing
      else check_parsed secret payload tolerance now parsed.t parsed.v1
