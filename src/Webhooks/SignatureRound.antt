-- ===== src/Webhooks/SignatureRound.antt =====
-- The header that `buildSignatureHeader` writes is one that `verifySignature` accepts.
use mathlib.Core.List.{foldl, append-nil, append_assoc, reverse, reverse-cons, reverse-reverse}
use filazero_local.Base.{
  ℕ, suc, ◌≤◌, ◌<◌, ◌≡◌, refl, Bool, true, false, not, ◌&&◌, ◌||◌, none, some, [], ◌∷◌, ◌++◌, arith,
  ap, sym, ◌∙◌, length, Text, ltb, leb, ◌==◌, if◌then◌else◌, is_digit, is_space, drop_while, trim,
  same_text_refl, List,
}
use filazero_local.Qr.Encoding.{codes, to_string, utf8}
use filazero_local.Qr.Decimal.{value, value-print_onto, all_digits-print_onto, print_onto-filled}
use filazero_local.Qr.Iban.{all_digits}
use filazero_local.Webhooks.Signature.{
  SignatureVerification, SignatureFailure, split_commas, parse_header, read_pair, at_separator,
  safe_equal, distance, is_number, compute_signature, build_signature_header, check_parsed,
  verify_signature, SignatureHeader,
}

-- A digit, or a letter from `a` to `f`.
abbrev pub is_hex : ℕ → Bool
is_hex c = is_digit c || (leb 97 c && leb c 102)

abbrev pub all_hex : Text → Bool
all_hex [] = true
all_hex (c ∷ s) = is_hex c && all_hex s

all_hex-append : (s t : Text) → all_hex s ≡ true → all_hex t ≡ true → all_hex (s ++ t) ≡ true
all_hex-append [] t hs ht = ht
all_hex-append (c ∷ s) t hs ht = ground (arith, all_hex-append s t, hs, ht)

all_hex-digits : (s : Text) → all_digits s ≡ true → all_hex s ≡ true
all_hex-digits [] h = refl
all_hex-digits (c ∷ s) h = ground (arith, all_hex-digits s, h)

drop_while-hex : (s : Text) → all_hex s ≡ true → drop_while is_space s ≡ s
drop_while-hex [] h = refl
drop_while-hex (c ∷ s) h = ground (arith, h)

all_hex-reverse : (s : Text) → all_hex s ≡ true → all_hex (reverse s) ≡ true
all_hex-reverse [] h = refl
all_hex-reverse (c ∷ s) h =
    ap all_hex (reverse-cons c s)
    ∙ all_hex-append (reverse s) (c ∷ []) (all_hex-reverse s (ground (arith, h)))
        (ground (arith, h))

trim-hex : (s : Text) → all_hex s ≡ true → trim s ≡ s
trim-hex s h =
    ap (λ t. reverse (drop_while is_space (reverse t))) (drop_while-hex s h)
    ∙ ap reverse (drop_while-hex (reverse s) (all_hex-reverse s h))
    ∙ reverse-reverse s

split_commas-hex :
    (part s t : Text)
    → all_hex s ≡ true
    → split_commas part (s ++ 44 ∷ t) ≡ (part ++ s) ∷ split_commas [] t
split_commas-hex part [] t h = ap (λ u. u ∷ split_commas [] t) (sym (append-nil part))
split_commas-hex part (c ∷ s) t h =
    let same : (part ++ c ∷ []) ++ s ≡ part ++ c ∷ s = append_assoc part (c ∷ []) s in
    let rest = split_commas-hex (part ++ c ∷ []) s t (ground (arith, h)) in
    let found : split_commas part (c ∷ s ++ 44 ∷ t) ≡ split_commas (part ++ c ∷ []) (s ++ 44 ∷ t) =
      ground (arith, h) in
    found ∙ rest ∙ ap (λ u. u ∷ split_commas [] t) same

split_commas-last : (part s : Text) → all_hex s ≡ true → split_commas part s ≡ (part ++ s) ∷ []
split_commas-last part [] h = ap (λ u. u ∷ []) (sym (append-nil part))
split_commas-last part (c ∷ s) h =
    let same : (part ++ c ∷ []) ++ s ≡ part ++ c ∷ s = append_assoc part (c ∷ []) s in
    let rest = split_commas-last (part ++ c ∷ []) s (ground (arith, h)) in
    let found : split_commas part (c ∷ s) ≡ split_commas (part ++ c ∷ []) s = ground (arith, h) in
    found ∙ rest ∙ ap (λ u. u ∷ []) same

split_commas-build :
    (t v1 : Text)
    → all_hex t ≡ true
    → all_hex v1 ≡ true
    → split_commas [] (codes "t=" ++ t ++ codes ",v1=" ++ v1)
      ≡ (codes "t=" ++ t) ∷ (codes "v1=" ++ v1) ∷ []
split_commas-build t v1 ht hv =
    let tail = codes "v1=" ++ v1 in
    ap (split_commas []) (
      append_assoc (codes "t=" ++ t) (codes ",v1=") v1
      ∙ append_assoc (codes "t=") t (codes ",v1=" ++ v1))
    ∙ split_commas-hex (codes "t=") t tail ht
    ∙ ap (λ parts. (codes "t=" ++ t) ∷ parts) (split_commas-last (codes "v1=") v1 hv)

abbrev read_pairs : List Text → SignatureHeader
read_pairs =
    foldl (λ parsed part. read_pair parsed (at_separator [] part)) (record { t = none; v1 = none })

-- What is read back from the header.
parse_header-build :
    (t v1 : Text)
    → all_hex t ≡ true
    → all_hex v1 ≡ true
    → parse_header (codes "t=" ++ t ++ codes ",v1=" ++ v1) ≡ record { t = some t; v1 = some v1 }
unfolding parse_header
parse_header-build t v1 ht hv =
    let found : Text → Text → SignatureHeader = λ t v1. record { t = some t; v1 = some v1 } in
    let two : read_pairs ((codes "t=" ++ t) ∷ (codes "v1=" ++ v1) ∷ []) ≡ found (trim t) (trim v1) =
      refl in
    ap read_pairs (split_commas-build t v1 ht hv)
    ∙ two
    ∙ ap (λ t. found t (trim v1)) (trim-hex t ht)
    ∙ ap (found t) (trim-hex v1 hv)

verify_signature-header :
    (hmac : Text → Text → Text) (secret header payload : Text) (tolerance now : ℕ)
    → 0 < length header
    → verify_signature hmac secret (some header) payload tolerance now
      ≡ check_parsed hmac secret payload tolerance now
          (parse_header header).t
          (parse_header header).v1
unfolding verify_signature
verify_signature-header hmac secret header payload tolerance now h = ground (arith, h)

accepts :
    (b c d e : Bool) (n : ℕ)
    → b ≡ false
    → c ≡ true
    → d ≡ false
    → e ≡ true
    → (if b || not c
        then SignatureVerification.refused SignatureFailure.malformed
        else if d
        then SignatureVerification.refused SignatureFailure.expired
        else if e
        then SignatureVerification.accepted n
        else SignatureVerification.refused SignatureFailure.mismatch)
      ≡ SignatureVerification.accepted n
accepts b c d e n hb hc hd he = ground (arith, hb, hc, hd, he)

-- The header that is built for a payload is accepted, with its time, under the same secret while
-- the time is in the tolerance, if the code of the payload is written in hexadecimal digits.
pub verify_signature-build_signature_header :
    (hmac : Text → Text → Text) (secret payload : Text) (timestamp tolerance now : ℕ)
    → all_hex (compute_signature hmac secret timestamp payload) ≡ true
    → 0 < length (compute_signature hmac secret timestamp payload)
    → distance now timestamp ≤ tolerance
    → verify_signature hmac secret
        (some (build_signature_header hmac secret payload timestamp))
        payload
        tolerance
        now
      ≡ SignatureVerification.accepted timestamp
unfolding build_signature_header to_string
verify_signature-build_signature_header hmac secret payload timestamp tolerance now hex filled
      near =
    let t = to_string 10 timestamp in
    let v1 = compute_signature hmac secret timestamp payload in
    let digits : all_digits t ≡ true = all_digits-print_onto (suc timestamp) timestamp [] refl in
    let some_digit : 0 < length t = print_onto-filled timestamp timestamp in
    let read : value 0 t ≡ timestamp =
      value-print_onto (suc timestamp) timestamp [] (omega arith) in
    let same : safe_equal (compute_signature hmac secret (value 0 t) payload) v1 ≡ true =
      ap (λ n. safe_equal (compute_signature hmac secret n payload) v1) read
      ∙ same_text_refl (utf8 v1) in
    let header = build_signature_header hmac secret payload timestamp in
    verify_signature-header hmac secret header payload tolerance now (omega arith)
    ∙ ap (λ (p : SignatureHeader). check_parsed hmac secret payload tolerance now p.t p.v1)
        (parse_header-build t v1 (all_hex-digits t digits) hex)
    ∙ accepts (length v1 == 0) (is_number t) (ltb tolerance (distance now (value 0 t)))
        (safe_equal (compute_signature hmac secret (value 0 t) payload) v1) (value 0 t)
        (ground (arith, filled)) (ground (arith, digits, some_digit))
        (ap (λ n. ltb tolerance (distance now n)) read ∙ ground (arith, near)) same
    ∙ ap SignatureVerification.accepted read
