-- ===== src/Webhooks/SignatureLaws.antt =====
-- Who can make the webhook do anything: the holder of the secret.
use filazero_local.Base.{
  ℕ, ◌/◌, ◌≤◌, ◌≡◌, refl, Bool, true, false, not, ◌||◌, Option, none, some, arith, ap, subst,
  length, Text, ltb, ◌==◌, same_text_eq, if◌then◌else◌,
}
use filazero_local.Errors.{ok, >>=-eq-ok, or_throw-eq-ok, or_throw, ErrorCode, ok_inj}
use filazero_local.Qr.Encoding.{utf8}
use filazero_local.Qr.Decimal.{value}
use filazero_local.Webhooks.Signature.{
  SignatureVerification, SignatureFailure, parse_header, safe_equal, distance, is_number,
  compute_signature, check_signature, check_parsed, verify_signature,
}
use filazero_local.Webhooks.Events.{NormalizedPaymentEvent, normalize_payment_event}
use filazero_local.Webhooks.Handle.{
  WebhookEnv, WebhookAnswer, Tables, webhook_secret_for, assert_verified, handle_payment_webhook,
}

picked :
    (b c d : Bool) (n timestamp : ℕ)
    → (if b
        then SignatureVerification.refused SignatureFailure.malformed
        else if c
        then SignatureVerification.refused SignatureFailure.expired
        else if d
        then SignatureVerification.accepted n
        else SignatureVerification.refused SignatureFailure.mismatch)
      ≡ SignatureVerification.accepted timestamp
    → (c ≡ false) × (d ≡ true) × (n ≡ timestamp)
picked b c d n timestamp h = ground (arith, h)

module _ (hmac : Text → Text → Text) where
  -- The header has a time in the tolerance and the signature of this time and the payload.
  abbrev pub IsSigned : Text → Option Text → Text → ℕ → ℕ → ℕ → Type 0
  IsSigned secret header payload tolerance now timestamp =
      (h : Text) × (t : Text) × (v1 : Text) × (header ≡ some h)
      × ((parse_header h).t ≡ some t)
      × ((parse_header h).v1 ≡ some v1)
      × (value 0 t ≡ timestamp)
      × (distance now timestamp ≤ tolerance)
      × (utf8 (compute_signature hmac secret timestamp payload) ≡ utf8 v1)

  check_signature-parts :
      (secret payload : Text) (tolerance now : ℕ) (t v1 : Text) (timestamp : ℕ)
      → check_signature hmac secret payload tolerance now t v1
        ≡ SignatureVerification.accepted timestamp
      → (value 0 t ≡ timestamp)
        × (distance now timestamp ≤ tolerance)
        × (safe_equal (compute_signature hmac secret timestamp payload) v1 ≡ true)
  check_signature-parts secret payload tolerance now t v1 timestamp h =
      let n = value 0 t in
      let (near, equal, same) =
        picked (length v1 == 0 || not (is_number t)) (ltb tolerance (distance now n))
          (safe_equal (compute_signature hmac secret n payload) v1) n timestamp h in
      let close : distance now n ≤ tolerance = ground (arith, near) in
      (
        same,
        subst (λ m. distance now m ≤ tolerance) same close,
        subst (λ m. safe_equal (compute_signature hmac secret m payload) v1 ≡ true) same equal,
      )

  check_parsed-parts :
      (secret payload : Text) (tolerance now : ℕ) (t v1 : Option Text) (timestamp : ℕ)
      → check_parsed hmac secret payload tolerance now t v1
        ≡ SignatureVerification.accepted timestamp
      → (a : Text) × (b : Text) × (t ≡ some a)
        × (v1 ≡ some b)
        × (value 0 a ≡ timestamp)
        × (distance now timestamp ≤ tolerance)
        × (safe_equal (compute_signature hmac secret timestamp payload) b ≡ true)
  check_parsed-parts secret payload tolerance now none none timestamp h = cc
  check_parsed-parts secret payload tolerance now none (some b) timestamp h = cc
  check_parsed-parts secret payload tolerance now (some a) none timestamp h = cc
  check_parsed-parts secret payload tolerance now (some a) (some b) timestamp h =
      let (same, close, equal) =
        check_signature-parts secret payload tolerance now a b timestamp h in
      (a, b, refl, refl, same, close, equal)

  verify_signature-IsSigned :
      (secret : Text) (header : Option Text) (payload : Text) (tolerance now timestamp : ℕ)
      → verify_signature hmac secret header payload tolerance now
        ≡ SignatureVerification.accepted timestamp
      → IsSigned secret header payload tolerance now timestamp
  unfolding verify_signature
  verify_signature-IsSigned secret none payload tolerance now timestamp h = cc
  verify_signature-IsSigned secret (some header) payload tolerance now timestamp h =
      let parsed = parse_header header in
      let checked : check_parsed hmac secret payload tolerance now parsed.t parsed.v1
          ≡ SignatureVerification.accepted timestamp =
        ground (arith, h) in
      let (a, b, is_a, is_b, same, close, equal) =
        check_parsed-parts secret payload tolerance now parsed.t parsed.v1 timestamp checked in
      (header, a, b, refl, is_a, is_b, same, close, same_text_eq _ _ equal)

assert_verified-accepted :
    (v : SignatureVerification) (timestamp : ℕ)
    → assert_verified v ≡ ok timestamp
    → v ≡ SignatureVerification.accepted timestamp
assert_verified-accepted (SignatureVerification.accepted n) timestamp h =
    ap SignatureVerification.accepted (ok_inj h)
assert_verified-accepted (SignatureVerification.refused reason) timestamp h = cc

-- An event does something, or is answered as a duplicate, only if the header of the request has the
-- HMAC of its time and of the very body that was read, under the secret of the provider that the
-- event names, and this time is in the tolerance.
pub handle_payment_webhook-IsSigned :
    (env : WebhookEnv) (raw_body : Text) (header : Option Text) (now : ℕ) (tables : Tables)
    (r : WebhookAnswer × Tables)
    → handle_payment_webhook env raw_body header now tables ≡ ok r
    → (event : NormalizedPaymentEvent) × (secret : Text) × (timestamp : ℕ)
      × (normalize_payment_event env.parse env.parse_date now raw_body ≡ ok event)
      × (webhook_secret_for env event.provider ≡ some secret)
      × IsSigned env.hmac secret header raw_body env.tolerance_seconds (now / 1000) timestamp
unfolding handle_payment_webhook
handle_payment_webhook-IsSigned env raw_body header now tables r h =
    let (event, read, rest) =
      >>=-eq-ok (normalize_payment_event env.parse env.parse_date now raw_body) _ h in
    let (secret, named, rest) =
      >>=-eq-ok (or_throw (webhook_secret_for env event.provider) ErrorCode.service_unavailable) _
        rest in
    let verified =
      verify_signature env.hmac secret header raw_body env.tolerance_seconds (now / 1000) in
    let (timestamp, passed, _) = >>=-eq-ok (assert_verified verified) _ rest in
    (
      event,
      secret,
      timestamp,
      read,
      or_throw-eq-ok _ ErrorCode.service_unavailable named,
      verify_signature-IsSigned env.hmac secret header raw_body env.tolerance_seconds (now / 1000)
          timestamp (assert_verified-accepted verified timestamp passed),
    )
