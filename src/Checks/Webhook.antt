-- ===== src/Checks/Webhook.antt =====
-- Tests of the webhook of the payment providers.
use filazero_local.Base.{ℕ, ◌≡◌, refl, none, some, Text, ◌/◌, arith}
use filazero_local.Errors.{ok}
use filazero_local.Qr.Encoding.{codes, to_string, utf8, utf8_after}
use filazero_local.Checks.Sample.{start}
use filazero_local.Checks.Billing.{sample_env, sample_billing}
use filazero_local.Invoices.Rules.{build_invoice_number, format_series_code}
use filazero_local.Invoices.Signing.{sign_invoice}
use filazero_local.Billing.Dates.{civil, locate_year, is_leap}
use filazero_local.Invoices.Series.{allocate_invoice_number, previous_invoice_hash}
use filazero_local.Invoices.Payment.{with_invoice}
use filazero_local.Invoices.Webhook.{
  apply_payment_event, settle, pay, write_event, issue_invoice, write_invoice,
}
use filazero_local.Webhooks.Signature.{
  SignatureVerification, SignatureFailure, verify_signature, parse_header, build_signature_header,
}
use filazero_local.Webhooks.Events.{
  Json, Fields, NormalizedPaymentEvent, normalize_payment_event, event_of_type, gateway_event,
}
use filazero_local.Webhooks.Handle.{
  WebhookEnv, WebhookAnswer, Tables, webhook_secret_for, handle_payment_webhook,
  is_customer_payment_reference, apply_to_organization,
}
use filazero_local.Webhooks.SignatureRound.{verify_signature-build_signature_header}
use filazero_local.Webhooks.SignatureLaws.{IsSigned, handle_payment_webhook-IsSigned}

-- A code that a test can see through: the secret and the text.
abbrev open_hmac : Text → Text → Text
open_hmac secret s = codes "ab"

abbrev sample_json : Json
sample_json = Json.object (
    Fields.field (codes "id") (Json.text (codes "evt")) (
      Fields.field (codes "type") (Json.text (codes "payment.succeeded")) (
        Fields.field (codes "data")
          (Json.object
            (Fields.field (codes "reference") (Json.text (codes " ref ")) Fields.no_fields))
          Fields.no_fields)))

abbrev sample_webhook : WebhookEnv
sample_webhook = record {
  billing = sample_env;
  stripe_webhook_secret = none;
  payment_webhook_secret = some (codes "secret");
  tolerance_seconds = 300;
  hmac = open_hmac;
  parse = λ s. some sample_json;
  parse_date = λ s. none;
  number_of = λ s. 101;
}

own_header :
    verify_signature open_hmac
      (codes "secret")
      (some (build_signature_header open_hmac (codes "secret") (codes "{}") 100))
      (codes "{}")
      300
      150
    ≡ SignatureVerification.accepted 100
unfolding verify_signature build_signature_header parse_header to_string utf8 utf8_after
own_header = refl

stale_header :
    verify_signature open_hmac (codes "secret") (some (codes "t=100,v1=ab")) (codes "{}") 300 401
    ≡ SignatureVerification.refused SignatureFailure.expired
unfolding verify_signature parse_header
stale_header = refl

sample_answer :
    (r : WebhookAnswer × Tables) × (handle_payment_webhook sample_webhook
        (codes "{}")
        (some (codes "v1=ab, t=100"))
        100000
        (start, sample_billing)
      ≡ ok r)
unfolding handle_payment_webhook verify_signature parse_header to_string utf8 utf8_after
    normalize_payment_event event_of_type gateway_event webhook_secret_for
    is_customer_payment_reference apply_to_organization apply_payment_event settle pay write_event
    issue_invoice allocate_invoice_number write_invoice with_invoice previous_invoice_hash
    build_invoice_number sign_invoice format_series_code civil locate_year is_leap
sample_answer = (_, refl)

handle_payment_webhook-IsSigned_example :
    (event : NormalizedPaymentEvent) × (secret : Text) × (timestamp : ℕ) × (normalize_payment_event
        sample_webhook.parse sample_webhook.parse_date 100000
        (codes "{}")
      ≡ ok event)
    × (webhook_secret_for sample_webhook event.provider ≡ some secret)
    × IsSigned open_hmac secret
        (some (codes "v1=ab, t=100"))
        (codes "{}")
        300
        (100000 / 1000)
        timestamp
handle_payment_webhook-IsSigned_example =
    handle_payment_webhook-IsSigned sample_webhook (codes "{}") (some (codes "v1=ab, t=100")) 100000
      (start, sample_billing) sample_answer.0 sample_answer.1

verify_signature-build_signature_header_example :
    verify_signature open_hmac
      (codes "secret")
      (some (build_signature_header open_hmac (codes "secret") (codes "{}") 100))
      (codes "{}")
      300
      400
    ≡ SignatureVerification.accepted 100
verify_signature-build_signature_header_example =
    verify_signature-build_signature_header open_hmac (codes "secret") (codes "{}") 100 300 400 refl
      (omega arith) (omega arith)
