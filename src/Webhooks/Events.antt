-- ===== src/Webhooks/Events.antt =====
-- `normalizePaymentEvent` of src/server/billing/billing.rules.ts. `parse` is `JSON.parse`, none when
-- it throws, and `parse_date` is `new Date(s)`, none when it is not a date; `now` is the clock.
use filazero_local.Base.{
  ℕ, Bool, false, ◌||◌, Option, none, some, ◌==◌, if◌then◌else◌, length, Text, trim, same_text,
}
use filazero_local.Errors.{Result, ok, err, ErrorCode, or_throw, ◌>>=◌}
use filazero_local.Customer.Payments.{Outcome}
use filazero_local.Qr.Encoding.{codes}

-- What is asked of a JSON value: whether it is a text, and the fields of an object. Every other value
-- is taken like an object without fields.
mutual
  pub data Json : Type 0 where
    text : Text → Json
    object : Fields → Json
    other : Json

  pub data Fields : Type 0 where
    no_fields : Fields
    field : (name : Text) → Json → Fields → Fields

pub data PaymentProvider : Type 0 where
  invoice stripe : PaymentProvider

pub record NormalizedPaymentEvent : Type 0 where
  pub event_id : Text
  pub outcome : Outcome
  pub reference : Text
  pub provider_reference : Option Text
  pub paid_at : ℕ
  pub provider : PaymentProvider

abbrev pub as_record : Json → Fields
as_record (Json.object fields) = fields
as_record _ = Fields.no_fields

abbrev pub as_string : Json → Option Text
as_string (Json.text s) = if length (trim s) == 0 then none else some (trim s)
as_string _ = none

abbrev pub get : Text → Fields → Json
get name Fields.no_fields = Json.other
get name (Fields.field key v fields) =
    let rest = get name fields in if same_text key name then v else rest

abbrev pub or_empty : Option Text → Text
or_empty none = codes ""
or_empty (some s) = s

abbrev pub or_now : ℕ → Option ℕ → ℕ
or_now now none = now
or_now now (some date) = date

-- `paidAtRaw ? new Date(paidAtRaw) : new Date()`, and the clock for a date that is none.
abbrev pub paid_date : (Text → Option ℕ) → ℕ → Option Text → ℕ
paid_date parse_date now none = now
paid_date parse_date now (some s) = or_now now (parse_date s)

abbrev pub is_paid : Option Text → Bool
is_paid none = false
is_paid (some s) = same_text s (codes "paid") || same_text s (codes "no_payment_required")

abbrev pub outcome_if : Bool → Outcome
outcome_if b = if b then Outcome.succeeded else Outcome.failed

abbrev pub is_gateway_type : Text → Bool
is_gateway_type raw_type =
    same_text raw_type (codes "payment.succeeded") || same_text raw_type (codes "payment.failed")

-- An event of the gateway of the repository.
unfoldable pub gateway_event :
    (Text → Option ℕ) → ℕ → Text → Text → Fields → Result NormalizedPaymentEvent
gateway_event parse_date now event_id raw_type data_fields = do
  reference ← or_throw (as_string (get (codes "reference") data_fields)) ErrorCode.bad_request
  ok (record {
    event_id = event_id;
    outcome = outcome_if (same_text raw_type (codes "payment.succeeded"));
    reference = reference;
    provider_reference = as_string (get (codes "providerReference") data_fields);
    paid_at = paid_date parse_date now (as_string (get (codes "paidAt") data_fields));
    provider = PaymentProvider.invoice;
  })

-- An event of Stripe about the object `fields`.
unfoldable pub stripe_event : ℕ → Text → Outcome → Json → Fields → Result NormalizedPaymentEvent
stripe_event now event_id outcome reference_value fields = do
  reference ← or_throw (as_string reference_value) ErrorCode.bad_request
  ok (record {
    event_id = event_id;
    outcome = outcome;
    reference = reference;
    provider_reference = as_string (get (codes "id") fields);
    paid_at = now;
    provider = PaymentProvider.stripe;
  })

unfoldable pub event_of_type :
    (Text → Option ℕ) → ℕ → Text → Text → Fields → Result NormalizedPaymentEvent
event_of_type parse_date now event_id raw_type data_fields =
    let fields = as_record (get (codes "object") data_fields) in
    let reference = get (codes "reference") (as_record (get (codes "metadata") fields)) in
    if is_gateway_type raw_type
    then gateway_event parse_date now event_id raw_type data_fields
    else if same_text raw_type (codes "checkout.session.completed")
    then stripe_event now event_id
        (outcome_if (is_paid (as_string (get (codes "payment_status") fields))))
        (get (codes "client_reference_id") fields) fields
    else if same_text raw_type (codes "payment_intent.succeeded")
    then stripe_event now event_id Outcome.succeeded reference fields
    else if same_text raw_type (codes "payment_intent.payment_failed")
    then stripe_event now event_id Outcome.failed reference fields
    else err ErrorCode.bad_request

unfoldable pub normalize_payment_event :
    (Text → Option Json) → (Text → Option ℕ) → ℕ → Text → Result NormalizedPaymentEvent
normalize_payment_event parse parse_date now raw_body = do
  parsed ← or_throw (parse raw_body) ErrorCode.bad_request
  let event = as_record parsed
  event_id ← or_throw (as_string (get (codes "id") event)) ErrorCode.bad_request
  event_of_type parse_date now event_id (or_empty (as_string (get (codes "type") event)))
      (as_record (get (codes "data") event))
