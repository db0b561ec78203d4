-- ===== src/Errors.antt =====
-- src/lib/errors.ts: the error codes, their HTTP status, and fallible code as a value. A thrown
-- `AppError` is its code; the message texts, details and headers are left out.
use filazero_local.Base.{
  ap, ℕ, ◌≡◌, refl, ◌⊎◌, inl, inr, Bool, true, false, Option, none, some, arith,
}

pub data ErrorCode : Type 0 where
  bad_request validation_error unauthenticated forbidden not_found conflict : ErrorCode
  queue_closed invalid_state session_expired rate_limited payment_required : ErrorCode
  quota_exceeded service_unavailable internal : ErrorCode

unfoldable pub status_by_code : ErrorCode → ℕ
status_by_code ErrorCode.bad_request = 400
status_by_code ErrorCode.validation_error = 422
status_by_code ErrorCode.unauthenticated = 401
status_by_code ErrorCode.session_expired = 401
status_by_code ErrorCode.forbidden = 403
status_by_code ErrorCode.not_found = 404
status_by_code ErrorCode.conflict = 409
status_by_code ErrorCode.queue_closed = 409
status_by_code ErrorCode.invalid_state = 409
status_by_code ErrorCode.rate_limited = 429
status_by_code ErrorCode.payment_required = 402
status_by_code ErrorCode.quota_exceeded = 403
status_by_code ErrorCode.service_unavailable = 503
status_by_code ErrorCode.internal = 500

-- What a service returns, or the code of the error that it throws.
pub data Result {ℓ} (A : Type ℓ) : Type ℓ where
  ok : A → Result A
  err : ErrorCode → Result A

infixl 5 ◌>>◌ ◌>>=◌
abbrev pub ◌>>=◌ {ℓ κ} : {A : Type ℓ} {B : Type κ} → Result A → (A → Result B) → Result B
err code >>= go_on = err code
ok a >>= go_on = go_on a

abbrev pub ◌>>◌ {ℓ} : {A : Type ℓ} → Result (Unit {0}) → Result A → Result A
check >> rest = check >>= λ _. rest

-- `if (!test) throw error`
abbrev pub require : Bool → ErrorCode → Result (Unit {0})
require false code = err code
require true code = ok tt

-- `if (!row) throw error`
abbrev pub or_throw {ℓ} : {A : Type ℓ} → Option A → ErrorCode → Result A
or_throw none e = err e
or_throw (some a) e = ok a

pub >>=-eq-ok {ℓ κ} :
    {A : Type ℓ} {B : Type κ} (first : Result A) (go_on : A → Result B) {b : B}
    → (first >>= go_on) ≡ ok b
    → (a : A) × (first ≡ ok a) × (go_on a ≡ ok b)
>>=-eq-ok (err code) go_on h = cc
>>=-eq-ok (ok a) go_on h = (a, refl, h)

pub ok_inj {ℓ} : {A : Type ℓ} {a b : A} → ok a ≡ ok b → a ≡ b
ok_inj h = cc

pub require-eq-ok : (b : Bool) (e : ErrorCode) → require b e ≡ ok tt → b ≡ true
require-eq-ok b e h = ground arith

pub or_throw-eq-ok {ℓ} :
    {A : Type ℓ} (o : Option A) (e : ErrorCode) {a : A} → or_throw o e ≡ ok a → o ≡ some a
or_throw-eq-ok none e h = cc
or_throw-eq-ok (some b) e h = ap some (ok_inj h)

pub Result-cases {ℓ} :
    {A : Type ℓ} (m : Result A) → ((e : ErrorCode) × (m ≡ err e)) ⊎ ((a : A) × (m ≡ ok a))
Result-cases (ok a) = inr (a, refl)
Result-cases (err e) = inl (e, refl)
