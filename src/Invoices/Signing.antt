-- ===== src/Invoices/Signing.antt =====
-- src/server/billing/invoice-signing.ts: the signature of a document. `rsa_sign` and `hmac` are of a
-- cryptographic library: RSA-SHA256 under a private key, in base64, which throws if the key is none,
-- and HMAC-SHA256 under a secret, in hexadecimal.
use filazero_local.Base.{Option, none, some, Bool, true, false, ◌==◌, if◌then◌else◌, length, Text}
use filazero_local.Errors.{Result, ok, ErrorCode, or_throw, ◌>>=◌}
use filazero_local.Qr.Encoding.{codes}

pub record InvoiceSignature : Type 0 where
  pub hash : Text
  pub certified : Bool

-- The settings of the signature, and the two functions of the library.
pub record SigningEnv : Type 0 where
  pub agt_private_key : Option Text
  pub agt_hash_secret : Option Text
  pub payment_webhook_secret : Option Text
  pub rsa_sign : Text → Text → Option Text
  pub hmac : Text → Text → Text

-- `AGT_HASH_SECRET ?? PAYMENT_WEBHOOK_SECRET ?? "filazero-invoice-integrity"`
abbrev pub hash_secret : Option Text → Option Text → Text
hash_secret (some secret) other = secret
hash_secret none (some secret) = secret
hash_secret none none = codes "filazero-invoice-integrity"

abbrev pub integrity_hash : SigningEnv → Text → InvoiceSignature
integrity_hash env canonical = record {
  hash = env.hmac (hash_secret env.agt_hash_secret env.payment_webhook_secret) canonical;
  certified = false;
}

abbrev pub certified_signature : SigningEnv → Text → Text → Result InvoiceSignature
certified_signature env key canonical = do
  hash ← or_throw (env.rsa_sign key canonical) ErrorCode.internal
  ok (record { hash = hash; certified = true })

-- The signature, by the key that is configured; an empty one counts as none.
abbrev pub sign_by : SigningEnv → Option Text → Text → Result InvoiceSignature
sign_by env none canonical = ok (integrity_hash env canonical)
sign_by env (some key) canonical =
    if length key == 0
    then ok (integrity_hash env canonical)
    else certified_signature env key canonical

unfoldable pub sign_invoice : SigningEnv → Text → Result InvoiceSignature
sign_invoice env canonical = sign_by env env.agt_private_key canonical
