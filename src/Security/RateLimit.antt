-- ===== src/Security/RateLimit.antt =====
-- src/server/security/rate-limit.rules.ts and rate-limit.service.ts: a counter for each key and each
-- fixed window. A key is the text that `ipKey` or `identityKey` makes.
use filazero_local.Base.{
  ℕ, ◌+◌, ◌-◌, ◌*◌, ◌/◌, Bool, not, ◌&&◌, Option, none, some, List, [], ◌∷◌, ltb, leb, ◌==◌,
  if◌then◌else◌, select, Text, same_text,
}
use filazero_local.Errors.{Result, ok, err, ErrorCode}

pub record RateLimitRule : Type 0 where
  pub window_seconds : ℕ
  pub max : ℕ

pub record RateLimitRuleSet : Type 0 where
  pub ip : RateLimitRule
  pub identity : Option RateLimitRule

pub data Scope : Type 0 where
  login register organization_register atm_report : Scope
  password_forgot password_reset password_change : Scope

abbrev rule : ℕ → ℕ → RateLimitRule
rule seconds most = record { window_seconds = seconds; max = most }

-- `register_max` is RATE_LIMIT_REGISTER_MAX, or 50 if that is no number or 0.
abbrev pub rate_limits : ℕ → Scope → RateLimitRuleSet
rate_limits register_max Scope.login = record { ip = rule 300 60; identity = some (rule 300 8) }
rate_limits register_max Scope.register = record { ip = rule 3600 register_max; identity = none }
rate_limits register_max Scope.organization_register = record { ip = rule 3600 5; identity = none }
rate_limits register_max Scope.atm_report = record { ip = rule 600 30; identity = none }
rate_limits register_max Scope.password_forgot = record {
  ip = rule 900 30;
  identity = some (rule 900 3);
}
rate_limits register_max Scope.password_reset = record { ip = rule 900 30; identity = none }
rate_limits register_max Scope.password_change = record { ip = rule 900 30; identity = none }

-- Times are milliseconds, windows are seconds.
unfoldable pub window_start : ℕ → ℕ → ℕ
window_start now window_seconds = now / (window_seconds * 1000) * (window_seconds * 1000)

unfoldable pub window_end : ℕ → ℕ → ℕ
window_end start window_seconds = start + window_seconds * 1000

abbrev pub is_allowed : ℕ → RateLimitRule → Bool
is_allowed count rule = leb count rule.max

-- The seconds up to the end of the window, rounded up, and at least one.
unfoldable pub retry_after_seconds : ℕ → ℕ → RateLimitRule → ℕ
unfolding window_end
retry_after_seconds now start rule = if seconds == 0 then 1 else seconds
  where
    seconds : ℕ
    seconds = (window_end start rule.window_seconds - now + 999) / 1000

-- A row of `rate_limit_counters`; the key and the start of the window are its primary key.
pub record Counter : Type 0 where
  pub key : Text
  pub window_start : ℕ
  pub count : ℕ
  pub expires_at : ℕ

abbrev pub counts : Text → ℕ → Counter → Bool
counts key start c = same_text key c.key && start == c.window_start

-- The upsert of `consumeRateLimit`.
unfoldable pub count_up : Text → ℕ → ℕ → List Counter → List Counter
count_up key start expires_at [] =
    record { key = key; window_start = start; count = 1; expires_at = expires_at } ∷ []
count_up key start expires_at (c ∷ cs) =
    let rest = count_up key start expires_at cs in
    if counts key start c then record c { count = c.count + 1 } ∷ cs else c ∷ rest

-- The count of a row; no row counts nothing.
unfoldable pub count_of : Text → ℕ → List Counter → ℕ
count_of key start [] = 0
count_of key start (c ∷ cs) =
    let rest = count_of key start cs in if counts key start c then c.count else rest

-- `DELETE ... WHERE expires_at < now()`, run for one request in twenty: `drawn` is the draw.
unfoldable pub prune_expired : Bool → ℕ → List Counter → List Counter
prune_expired drawn now rows = if drawn then select (λ c. not (ltb c.expires_at now)) rows else rows

pub record RateLimitOutcome : Type 0 where
  pub count : ℕ
  pub limit : ℕ
  pub allowed : Bool
  pub reset_at : ℕ
  pub retry_after_seconds : ℕ

unfoldable pub consume_rate_limit :
    Bool → Text → RateLimitRule → ℕ → List Counter → RateLimitOutcome × List Counter
unfolding count_up count_of prune_expired
consume_rate_limit drawn key rule now rows = (outcome, prune_expired drawn now counted)
  where
    start : ℕ
    start = window_start now rule.window_seconds

    counted : List Counter
    counted = count_up key start (window_end start rule.window_seconds) rows

    outcome : RateLimitOutcome
    outcome = record {
      count = count_of key start counted;
      limit = rule.max;
      allowed = is_allowed (count_of key start counted) rule;
      reset_at = window_end start rule.window_seconds;
      retry_after_seconds = retry_after_seconds now start rule;
    }

pub record RateLimitCheck : Type 0 where
  pub key : Text
  pub rule : RateLimitRule
  -- The clock and the draw of the check.
  pub now : ℕ
  pub drawn : Bool

-- Consumes the checks one after the other up to the first that is exhausted. What has been counted
-- stays counted: there is no transaction around the checks.
unfoldable pub enforce_rate_limits :
    List RateLimitCheck → List Counter → Result (Unit {0}) × List Counter
unfolding consume_rate_limit
enforce_rate_limits [] rows = (ok tt, rows)
enforce_rate_limits (check ∷ checks) rows =
    let (outcome, left) = consume_rate_limit check.drawn check.key check.rule check.now rows in
    let rest = enforce_rate_limits checks left in
    if outcome.allowed then rest else (err ErrorCode.rate_limited, left)
