-- ===== src/Security/Windows.antt =====
-- The windows of src/server/security/rate-limit.rules.ts.
use filazero_local.Base.{ℕ, ◌+◌, ◌*◌, ◌≤◌, ◌<◌, arith}
use native.Mathlib.Nat.{mod-lt, div-add-mod'}
use filazero_local.Security.RateLimit.{RateLimitRule, window_start, window_end, retry_after_seconds}

pub window_start-le : (now w : ℕ) → window_start now w ≤ now
unfolding window_start
window_start-le now w = omega (arith, div-add-mod' now (w * 1000))

pub lt-window_end : (now w : ℕ) → 0 < w → now < window_end (window_start now w) w
unfolding window_start window_end
lt-window_end now w pos =
    omega (arith, div-add-mod' now (w * 1000), mod-lt now {m = w * 1000} (omega arith))

-- A caller who waits as long as he is told comes back in a later window, and he is never told to
-- wait longer than a window lasts.
pub retry_after_seconds_bounds :
    (now : ℕ) (rule : RateLimitRule)
    → 0 < rule.window_seconds
    → (window_end (window_start now rule.window_seconds) rule.window_seconds
        ≤ now + retry_after_seconds now (window_start now rule.window_seconds) rule * 1000)
      × (1 ≤ retry_after_seconds now (window_start now rule.window_seconds) rule)
      × (retry_after_seconds now (window_start now rule.window_seconds) rule ≤ rule.window_seconds)
unfolding retry_after_seconds window_end
retry_after_seconds_bounds now rule pos =
    ground
      (arith, window_start-le now rule.window_seconds, lt-window_end now rule.window_seconds pos)
