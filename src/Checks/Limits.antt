-- ===== src/Checks/Limits.antt =====
-- Tests of src/server/security.
use filazero_local.Base.{
  ℕ, ◌+◌, ◌*◌, ◌≤◌, ◌≡◌, refl, true, false, List, [], ◌∷◌, arith, ltb, Text, count_if,
}
use filazero_local.Errors.{err, ErrorCode}
use filazero_local.Security.RateLimit.{
  RateLimitRule, consume_rate_limit, window_start, window_end, retry_after_seconds, RateLimitCheck,
  enforce_rate_limits, count_up, count_of, prune_expired,
}
use filazero_local.Security.Windows.{retry_after_seconds_bounds}
use filazero_local.Security.LimitLaws.{Hit, counters_after, falls_in, consume_rate_limit-allowed}

-- Two requests in five minutes.
abbrev two_in_five : RateLimitRule
two_in_five = record { window_seconds = 300; max = 2 }

abbrev same_rule : Text → RateLimitRule
same_rule key = two_in_five

abbrev caller : Text
caller = 105 ∷ 112 ∷ []

abbrev hit_at : ℕ → Hit
hit_at now = record { key = caller; now = now; drawn = true }

-- Two requests in the window from 300 s to 600 s, and one in the window before.
abbrev history : List Hit
history = hit_at 420000 ∷ hit_at 400000 ∷ hit_at 200000 ∷ []

third_is_refused :
    (consume_rate_limit true caller two_in_five 500000 (counters_after same_rule history)).0.allowed
    ≡ false
unfolding consume_rate_limit counters_after count_up count_of prune_expired window_start window_end
third_is_refused = refl

consume_rate_limit-allowed_example :
    ((consume_rate_limit true caller two_in_five 500000 (counters_after same_rule history)).0.count
      ≡ count_if (falls_in same_rule caller 500000) history + 1)
    × ((consume_rate_limit true caller two_in_five 500000
          (counters_after same_rule history)).0.allowed
        ≡ ltb (count_if (falls_in same_rule caller 500000) history) 2)
consume_rate_limit-allowed_example =
    consume_rate_limit-allowed same_rule history true caller 500000 (λ k. omega arith)
      (omega arith, (omega arith, (omega arith, tt)))

retry_after_seconds_bounds_example :
    (window_end (window_start 500500 300) 300
      ≤ 500500 + retry_after_seconds 500500 (window_start 500500 300) two_in_five * 1000)
    × (1 ≤ retry_after_seconds 500500 (window_start 500500 300) two_in_five)
    × (retry_after_seconds 500500 (window_start 500500 300) two_in_five ≤ 300)
retry_after_seconds_bounds_example = retry_after_seconds_bounds 500500 two_in_five (omega arith)

abbrev check : RateLimitCheck
check = record { key = caller; rule = two_in_five; now = 500000; drawn = false }

refused_in_row :
    (enforce_rate_limits (check ∷ check ∷ check ∷ []) []).0 ≡ err ErrorCode.rate_limited
unfolding enforce_rate_limits consume_rate_limit count_up count_of prune_expired window_start
    window_end
refused_in_row = refl
