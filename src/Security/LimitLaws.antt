-- ===== src/Security/LimitLaws.antt =====
-- What the counters of src/server/security/rate-limit.service.ts count.
use filazero_local.Base.{
  ℕ, ◌+◌, ◌≤◌, ◌<◌, ◌≡◌, refl, ap, subst, Bool, true, false, not, ◌&&◌, List, [], ◌∷◌, inl, inr,
  ◌⊎◌, arith, ltb, ◌==◌, ==_refl, Text, same_text, same_text_refl, same_text_eq, In, In-select,
  count_if, Bool-cases, bit,
}
use filazero_local.Security.RateLimit.{
  RateLimitRule, Counter, counts, count_up, count_of, prune_expired, consume_rate_limit,
  window_start, window_end,
}
use filazero_local.Security.Windows.{lt-window_end}

counts_eq :
    (key : Text) (start : ℕ) (c : Counter)
    → counts key start c ≡ true
    → (key ≡ c.key) × (start ≡ c.window_start)
counts_eq key start c h = ground (arith, same_text_eq key c.key)

-- Counting up one row counts one more there and nothing elsewhere.
count_of-count_up :
    (key key' : Text) (start start' e : ℕ) (rows : List Counter)
    → count_of key start (count_up key' start' e rows)
      ≡ count_of key start rows + bit (same_text key key' && start == start')
unfolding count_of count_up
count_of-count_up key key' start start' e [] = ground arith
count_of-count_up key key' start start' e (c ∷ cs) = ground (
  arith,
  count_of-count_up key key' start start' e cs,
  counts_eq key start c,
  counts_eq key' start' c,
  same_text_eq key key',
  same_text_refl c.key,
)

-- Pruning leaves a count alone if its row has not expired.
count_of-prune :
    (key : Text) (start now : ℕ) (drawn : Bool) (rows : List Counter)
    → ((c : Counter) → In c rows → counts key start c ≡ true → now ≤ c.expires_at)
    → count_of key start (prune_expired drawn now rows) ≡ count_of key start rows
unfolding count_of prune_expired
count_of-prune key start now false rows h = refl
count_of-prune key start now true [] h = refl
count_of-prune key start now true (c ∷ cs) h =
    ground (arith, h c (inl refl), count_of-prune key start now true cs (λ d i. h d (inr i)))

-- A request that was counted, and whether it pruned.
pub record Hit : Type 0 where
  pub key : Text
  pub now : ℕ
  pub drawn : Bool

-- The counters after the hits (the newest first), where each key has one rule.
unfoldable pub counters_after : (Text → RateLimitRule) → List Hit → List Counter
unfolding consume_rate_limit
counters_after rule_of [] = []
counters_after rule_of (h ∷ earlier) =
    (consume_rate_limit h.drawn h.key (rule_of h.key) h.now (counters_after rule_of earlier)).1

-- The clock does not run back.
abbrev pub InTime : ℕ → List Hit → Type 0
InTime now [] = Unit {0}
InTime now (h ∷ earlier) = (h.now ≤ now) × InTime h.now earlier

InTime-later : (now now' : ℕ) (hits : List Hit) → now ≤ now' → InTime now hits → InTime now' hits
InTime-later now now' [] le t = tt
InTime-later now now' (h ∷ earlier) le (first, t) = (omega arith, t)

prune_expired-In :
    (drawn : Bool) (now : ℕ) (rows : List Counter) (c : Counter)
    → In c (prune_expired drawn now rows)
    → In c rows
unfolding prune_expired
prune_expired-In false now rows c i = i
prune_expired-In true now rows c i = (In-select (λ d. not (ltb d.expires_at now)) rows c i).0

-- Each row expires at the end of its window.
abbrev Expires : (Text → RateLimitRule) → List Counter → Type 0
Expires rule_of rows =
    (c : Counter)
    → In c rows
    → c.expires_at ≡ window_end c.window_start (rule_of c.key).window_seconds

count_up-Expires :
    (rule_of : Text → RateLimitRule) (key : Text) (start : ℕ) (rows : List Counter)
    → Expires rule_of rows
    → Expires rule_of (count_up key start (window_end start (rule_of key).window_seconds) rows)
unfolding count_up
count_up-Expires rule_of key start [] x c (inl i) =
    subst (λ d. d.expires_at ≡ window_end d.window_start (rule_of d.key).window_seconds) i refl
count_up-Expires rule_of key start [] x c (inr i) = absurd i
count_up-Expires rule_of key start (d ∷ ds) x c i = elim (Bool-cases (counts key start d)) [
  | inl y ↦ elim (grown y) [
    | inl e ↦
        subst (λ u. u.expires_at ≡ window_end u.window_start (rule_of u.key).window_seconds) e
          (x d (inl refl))
    | inr j ↦ x c (inr j)
  ]
  | inr n ↦ elim (kept n) [
    | inl e ↦
        subst (λ u. u.expires_at ≡ window_end u.window_start (rule_of u.key).window_seconds) e
          (x d (inl refl))
    | inr j ↦ count_up-Expires rule_of key start ds (λ u k. x u (inr k)) c j
  ]
]
  where
    later : List Counter
    later = count_up key start (window_end start (rule_of key).window_seconds) ds

    grown : counts key start d ≡ true → (record d { count = d.count + 1 } ≡ c) ⊎ In c ds
    grown y = ground (arith, i)

    kept : counts key start d ≡ false → (d ≡ c) ⊎ In c later
    kept n = ground (arith, i)

counters_after-Expires :
    (rule_of : Text → RateLimitRule) (hits : List Hit)
    → Expires rule_of (counters_after rule_of hits)
unfolding counters_after consume_rate_limit prune_expired
counters_after-Expires rule_of [] c i = absurd i
counters_after-Expires rule_of (h ∷ earlier) c i =
    count_up-Expires rule_of h.key (window_start h.now (rule_of h.key).window_seconds)
      (counters_after rule_of earlier) (counters_after-Expires rule_of earlier) c
      (prune_expired-In h.drawn h.now _ c i)

-- Whether a hit fell into the window of `key` that contains `now`.
abbrev pub falls_in : (Text → RateLimitRule) → Text → ℕ → Hit → Bool
falls_in rule_of key now h =
    same_text key h.key
    && window_start now (rule_of key).window_seconds
      == window_start h.now (rule_of key).window_seconds

-- The hit's own rule may be read for it.
falls_in_same :
    (rule_of : Text → RateLimitRule) (key : Text) (now : ℕ) (h : Hit)
    → falls_in rule_of key now h ≡ (
        same_text key h.key
        && window_start now (rule_of key).window_seconds
          == window_start h.now (rule_of h.key).window_seconds)
falls_in_same rule_of key now h = ground (arith, same_text_eq key h.key)

counted_until :
    (rule_of : Text → RateLimitRule) (key : Text) (start : ℕ) (c : Counter)
    → counts key start c ≡ true
    → c.expires_at ≡ window_end c.window_start (rule_of c.key).window_seconds
    → c.expires_at ≡ window_end start (rule_of key).window_seconds
counted_until rule_of key start c m e = let (k, s) = counts_eq key start c m in cc

-- The counter of a key is the number of hits in the current window.
count_of-counters_after :
    (rule_of : Text → RateLimitRule) (hits : List Hit) (key : Text) (now : ℕ)
    → ((k : Text) → 0 < (rule_of k).window_seconds)
    → InTime now hits
    → count_of key (window_start now (rule_of key).window_seconds) (counters_after rule_of hits)
      ≡ count_if (falls_in rule_of key now) hits
unfolding counters_after consume_rate_limit count_of
count_of-counters_after rule_of [] key now pos t = refl
count_of-counters_after rule_of (h ∷ earlier) key now pos (le, t) =
    let w = (rule_of key).window_seconds in
    let v = (rule_of h.key).window_seconds in
    let s = window_start now w in
    let rows = counters_after rule_of earlier in
    let counted =
      count_up h.key (window_start h.now v) (window_end (window_start h.now v) v) rows in
    let expires =
      count_up-Expires rule_of h.key (window_start h.now v) rows
        (counters_after-Expires rule_of earlier) in
    let live = count_of-prune key s h.now h.drawn counted (λ c j m.
      omega
        (arith, counted_until rule_of key s c m (expires c j), lt-window_end now w (pos key))) in
    omega (
      arith,
      live,
      count_of-count_up key h.key s (window_start h.now v) (window_end (window_start h.now v) v)
          rows,
      count_of-counters_after rule_of earlier key now pos (InTime-later h.now now earlier le t),
      ap bit (falls_in_same rule_of key now h),
    )

-- After any history of requests in which the clock does not run back, and with any pruning, a
-- request is allowed exactly if it is among the first `max` of its key in its fixed window.
pub consume_rate_limit-allowed :
    (rule_of : Text → RateLimitRule) (hits : List Hit) (drawn : Bool) (key : Text) (now : ℕ)
    → ((k : Text) → 0 < (rule_of k).window_seconds)
    → InTime now hits
    → let outcome =
        (consume_rate_limit drawn key (rule_of key) now (counters_after rule_of hits)).0 in
      (outcome.count ≡ count_if (falls_in rule_of key now) hits + 1)
      × (outcome.allowed ≡ ltb (count_if (falls_in rule_of key now) hits) (rule_of key).max)
unfolding consume_rate_limit
consume_rate_limit-allowed rule_of hits drawn key now pos t =
    let w = (rule_of key).window_seconds in
    let counted =
      count_of-count_up key key (window_start now w) (window_start now w)
        (window_end (window_start now w) w) (counters_after rule_of hits) in
    ground (
      arith,
      counted,
      count_of-counters_after rule_of hits key now pos t,
      same_text_refl key,
      ==_refl (window_start now w),
    )
