-- ===== src/Server/Backoff.antt =====
-- How long a failed execution waits before it is retried.
use ora.Base.{ℕ, ◌-◌, ◌*◌, ◌^◌, ◌≤◌, ◌≡◌, min, some, arith, pow2_mono, lt-pow2}
use ora.Time.{u32_max, duration_max, saturating_mul}
use ora.Backend.{BackoffStrategy, fixed, exponential, RetryPolicy}
use ora.Server.Retry.{
  max_retry_backoff, checked_pow2, backoff_multiplier, strategy_backoff, capped, retry_backoff,
}

-- The checked conversions and powers come to one bounded power.
backoff_multiplier_lem : (a : ℕ) → backoff_multiplier a ≡ min (2 ^ (a - 1)) u32_max
unfolding backoff_multiplier checked_pow2
backoff_multiplier_lem a = ground (arith, lt-pow2 (a - 1))

-- The backoff of each strategy, before any bound.
abbrev pub plain_backoff : BackoffStrategy → ℕ → ℕ → ℕ
plain_backoff fixed d a = d
plain_backoff exponential d a = d * min (2 ^ (a - 1)) u32_max

-- The backoff is that of the strategy, cut at the policy's maximum and at a year: the saturation of
-- durations is never felt, for a policy whose backoff is a `Duration`. The exponential strategy
-- doubles with each attempt, up to the largest 32-bit factor.
pub retry_backoff_lem :
    (policy : RetryPolicy) (a : ℕ)
    → policy.backoff_duration ≤ duration_max
    → retry_backoff policy a
      ≡ min
          (capped policy.max_backoff_duration
            (plain_backoff policy.backoff_strategy policy.backoff_duration a))
          max_retry_backoff
unfolding retry_backoff strategy_backoff saturating_mul
retry_backoff_lem policy a h = ground (arith, backoff_multiplier_lem a)

backoff_multiplier_mono : (a b : ℕ) → a ≤ b → backoff_multiplier a ≤ backoff_multiplier b
backoff_multiplier_mono a b h = omega (
  arith,
  backoff_multiplier_lem a,
  backoff_multiplier_lem b,
  pow2_mono (a - 1) (b - 1) (omega arith),
)

mul_mono : (d m n : ℕ) → m ≤ n → d * m ≤ d * n
mul_mono d m n h = grind arith

strategy_backoff_mono :
    (s : BackoffStrategy) (d a b : ℕ) → a ≤ b → strategy_backoff s d a ≤ strategy_backoff s d b
unfolding strategy_backoff saturating_mul
strategy_backoff_mono fixed d a b h = omega arith
strategy_backoff_mono exponential d a b h = omega (
  arith,
  mul_mono d (backoff_multiplier a) (backoff_multiplier b) (backoff_multiplier_mono a b h),
)

-- The backoff never falls from one attempt to a later one, and keeps to both bounds.
pub retry_backoff_mono :
    (policy : RetryPolicy) (a b : ℕ)
    → a ≤ b
    → (retry_backoff policy a ≤ retry_backoff policy b)
      × (retry_backoff policy b ≤ max_retry_backoff)
      × ((m : ℕ) → policy.max_backoff_duration ≡ some m → retry_backoff policy b ≤ m)
unfolding retry_backoff
retry_backoff_mono policy a b h =
    let mono = strategy_backoff_mono policy.backoff_strategy policy.backoff_duration a b h in
    (ground (arith, mono), omega arith, λ m e. ground arith)
