-- ===== src/Errors/Strategy.antt =====
-- `ErrorRecoveryStrategy` of pkg/bluetooth/errors.go. `BackoffFactor` is a `float64`: the strategy
-- holds the step that it makes, `time.Duration(float64(delay) * BackoffFactor)`, as a function on
-- nanoseconds, which rounds where float64 does. Its delays are not negative: no step past the int64
-- range is modelled.
use cat_tag.Common.{ℕ, zero, suc, ◌*◌, ℤ, pos, Bool, false, if◌then◌else◌, ltb, leb, at_least}
use cat_tag.Errors.{GoError, is_retryable_error}

pub record ErrorRecoveryStrategy : Type 0 where
  pub max_retries : ℤ
  pub retry_interval : ℕ
  pub backoff : ℕ → ℕ
  pub max_interval : ℕ

abbrev pub second : ℕ
second = 1000000000

-- `DefaultRecoveryStrategy`, whose `BackoffFactor` is 2.0; its delays are far below 2^53, where
-- float64 is exact.
abbrev pub default_recovery_strategy : ErrorRecoveryStrategy
default_recovery_strategy = record {
  max_retries = pos 3;
  retry_interval = second;
  backoff = λ d. 2 * d;
  max_interval = 30 * second;
}

-- The loop of `CalculateRetryDelay`, with the rounds that are left.
unfoldable pub delay_loop : ErrorRecoveryStrategy → ℕ → ℕ → ℕ
delay_loop s zero delay = delay
delay_loop s (suc rounds) delay =
    let rest = delay_loop s rounds (s.backoff delay) in
    if ltb s.max_interval (s.backoff delay) then s.max_interval else rest

-- `attempt <= 0` is the case of no rounds, whose delay is the interval itself.
unfoldable pub calculate_retry_delay : ErrorRecoveryStrategy → ℕ → ℕ
unfolding delay_loop
calculate_retry_delay s attempt =
    if leb attempt 0 then s.retry_interval else delay_loop s attempt s.retry_interval

unfoldable pub should_retry : ErrorRecoveryStrategy → GoError → ℕ → Bool
unfolding is_retryable_error
should_retry s e attempt = if at_least attempt s.max_retries then false else is_retryable_error e
