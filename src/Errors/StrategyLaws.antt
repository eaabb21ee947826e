-- ===== src/Errors/StrategyLaws.antt =====
-- What the retry delays of `ErrorRecoveryStrategy` are.
use native.Mathlib.Nat.{pow-suc}
use cat_tag.Common.{ℕ, zero, suc, ◌*◌, ◌^◌, ◌≤◌, ◌<◌, ◌≡◌, if◌then◌else◌, ltb, arith}
use cat_tag.Errors.Strategy.{ErrorRecoveryStrategy, delay_loop, calculate_retry_delay}

delay_loop-le :
    (s : ErrorRecoveryStrategy) (rounds delay : ℕ)
    → delay ≤ s.max_interval
    → delay_loop s rounds delay ≤ s.max_interval
unfolding delay_loop
delay_loop-le s zero delay h = h
delay_loop-le s (suc rounds) delay h = ground (arith, delay_loop-le s rounds (s.backoff delay))

-- After the first attempt a delay never passes the maximal interval, whatever the backoff is.
pub calculate_retry_delay-le :
    (s : ErrorRecoveryStrategy) (attempt : ℕ)
    → 0 < attempt
    → calculate_retry_delay s attempt ≤ s.max_interval
unfolding calculate_retry_delay delay_loop
calculate_retry_delay-le s zero h = absurd (omega arith)
calculate_retry_delay-le s (suc n) h =
    ground (arith, delay_loop-le s n (s.backoff s.retry_interval))

pow_pos : (n : ℕ) → 0 < 2 ^ n
pow_pos zero = omega arith
pow_pos (suc n) = rw (pow-suc 2 n) (omega (arith, pow_pos n))

le-mul_pos : (d p : ℕ) → 0 < p → d ≤ d * p
le-mul_pos d p h = grind arith

regroup : (d p : ℕ) → 2 * d * p ≡ d * (2 * p)
regroup d p = omega arith

abbrev pub capped : ℕ → ℕ → ℕ
capped cap d = if ltb cap d then cap else d

-- 2^53: the natural numbers up to it are float64 numbers, and so are their doubles.
abbrev pub float_exact : ℕ
float_exact = 9007199254740992

module _ (s : ErrorRecoveryStrategy) (doubles : (d : ℕ) → d ≤ float_exact → s.backoff d ≡ 2 * d)
    (bounded : s.max_interval ≤ float_exact) where
  delay_loop-doubling :
      (rounds delay : ℕ)
      → delay ≤ s.max_interval
      → delay_loop s rounds delay ≡ capped s.max_interval (delay * 2 ^ rounds)
  unfolding delay_loop
  delay_loop-doubling zero delay h = ground arith
  delay_loop-doubling (suc n) delay h =
      rw (doubles delay (omega arith), pow-suc 2 n)
        (ground (
          arith,
          delay_loop-doubling n (2 * delay),
          regroup delay (2 ^ n),
          le-mul_pos (2 * delay) (2 ^ n) (pow_pos n),
        ))

  -- With a backoff factor of 2, and intervals of at most 2^53, below which the floating point step
  -- doubles exactly, the delay before attempt n > 0 is the interval times 2^n, cut off at the maximal
  -- interval.
  pub calculate_retry_delay-doubling :
      (n : ℕ)
      → 0 < n
      → s.retry_interval ≤ float_exact
      → calculate_retry_delay s n ≡ capped s.max_interval (s.retry_interval * 2 ^ n)
  unfolding calculate_retry_delay delay_loop
  calculate_retry_delay-doubling zero h small = absurd (omega arith)
  calculate_retry_delay-doubling (suc n) h small =
      rw (doubles s.retry_interval small, pow-suc 2 n)
        (ground (
          arith,
          delay_loop-doubling n (2 * s.retry_interval),
          regroup s.retry_interval (2 ^ n),
          le-mul_pos (2 * s.retry_interval) (2 ^ n) (pow_pos n),
        ))
