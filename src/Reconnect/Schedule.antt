-- ===== src/Reconnect/Schedule.antt =====
-- When the next attempt is, and how often a device is attempted.
use cat_tag.Common.{
  ℕ, suc, ◌+◌, ◌*◌, ◌^◌, ◌<◌, ◌≡◌, refl, ◌∙◌, ap, pos, negsuc, true, false, List, [], ◌∷◌, some,
  if◌then◌else◌, ltb, String, lookup, lookup-insert, same_refl, arith,
}
use cat_tag.Reconnect.{
  Float64, to_duration, ClientConfig, ReconnectTask, Tasks, reenabled, exhausted, task_or_new,
  schedule_task, schedule_reconnect, longest_delay, is_due,
}

-- 2^63
abbrev pub int64_end : ℕ
int64_end = 9223372036854775808

-- 2^53, below which every natural number is a float64
abbrev pub float_exact : ℕ
float_exact = 9007199254740992

-- A float64 that is a natural number keeps its digits when it is multiplied by a power of 2.
pub record ScalesExactly (x : Float64) : Type 0 where
  pub scaled :
      (i n : ℕ) → i < float_exact → i * 2 ^ n < int64_end → to_duration x i n ≡ pos (i * 2 ^ n)

module _ (floats : Float64) (c : ClientConfig) where
  pub lookup-schedule_reconnect :
      (now : ℕ) (ts : Tasks) (d : String)
      → lookup d (schedule_reconnect floats c now ts d)
        ≡ some (schedule_task floats c now (reenabled c (task_or_new c d (lookup d ts))))
  unfolding schedule_reconnect
  lookup-schedule_reconnect now ts d =
      let t = schedule_task floats c now (reenabled c (task_or_new c d (lookup d ts))) in
      ground (arith, lookup-insert d d t ts, same_refl d)

  -- Schedules of one device at the given times, the latest first.
  unfoldable pub schedule_all : List ℕ → Tasks → String → Tasks
  schedule_all [] ts d = ts
  schedule_all (now ∷ nows) ts d = schedule_reconnect floats c now (schedule_all nows ts d) d

  -- The delay after the n-th schedule, counted from 0.
  abbrev pub nth_delay : ℕ → ℕ
  nth_delay n =
      if ltb longest_delay (c.retry_interval * 2 ^ n)
      then longest_delay
      else c.retry_interval * 2 ^ n

  pub record IsBackedOff (n now : ℕ) (t : ReconnectTask) : Type 0 where
    pub live : t.enabled ≡ true
    pub counted : t.attempts ≡ suc n
    pub limited : t.max_delay ≡ longest_delay
    pub delayed : t.backoff_delay ≡ pos (nth_delay n)
    pub next : t.next_attempt ≡ now + nth_delay n

  spent :
      (n now : ℕ) (t : ReconnectTask)
      → t.enabled ≡ true
      → t.attempts ≡ n
      → exhausted (n + 1) c.retry_attempts ≡ true
      → (schedule_task floats c now (reenabled c t)).enabled ≡ false
  unfolding schedule_task reenabled
  spent n now t e a x = rw (e, a, x) refl

  -- The schedule of an enabled task that has used its attempts up leaves a task that is never due.
  pub schedule_reconnect-spent :
      (now later : ℕ) (ts : Tasks) (d : String) (t : ReconnectTask)
      → lookup d ts ≡ some t
      → t.enabled ≡ true
      → exhausted (t.attempts + 1) c.retry_attempts ≡ true
      → (u : ReconnectTask) × (lookup d (schedule_reconnect floats c now ts d) ≡ some u)
        × (is_due later u ≡ false)
  unfolding is_due
  schedule_reconnect-spent now later ts d t found e x = (
    schedule_task floats c now (reenabled c t),
    lookup-schedule_reconnect now ts d
        ∙ ap (λ o. some (schedule_task floats c now (reenabled c (task_or_new c d o)))) found,
    rw (spent t.attempts now t e refl x) refl,
  )

  hasty :
      (now later delay : ℕ) (t : ReconnectTask)
      → t.enabled ≡ true
      → exhausted (t.attempts + 1) c.retry_attempts ≡ false
      → to_duration floats c.retry_interval t.attempts ≡ negsuc delay
      → now < later
      → is_due later (schedule_task floats c now (reenabled c t)) ≡ true
  unfolding is_due schedule_task reenabled
  hasty now later delay t e x bad lt = rw (e, x, bad) (ground arith)

  -- Where the conversion of the product to a duration overflows into the negative, an enabled task is
  -- due at once after its schedule: there is no delay at all.
  pub schedule_reconnect-overflow :
      (now later delay : ℕ) (ts : Tasks) (d : String) (t : ReconnectTask)
      → lookup d ts ≡ some t
      → t.enabled ≡ true
      → exhausted (t.attempts + 1) c.retry_attempts ≡ false
      → to_duration floats c.retry_interval t.attempts ≡ negsuc delay
      → now < later
      → (u : ReconnectTask) × (lookup d (schedule_reconnect floats c now ts d) ≡ some u)
        × (is_due later u ≡ true)
  schedule_reconnect-overflow now later delay ts d t found e x bad lt = (
    schedule_task floats c now (reenabled c t),
    lookup-schedule_reconnect now ts d
        ∙ ap (λ o. some (schedule_task floats c now (reenabled c (task_or_new c d o)))) found,
    hasty now later delay t e x bad lt,
  )
