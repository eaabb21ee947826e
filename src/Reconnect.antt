-- ===== src/Reconnect.antt =====
-- `ReconnectManager` of pkg/bluetooth/reconnect_manager.go. Times and delays are nanoseconds.
-- The arithmetic of float64 is the parameter `Float64`: what rounds, and what the conversion to an
-- int64 gives past its range, is left to it. A pass of the worker is one sequence of steps, in which no other call interferes. Connecting is the
-- argument `connect`: for each device when the attempt ended, and how.
pub mod Schedule
pub mod Invariant
pub mod Worker
use cat_tag.Common.{
  ℕ, zero, suc, ◌+◌, ◌-◌, ◌*◌, ◌^◌, ℤ, pos, negsuc, Bool, true, false, not, ◌&&◌, List, [], ◌∷◌,
  ◌++◌, Option, none, some, if◌then◌else◌, ltb, String, length, Map, lookup, insert, delete,
}
use cat_tag.Errors.{GoError, bluetooth, foreign, wrap_error, connection_failed}

-- The fields of `ClientConfig` that the manager reads.
pub record ClientConfig : Type 0 where
  pub retry_attempts : ℤ
  pub retry_interval : ℕ

-- The zero time of `next_attempt` is 0.
pub record ReconnectTask : Type 0 where
  pub device_id : String
  pub attempts : ℕ
  pub next_attempt : ℕ
  pub backoff_delay : ℤ
  pub max_delay : ℕ
  pub enabled : Bool
  pub last_error : Option GoError

abbrev pub Tasks : Type 0
Tasks = Map ReconnectTask

-- The type, the conversions of the machine and `math.Pow`.
pub record Float64 : Type 1 where
  pub F : Type 0
  pub of_int : ℕ → F
  pub times : F → F → F
  pub pow : F → F → F
  pub to_int64 : F → ℤ

-- `time.Duration(float64(interval) * math.Pow(2, float64(n)))`
abbrev pub to_duration : Float64 → ℕ → ℕ → ℤ
to_duration x interval n =
    x.to_int64 (x.times (x.of_int interval) (x.pow (x.of_int 2) (x.of_int n)))

-- 30 minutes
abbrev pub longest_delay : ℕ
longest_delay = 1800000000000

unfoldable pub new_task : ClientConfig → String → ReconnectTask
new_task c device = record {
  device_id = device;
  attempts = 0;
  next_attempt = 0;
  backoff_delay = pos c.retry_interval;
  max_delay = longest_delay;
  enabled = true;
  last_error = none;
}

-- A task that was disabled starts again.
unfoldable pub reenabled : ClientConfig → ReconnectTask → ReconnectTask
reenabled c t =
    if t.enabled
    then t
    else record t { enabled = true; attempts = 0; backoff_delay = pos c.retry_interval }

-- `attempts > limit && limit > 0`
abbrev pub exhausted : ℕ → ℤ → Bool
exhausted attempts (pos zero) = false
exhausted attempts (pos (suc n)) = ltb (suc n) attempts
exhausted attempts (negsuc n) = false

-- `if newDelay > task.MaxDelay { newDelay = task.MaxDelay }`
abbrev pub cut : ℕ → ℤ → ℤ
cut longest (pos d) = if ltb longest d then pos longest else pos d
cut longest (negsuc d) = negsuc d

-- `now.Add(delay)`, where a time before the zero time is the zero time.
abbrev pub add_delay : ℕ → ℤ → ℕ
add_delay now (pos d) = now + d
add_delay now (negsuc d) = now - suc d

abbrev pub task_or_new : ClientConfig → String → Option ReconnectTask → ReconnectTask
task_or_new c device none = new_task c device
task_or_new c device (some t) = t

-- What a method does to the task of a device, if there is one.
abbrev pub update_task : (ReconnectTask → ReconnectTask) → Tasks → String → Tasks
update_task f ts device = elim (lookup device ts) [ none ↦ ts | some t ↦ insert device (f t) ts ]

unfoldable pub stop_reconnect : Tasks → String → Tasks
stop_reconnect ts device = update_task (λ t. record t { enabled = false }) ts device

unfoldable pub clear_reconnect_task : Tasks → String → Tasks
clear_reconnect_task ts device = delete device ts

unfoldable pub reset_reconnect_task : ClientConfig → Tasks → String → Tasks
reset_reconnect_task c ts device =
    update_task
      (λ t. record t {
        attempts = 0;
        backoff_delay = pos c.retry_interval;
        enabled = true;
        last_error = none;
      })
      ts device

unfoldable pub get_reconnect_status : Tasks → String → Option ReconnectTask
get_reconnect_status ts device = lookup device ts

-- What the callbacks are told.
pub data Notice : Type 0 where
  failed : GoError → Notice
  connected : String → Notice

abbrev pub notified : GoError → String → GoError
notified (bluetooth code device operation cause) _ = bluetooth code device operation cause
notified (foreign e) device = wrap_error (foreign e) connection_failed device "reconnect"

-- The task after an attempt that failed, and after one that did not.
abbrev pub mark_failed : GoError → ReconnectTask → ReconnectTask
mark_failed e t = record t { last_error = some e }

abbrev pub mark_connected : ReconnectTask → ReconnectTask
mark_connected t = record t { enabled = false; attempts = 0; last_error = none }

-- `task.Enabled && now.After(task.NextAttempt)`
unfoldable pub is_due : ℕ → ReconnectTask → Bool
is_due now t = t.enabled && ltb t.next_attempt now

unfoldable pub due_devices : ℕ → Tasks → List String
due_devices now [] = []
due_devices now ((device, t) ∷ ts) =
    let rest = due_devices now ts in if is_due now t then device ∷ rest else rest

module _ (floats : Float64) (c : ClientConfig) where
  -- The end of `ScheduleReconnect`, on a task that is enabled.
  unfoldable pub schedule_task : ℕ → ReconnectTask → ReconnectTask
  schedule_task now t =
      let delay = cut t.max_delay (to_duration floats c.retry_interval t.attempts) in
      if exhausted (t.attempts + 1) c.retry_attempts
      then record t { attempts = t.attempts + 1; enabled = false }
      else record t {
        attempts = t.attempts + 1;
        backoff_delay = delay;
        next_attempt = add_delay now delay;
      }

  unfoldable pub schedule_reconnect : ℕ → Tasks → String → Tasks
  unfolding schedule_task reenabled new_task
  schedule_reconnect now ts device =
      insert device (schedule_task now (reenabled c (task_or_new c device (lookup device ts)))) ts

  unfoldable pub attempt_reconnect : ℕ → Option GoError → Tasks → String → Tasks × Notice
  unfolding schedule_reconnect
  attempt_reconnect now (some e) ts device = (
    schedule_reconnect now (update_task (mark_failed e) ts device) device,
    failed (notified e device),
  )
  attempt_reconnect now none ts device = (update_task mark_connected ts device, connected device)

  unfoldable pub attempt_all : (String → ℕ × Option GoError) → List String → Tasks → Tasks
  unfolding attempt_reconnect
  attempt_all connect [] ts = ts
  attempt_all connect (device ∷ devices) ts =
      let (now, answer) = connect device in
      attempt_all connect devices (attempt_reconnect now answer ts device).0

  unfoldable pub process_reconnect_tasks : ℕ → (String → ℕ × Option GoError) → Tasks → Tasks
  unfolding attempt_all due_devices
  process_reconnect_tasks now connect ts = attempt_all connect (due_devices now ts) ts

pub record ReconnectStatistics : Type 0 where
  pub total_tasks : ℕ
  pub active_tasks : ℕ
  pub disabled_tasks : ℕ
  pub total_attempts : ℕ

-- The loop of `GetStatistics` on one task.
abbrev pub count_task : ReconnectTask → ReconnectStatistics → ReconnectStatistics
count_task t s = record s {
  active_tasks = if t.enabled then s.active_tasks + 1 else s.active_tasks;
  disabled_tasks = if t.enabled then s.disabled_tasks else s.disabled_tasks + 1;
  total_attempts = s.total_attempts + t.attempts;
}

unfoldable pub count_tasks : Tasks → ReconnectStatistics → ReconnectStatistics
count_tasks [] s = s
count_tasks ((device, t) ∷ ts) s = count_tasks ts (count_task t s)

unfoldable pub get_statistics : Tasks → ReconnectStatistics
unfolding count_tasks
get_statistics ts =
    count_tasks ts
      (record { total_tasks = length ts; active_tasks = 0; disabled_tasks = 0; total_attempts = 0 })
