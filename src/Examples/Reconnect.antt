-- ===== src/Examples/Reconnect.antt =====
-- Reconnection with a limit of three attempts, and with none.
use cat_tag.Common.{
  ℕ, ◌*◌, ◌^◌, ◌≡◌, refl, pos, negsuc, true, false, [], ◌∷◌, Option, none, some, if◌then◌else◌, ltb,
  String, lookup,
}
use cat_tag.Errors.{GoError, foreign}
use cat_tag.Reconnect.{
  Float64, attempt_reconnect, stop_reconnect, ClientConfig, ReconnectTask, Tasks, is_due,
}
use cat_tag.Reconnect.Schedule.{int64_end}
use cat_tag.Reconnect.Invariant.{
  IsValid, schedule_call, stop_call, clear_call, reset_call, pass_call, run, run-empty-IsValid,
}
use cat_tag.Reconnect.Worker.{attempt_reconnect-undoes_stop}

-- Numbers that are not rounded, with a conversion whose overflow is the least int64.
abbrev converted : Float64
converted = record {
  F = ℕ;
  of_int = λ n. n;
  times = ◌*◌;
  pow = ◌^◌;
  to_int64 = λ n. if ltb n int64_end then pos n else negsuc 9223372036854775807;
}

abbrev three_tries : ClientConfig
three_tries = record { retry_attempts = pos 3; retry_interval = 1000 }

abbrev for_ever : ClientConfig
for_ever = record { retry_attempts = pos 0; retry_interval = 1000000000 }

abbrev task : ℕ → ReconnectTask
task attempts = record {
  device_id = "d";
  attempts = attempts;
  next_attempt = 500;
  backoff_delay = pos 10;
  max_delay = 1800000000000;
  enabled = true;
  last_error = none;
}

abbrev one_task : ℕ → Tasks
one_task attempts = ("d", task attempts) ∷ []

has_task : (n : ℕ) → lookup "d" (one_task n) ≡ some (task n)
unfolding lookup
has_task n = refl

abbrev refused : String → ℕ × Option GoError
refused d = (120, some (foreign "refused"))

run-empty-IsValid_example : IsValid three_tries (
    run three_tries converted [] (
      schedule_call 1 "d"
      ∷ pass_call 5000 refused
      ∷ stop_call "d"
      ∷ reset_call "d"
      ∷ clear_call "d"
      ∷ []))
run-empty-IsValid_example = run-empty-IsValid three_tries converted (
    schedule_call 1 "d"
    ∷ pass_call 5000 refused
    ∷ stop_call "d"
    ∷ reset_call "d"
    ∷ clear_call "d"
    ∷ [])

rests : is_due 400 (task 2) ≡ false
unfolding is_due
rests = refl

attempt_reconnect-undoes_stop_example :
    (u : ReconnectTask) × (lookup "d"
        (attempt_reconnect converted three_tries 90
          (some (foreign "refused"))
          (stop_reconnect (one_task 2) "d")
          "d").0
      ≡ some u)
    × (u.enabled ≡ true)
    × (u.attempts ≡ 1)
attempt_reconnect-undoes_stop_example =
    attempt_reconnect-undoes_stop three_tries converted 90 (foreign "refused") (one_task 2) "d"
      (task 2) (has_task 2)
