-- ===== src/Reconnect/Invariant.antt =====
-- What holds of the tasks after any history of calls.
use cat_tag.Common.{
  ℕ, ◌+◌, ◌≡◌, refl, true, false, List, [], ◌∷◌, Option, none, some, String, lookup, insert,
  insert-Entries, delete-Entries, lookup-Entries, insert-Distinct, delete-Distinct, Distinct,
  Entries, Option-cases, if_elim, inl, inr, arith,
}
use cat_tag.Errors.{GoError}
use cat_tag.Reconnect.{
  Float64, ClientConfig, ReconnectTask, Tasks, new_task, reenabled, exhausted, schedule_task,
  schedule_reconnect, update_task, stop_reconnect, clear_reconnect_task, reset_reconnect_task,
  mark_failed, mark_connected, attempt_reconnect, attempt_all, due_devices, process_reconnect_tasks,
  longest_delay,
}

module _ (c : ClientConfig) where
  -- A task is filed under its device, and while it is enabled it is within the limit of attempts.
  pub record IsTask (d : String) (t : ReconnectTask) : Type 0 where
    pub filed : t.device_id ≡ d
    pub limited : t.max_delay ≡ longest_delay
    pub within : t.enabled ≡ true → exhausted t.attempts c.retry_attempts ≡ false

  pub record IsValid (ts : Tasks) : Type 0 where
    pub each : Entries IsTask ts
    pub distinct : Distinct ts

  put-IsValid :
      (d : String) (t : ReconnectTask) (ts : Tasks)
      → IsTask d t
      → IsValid ts
      → IsValid (insert d t ts)
  put-IsValid d t ts i v = record {
    each = insert-Entries IsTask d t ts i v.each;
    distinct = insert-Distinct d t ts v.distinct;
  }

  fresh_within : exhausted 0 c.retry_attempts ≡ false
  fresh_within = ground arith

  new_task-IsTask : (d : String) → IsTask d (new_task c d)
  unfolding new_task
  new_task-IsTask d = record { filed = refl; limited = refl; within = λ e. fresh_within }

  reenabled-IsTask : (d : String) (t : ReconnectTask) → IsTask d t → IsTask d (reenabled c t)
  unfolding reenabled
  reenabled-IsTask d t i =
      if_elim (IsTask d) t.enabled (λ x. i)
        (λ x. record { filed = i.filed; limited = i.limited; within = λ e. fresh_within })

  update_task-IsValid :
      (f : ReconnectTask → ReconnectTask) (ts : Tasks) (d : String)
      → ((t : ReconnectTask) → IsTask d t → IsTask d (f t))
      → IsValid ts
      → IsValid (update_task f ts d)
  update_task-IsValid f ts d keep v = elim (Option-cases (lookup d ts)) [
    | inl e ↦ rw (e, update_task) v
    | inr (t, e) ↦
        rw (e, update_task)
          (put-IsValid d (f t) ts (keep t (lookup-Entries IsTask d t ts e v.each)) v)
  ]

  module _ (floats : Float64) where
    schedule_task-IsTask :
        (now : ℕ) (d : String) (t : ReconnectTask)
        → IsTask d t
        → IsTask d (schedule_task floats c now t)
    unfolding schedule_task
    schedule_task-IsTask now d t i =
        if_elim (IsTask d) (exhausted (t.attempts + 1) c.retry_attempts)
          (λ x. record { filed = i.filed; limited = i.limited; within = λ e. cc })
          (λ x. record { filed = i.filed; limited = i.limited; within = λ e. x })

    schedule_reconnect-IsValid :
        (now : ℕ) (ts : Tasks) (d : String)
        → IsValid ts
        → IsValid (schedule_reconnect floats c now ts d)
    unfolding schedule_reconnect
    schedule_reconnect-IsValid now ts d v = elim (Option-cases (lookup d ts)) [
      | inl e ↦
          rw (e, schedule_reconnect)
            (put-IsValid d (schedule_task floats c now (reenabled c (new_task c d))) ts
              (schedule_task-IsTask now d (reenabled c (new_task c d))
                (reenabled-IsTask d (new_task c d) (new_task-IsTask d)))
              v)
      | inr (t, e) ↦
          rw (e, schedule_reconnect)
            (put-IsValid d (schedule_task floats c now (reenabled c t)) ts
              (schedule_task-IsTask now d (reenabled c t)
                (reenabled-IsTask d t (lookup-Entries IsTask d t ts e v.each)))
              v)
    ]

    attempt_reconnect-IsValid :
        (now : ℕ) (answer : Option GoError) (ts : Tasks) (d : String)
        → IsValid ts
        → IsValid (attempt_reconnect floats c now answer ts d).0
    unfolding attempt_reconnect
    attempt_reconnect-IsValid now (some e) ts d v =
        schedule_reconnect-IsValid now (update_task (mark_failed e) ts d) d (
          update_task-IsValid (mark_failed e) ts d
            (λ t i. record { filed = i.filed; limited = i.limited; within = i.within }) v)
    attempt_reconnect-IsValid now none ts d v =
        update_task-IsValid mark_connected ts d
          (λ t i. record { filed = i.filed; limited = i.limited; within = λ e. fresh_within }) v

    attempt_all-IsValid :
        (connect : String → ℕ × Option GoError) (ds : List String) (ts : Tasks)
        → IsValid ts
        → IsValid (attempt_all floats c connect ds ts)
    unfolding attempt_all
    attempt_all-IsValid connect [] ts v = v
    attempt_all-IsValid connect (d ∷ ds) ts v =
        attempt_all-IsValid connect ds
          (attempt_reconnect floats c (connect d).0 (connect d).1 ts d).0
          (attempt_reconnect-IsValid (connect d).0 (connect d).1 ts d v)

    pub data Call : Type 0 where
      schedule_call : ℕ → String → Call
      stop_call clear_call reset_call : String → Call
      pass_call : ℕ → (String → ℕ × Option GoError) → Call

    unfoldable pub step : Tasks → Call → Tasks
    step ts (schedule_call now d) = schedule_reconnect floats c now ts d
    step ts (stop_call d) = stop_reconnect ts d
    step ts (clear_call d) = clear_reconnect_task ts d
    step ts (reset_call d) = reset_reconnect_task c ts d
    step ts (pass_call now connect) = process_reconnect_tasks floats c now connect ts

    unfoldable pub run : Tasks → List Call → Tasks
    run ts [] = ts
    run ts (k ∷ ks) = run (step ts k) ks

    step-IsValid : (ts : Tasks) (k : Call) → IsValid ts → IsValid (step ts k)
    unfolding step stop_reconnect clear_reconnect_task reset_reconnect_task process_reconnect_tasks
    step-IsValid ts (schedule_call now d) v = schedule_reconnect-IsValid now ts d v
    step-IsValid ts (stop_call d) v =
        update_task-IsValid (λ t. record t { enabled = false }) ts d
          (λ t i. record { filed = i.filed; limited = i.limited; within = λ e. cc }) v
    step-IsValid ts (clear_call d) v = record {
      each = delete-Entries IsTask d ts v.each;
      distinct = delete-Distinct d ts v.distinct;
    }
    step-IsValid ts (reset_call d) v =
        update_task-IsValid _ ts d
          (λ t i. record { filed = i.filed; limited = i.limited; within = λ e. fresh_within }) v
    step-IsValid ts (pass_call now connect) v =
        attempt_all-IsValid connect (due_devices now ts) ts v

    run-IsValid : (ts : Tasks) (ks : List Call) → IsValid ts → IsValid (run ts ks)
    unfolding run
    run-IsValid ts [] v = v
    run-IsValid ts (k ∷ ks) v = run-IsValid (step ts k) ks (step-IsValid ts k v)

    -- After any history of calls on a new manager every task is filed once, under its device, and is
    -- within the limit of attempts while it is enabled.
    pub run-empty-IsValid : (ks : List Call) → IsValid (run [] ks)
    run-empty-IsValid ks = run-IsValid [] ks (record { each = tt; distinct = tt })
