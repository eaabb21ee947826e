-- ===== src/Reconnect/Worker.antt =====
-- What a pass of the worker and an attempt do, and the statistics.
use cat_tag.Common.{
  ℕ, ◌+◌, ◌≡◌, refl, ◌∙◌, ap, subst, All, true, false, List, [], ◌∷◌, Option, none, some, String,
  length, lookup, insert, lookup-insert, same, same_iff, same_refl, Distinct, Option-cases,
  Bool-cases, if_elim, inl, inr, arith,
}
use cat_tag.Errors.{GoError}
use cat_tag.Reconnect.Schedule.{lookup-schedule_reconnect}
use cat_tag.Reconnect.{
  Float64, task_or_new, ClientConfig, ReconnectTask, Tasks, reenabled, exhausted, schedule_task,
  schedule_reconnect, update_task, stop_reconnect, mark_failed, mark_connected, attempt_reconnect,
  attempt_all, is_due, due_devices, process_reconnect_tasks, get_statistics, count_tasks,
  count_task, ReconnectStatistics,
}

lookup-insert_other :
    (t : ReconnectTask) (ts : Tasks) (d other : String)
    → same d other ≡ false
    → lookup other (insert d t ts) ≡ lookup other ts
lookup-insert_other t ts d other ne = ground (arith, lookup-insert d other t ts)

lookup-update_other :
    (f : ReconnectTask → ReconnectTask) (ts : Tasks) (d other : String)
    → same d other ≡ false
    → lookup other (update_task f ts d) ≡ lookup other ts
lookup-update_other f ts d other ne = elim (Option-cases (lookup d ts)) [
  | inl e ↦ rw (e, update_task) refl
  | inr (t, e) ↦ rw (e, update_task) (lookup-insert_other (f t) ts d other ne)
]

absent_away :
    (now : ℕ) (ts : Tasks) (d : String)
    → lookup d ts ≡ none
    → All (λ e. same e d ≡ false) (due_devices now ts)
unfolding due_devices lookup
absent_away now [] d e = tt
absent_away now ((k, t) ∷ ts) d e = elim (Bool-cases (same k d)) [
  | inl hit ↦ ground arith
  | inr miss ↦
      let rest = absent_away now ts d (ground arith) in
      if_elim (All (λ x. same x d ≡ false)) (is_due now t) (λ _. (miss, rest)) (λ _. rest)
]

due_away :
    (now : ℕ) (ts : Tasks) (d : String) (t : ReconnectTask)
    → Distinct ts
    → lookup d ts ≡ some t
    → is_due now t ≡ false
    → All (λ e. same e d ≡ false) (due_devices now ts)
unfolding due_devices lookup
due_away now [] d t u found rests = tt
due_away now ((k, s) ∷ ts) d t u found rests = elim (Bool-cases (same k d)) [
  | inl hit ↦
      let this : s ≡ t = ground arith in
      let key : k ≡ d = (same_iff k d).0 hit in
      rw (ap (is_due now) this ∙ rests) (
        subst (λ x. All (λ e. same e x ≡ false) (due_devices now ts)) key
          (absent_away now ts k u.0))
  | inr miss ↦
      let rest = due_away now ts d t u.1 (ground arith) rests in
      if_elim (All (λ x. same x d ≡ false)) (is_due now s) (λ _. (miss, rest)) (λ _. rest)
]

module _ (c : ClientConfig) where
  module _ (floats : Float64) where
    lookup-update_same :
        (f : ReconnectTask → ReconnectTask) (ts : Tasks) (d : String) (t : ReconnectTask)
        → lookup d ts ≡ some t
        → lookup d (update_task f ts d) ≡ some (f t)
    lookup-update_same f ts d t e =
        rw (e, update_task) (ground (arith, lookup-insert d d (f t) ts, same_refl d))

    restarts :
        (now : ℕ) (t : ReconnectTask)
        → t.enabled ≡ false
        → let u = schedule_task floats c now (reenabled c t) in
          (u.enabled ≡ true) × (u.attempts ≡ 1)
    unfolding schedule_task reenabled
    restarts now t e = rw (e, once) (refl, omega arith)
      where
        once : exhausted (0 + 1) c.retry_attempts ≡ false
        once = ground arith

    -- An attempt that was under way when `StopReconnect` came, and then fails, takes the stop back: the
    -- device is enabled again, at its first attempt.
    pub attempt_reconnect-undoes_stop :
        (now : ℕ) (e : GoError) (ts : Tasks) (d : String) (t : ReconnectTask)
        → lookup d ts ≡ some t
        → (u : ReconnectTask) × (lookup d
              (attempt_reconnect floats c now (some e) (stop_reconnect ts d) d).0
            ≡ some u)
          × (u.enabled ≡ true)
          × (u.attempts ≡ 1)
    unfolding attempt_reconnect stop_reconnect
    attempt_reconnect-undoes_stop now e ts d t found =
        let s : ReconnectTask = mark_failed e (record t { enabled = false }) in
        let marked =
          lookup-update_same (mark_failed e) (stop_reconnect ts d) d (record t { enabled = false })
            (lookup-update_same (λ u. record u { enabled = false }) ts d t found) in
        let (live, first) = restarts now s refl in
        (
          schedule_task floats c now (reenabled c s),
          lookup-schedule_reconnect floats c now
                (update_task (mark_failed e) (stop_reconnect ts d) d) d
              ∙ ap (λ o. some (schedule_task floats c now (reenabled c (task_or_new c d o))))
                  marked,
          live,
          first,
        )

    -- An attempt leaves the tasks of other devices alone.
    lookup-attempt_other :
        (now : ℕ) (answer : Option GoError) (ts : Tasks) (d other : String)
        → same d other ≡ false
        → lookup other (attempt_reconnect floats c now answer ts d).0 ≡ lookup other ts
    unfolding attempt_reconnect schedule_reconnect
    lookup-attempt_other now (some e) ts d other ne =
        lookup-insert_other _ (update_task (mark_failed e) ts d) d other ne
        ∙ lookup-update_other (mark_failed e) ts d other ne
    lookup-attempt_other now none ts d other ne = lookup-update_other mark_connected ts d other ne

    lookup-attempt_all :
        (connect : String → ℕ × Option GoError) (ds : List String) (ts : Tasks) (d : String)
        → All (λ e. same e d ≡ false) ds
        → lookup d (attempt_all floats c connect ds ts) ≡ lookup d ts
    unfolding attempt_all
    lookup-attempt_all connect [] ts d away = refl
    lookup-attempt_all connect (e ∷ ds) ts d away =
        lookup-attempt_all connect ds
          (attempt_reconnect floats c (connect e).0 (connect e).1 ts e).0 d away.1
        ∙ lookup-attempt_other (connect e).0 (connect e).1 ts e d away.0

    -- A pass of the worker leaves alone a task that is disabled, or whose next attempt is not past,
    -- where every device has one task.
    pub lookup-process_reconnect_tasks :
        (now : ℕ) (connect : String → ℕ × Option GoError) (ts : Tasks) (d : String)
        (t : ReconnectTask)
        → Distinct ts
        → lookup d ts ≡ some t
        → is_due now t ≡ false
        → lookup d (process_reconnect_tasks floats c now connect ts) ≡ some t
    unfolding process_reconnect_tasks
    lookup-process_reconnect_tasks now connect ts d t u found rests =
        lookup-attempt_all connect (due_devices now ts) ts d (due_away now ts d t u found rests)
        ∙ found

count_tasks-adds :
    (ts : Tasks) (s : ReconnectStatistics)
    → (count_tasks ts s).active_tasks + (count_tasks ts s).disabled_tasks
      ≡ s.active_tasks + s.disabled_tasks + length ts
unfolding count_tasks
count_tasks-adds [] s = omega arith
count_tasks-adds ((d, t) ∷ ts) s = ground (arith, count_tasks-adds ts (count_task t s))

count_tasks-total :
    (ts : Tasks) (s : ReconnectStatistics) → (count_tasks ts s).total_tasks ≡ s.total_tasks
unfolding count_tasks
count_tasks-total [] s = refl
count_tasks-total ((d, t) ∷ ts) s = count_tasks-total ts (count_task t s)

-- The statistics count every task once: as active or as disabled.
pub get_statistics-adds :
    (ts : Tasks)
    → ((get_statistics ts).active_tasks + (get_statistics ts).disabled_tasks ≡ length ts)
      × ((get_statistics ts).total_tasks ≡ length ts)
unfolding get_statistics
get_statistics-adds ts =
    let none_yet : ReconnectStatistics = record {
      total_tasks = length ts;
      active_tasks = 0;
      disabled_tasks = 0;
      total_attempts = 0;
    } in
    (omega (arith, count_tasks-adds ts none_yet), count_tasks-total ts none_yet)
