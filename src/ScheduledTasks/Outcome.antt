-- ===== src/ScheduledTasks/Outcome.antt =====
-- What an upsert reports, and what it leaves behind.
use clawndom.Common.{
  ℕ, ◌+◌, String, Bool, true, false, Option, none, some, if◌then◌else◌, is_some, length,
  length-append, ◌≡◌, refl, ap, ◌∙◌, arith, eq_refl, inl, inr, Bool-cases,
}
use clawndom.Common.Result.{Result, ok, err}
use clawndom.ScheduledTasks.Task.{
  ScheduledTask, ScheduledTaskWhen, cron, fire_at, ScheduledTaskCreatedBy, config, agent,
  ScheduledTaskCaps, CreateScheduledTaskInput, is_valid, schema_parse,
}
use clawndom.ScheduledTasks.Store.{Sets, get_by_id, persist}
use clawndom.ScheduledTasks.Service.{Service, Dependencies, Readings}
use clawndom.ScheduledTasks.Upsert.{
  UpsertError, per_trace, future_window, invalid, queue_failed, task_id, upsert, admit, store_task,
  build_task, gate, publish_created, kept_run_count, enforce_caps, check_per_trace,
  check_future_window, first_error, for_agent,
}
use clawndom.ScheduledTasks.Lookups.{get_by_id-persist}

module _ (deps : Dependencies) (id : String) where
  -- What may be relied on after an upsert of `id`: a task that is returned is stored, with the runs of
  -- the task it replaces, and one event more is published if there was none to replace; when the
  -- queue fails a task is stored all the same, and nothing is published; any other error changes
  -- nothing.
  unfoldable pub Reported :
      Option ScheduledTask → Service → Service × Result UpsertError ScheduledTask → Type 0
  Reported existing before (after, ok task) =
      (get_by_id deps.codec id after.store ≡ some task)
      × (task.run_count ≡ kept_run_count existing)
      × (length after.published ≡ length before.published + (if is_some existing then 0 else 1))
  Reported existing before (after, err queue_failed) =
      (is_some (get_by_id deps.codec id after.store) ≡ true) × (after.published ≡ before.published)
  Reported existing before (after, err (per_trace limit observed)) = after ≡ before
  Reported existing before (after, err (future_window limit observed)) = after ≡ before
  Reported existing before (after, err invalid) = after ≡ before

  length-publish_created :
      (input : CreateScheduledTaskInput) (existing : Option ScheduledTask) (task : ScheduledTask)
      (now : ℕ)
      → length (publish_created input existing task now) ≡ (if is_some existing then 0 else 1)
  unfolding publish_created
  length-publish_created input none task now = refl
  length-publish_created input (some existing) task now = refl

  store_task-Reported :
      (input : CreateScheduledTaskInput) (existing : Option ScheduledTask) (clock : Readings)
      (accepted : Bool) (service : Service)
      → Reported existing service (
          store_task deps input existing
            (schema_parse deps.codec (build_task deps input id existing clock.decided))
            clock
            accepted
            service)
  unfolding store_task schema_parse Reported build_task
  store_task-Reported input existing clock accepted service =
      let task = build_task deps input id existing clock.decided in
      elim (Bool-cases (is_valid deps.codec task)) [
        | inl e ↦
            let stored : get_by_id deps.codec id (persist deps.codec task service.store)
                ≡ some task =
              get_by_id-persist deps.codec task service.store id e ∙ rw (eq_refl id) refl in
            elim (Bool-cases accepted) [
              | inl a ↦
                  rw (e, a)
                    (
                      stored,
                      refl,
                      length-append service.published
                            (publish_created input existing task clock.announced)
                          ∙ ap (λ n. length service.published + n)
                              (length-publish_created input existing task clock.announced),
                    )
              | inr a ↦ rw (e, a) (ap is_some stored, refl)
            ]
        | inr e ↦ rw e refl
      ]

  -- An error of the gate is one of the two caps.
  abbrev is_cap : Option UpsertError → Bool
  is_cap none = true
  is_cap (some (per_trace limit observed)) = true
  is_cap (some (future_window limit observed)) = true
  is_cap (some queue_failed) = false
  is_cap (some invalid) = false

  first_error-is_cap :
      (o later : Option UpsertError)
      → is_cap o ≡ true
      → is_cap later ≡ true
      → is_cap (first_error o later) ≡ true
  first_error-is_cap none later h k = k
  first_error-is_cap (some e) later h k = h

  check_per_trace-is_cap :
      (caps : ScheduledTaskCaps) (trace : Option String) (sets : Sets)
      → is_cap (check_per_trace caps trace sets) ≡ true
  unfolding check_per_trace
  check_per_trace-is_cap caps none sets = refl
  check_per_trace-is_cap caps (some trace) sets = ground arith

  check_future_window-is_cap :
      (caps : ScheduledTaskCaps) (when : ScheduledTaskWhen) (now : ℕ)
      → is_cap (check_future_window caps when now) ≡ true
  unfolding check_future_window
  check_future_window-is_cap caps (cron pattern timezone) now = refl
  check_future_window-is_cap caps (fire_at time) now = ground arith

  enforce_caps-is_cap :
      (caps : Option ScheduledTaskCaps) (input : CreateScheduledTaskInput) (now : ℕ) (sets : Sets)
      → is_cap (enforce_caps caps input now sets) ≡ true
  unfolding enforce_caps
  enforce_caps-is_cap none input now sets = refl
  enforce_caps-is_cap (some caps) input now sets =
      first_error-is_cap _ _ (check_per_trace-is_cap caps input.created_by_trace_id sets)
        (check_future_window-is_cap caps input.when now)

  for_agent-is_cap :
      (c : ScheduledTaskCreatedBy) (refusal : Option UpsertError)
      → is_cap refusal ≡ true
      → is_cap (for_agent c refusal) ≡ true
  for_agent-is_cap config refusal h = refl
  for_agent-is_cap agent refusal h = h

  gate-is_cap :
      (input : CreateScheduledTaskInput) (existing : Option ScheduledTask) (now : ℕ) (sets : Sets)
      → is_cap (gate deps input existing now sets) ≡ true
  unfolding gate
  gate-is_cap input (some existing) now sets = refl
  gate-is_cap input none now sets =
      for_agent-is_cap input.created_by _ (enforce_caps-is_cap deps.caps input now sets)

  admit-Reported :
      (input : CreateScheduledTaskInput) (existing : Option ScheduledTask)
      (refusal : Option UpsertError) (clock : Readings) (accepted : Bool) (service : Service)
      → is_cap refusal ≡ true
      → Reported existing service (admit deps input id existing refusal clock accepted service)
  unfolding admit Reported
  admit-Reported input existing none clock accepted service h =
      store_task-Reported input existing clock accepted service
  admit-Reported input existing (some (per_trace limit observed)) clock accepted service h = refl
  admit-Reported input existing (some (future_window limit observed)) clock accepted service h =
      refl
  admit-Reported input existing (some queue_failed) clock accepted service h = absurd (cc h)
  admit-Reported input existing (some invalid) clock accepted service h = absurd (cc h)

-- An upsert that returns a task has stored it under its id, with the runs of the task that it replaces
-- or none, and has published one event if there was no such task and none otherwise. When the queue
-- throws, a task is in the store all the same and no event is published. When a cap or the schema
-- refuses, nothing has changed.
pub upsert-Reported :
    (deps : Dependencies) (input : CreateScheduledTaskInput) (fresh : String) (clock : Readings)
    (accepted : Bool) (service : Service)
    → Reported deps
        (task_id input fresh)
        (get_by_id deps.codec (task_id input fresh) service.store)
        service
        (upsert deps input fresh clock accepted service)
unfolding upsert
upsert-Reported deps input fresh clock accepted service =
    let existing = get_by_id deps.codec (task_id input fresh) service.store in
    admit-Reported deps (task_id input fresh) input existing
      (gate deps input existing clock.decided service.store.sets) clock accepted service
      (gate-is_cap deps (task_id input fresh) input existing clock.decided service.store.sets)
