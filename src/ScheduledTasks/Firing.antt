-- ===== src/ScheduledTasks/Firing.antt =====
-- services/scheduled-tasks.service.ts: what happens when the queue delivers a task.
use clawndom.Common.{
  ℕ, ◌+◌, String, Bool, true, false, Option, none, some, [], ◌∷◌, ◌++◌, leb, if◌then◌else◌, get_or,
}
use clawndom.ScheduledTasks.Task.{
  ScheduledTaskWhen, cron, fire_at, ScheduledTask, ScheduledTaskExpiredReason, ttl, max_runs, fired,
  expired,
}
use clawndom.ScheduledTasks.Store.{Store, get_by_id, persist, remove_from_redis}
use clawndom.ScheduledTasks.Service.{Service, Dependencies, scheduled_task_key, compute_next_fire}
use clawndom.ScheduledTasks.Removal.{discard}

unfoldable pub check_ttl : Option ℕ → ℕ → Bool
check_ttl none now = false
check_ttl (some limit) now = leb limit now

unfoldable pub check_max_runs : Option ℕ → ℕ → Bool
check_max_runs none run_count = false
check_max_runs (some limit) run_count = leb limit run_count

unfoldable pub check_expired : ScheduledTask → ℕ → Option ScheduledTaskExpiredReason
unfolding check_ttl check_max_runs
check_expired task now =
    if check_ttl task.ttl now
    then some ttl
    else if check_max_runs task.max_runs task.run_count
    then some max_runs
    else none

pub record FireInput : Type 0 where
  pub id : String
  pub job_id : String
  pub trace_id : Option String

pub record FireResult : Type 0 where
  pub should_fire : Bool
  pub expired_reason : Option ScheduledTaskExpiredReason

-- The task after one more run.
abbrev pub advance : ScheduledTask → Option ℕ → ScheduledTask
advance task next = record task { run_count = task.run_count + 1; next_fire_at = next }

-- A one-shot task goes when it fires, a recurring one waits for its next time.
unfoldable pub after_fire : Dependencies → ScheduledTask → ScheduledTaskWhen → ℕ → Store → Store
unfolding compute_next_fire
after_fire deps task (fire_at time) now store = remove_from_redis task store
after_fire deps task (cron pattern timezone) now store =
    persist deps.codec (advance task (compute_next_fire deps (cron pattern timezone) now)) store

unfoldable pub fire_unless :
    Dependencies
    → FireInput
    → ScheduledTask
    → ℕ
    → Option ScheduledTaskExpiredReason
    → Service
    → Service × FireResult
unfolding discard after_fire scheduled_task_key
fire_unless deps input task now (some reason) service =
    let event = expired (record {
      timestamp = now;
      trace_id = get_or input.trace_id (scheduled_task_key input.id);
      task_id = task.id;
      agent_id = task.agent_id;
      runner = task.runner;
      reason = reason;
    }) in
    (discard task event service, record { should_fire = false; expired_reason = some reason })
fire_unless deps input task now none service =
    let event = fired (record {
      timestamp = now;
      trace_id = get_or input.trace_id (scheduled_task_key input.id);
      task_id = task.id;
      agent_id = task.agent_id;
      runner = task.runner;
      job_id = input.job_id;
    }) in
    (
      record service {
        store = after_fire deps task task.when now service.store;
        published = service.published ++ event ∷ [];
      },
      record { should_fire = true; expired_reason = none },
    )

unfoldable pub fire_found :
    Dependencies → FireInput → ℕ → Option ScheduledTask → Service → Service × FireResult
unfolding fire_unless check_expired
fire_found deps input now none service =
    (service, record { should_fire = false; expired_reason = none })
fire_found deps input now (some task) service =
    fire_unless deps input task now (check_expired task now) service

unfoldable pub record_fire : Dependencies → FireInput → ℕ → Service → Service × FireResult
unfolding fire_found
record_fire deps input now service =
    fire_found deps input now (get_by_id deps.codec input.id service.store) service
