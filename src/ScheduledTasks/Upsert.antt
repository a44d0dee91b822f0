-- ===== src/ScheduledTasks/Upsert.antt =====
-- services/scheduled-tasks.service.ts: the caps on what agents create, and the upsert.
use clawndom.Common.{
  ℕ, ◌-◌, String, Bool, ◌&&◌, Option, none, some, List, [], ◌∷◌, ◌++◌, ltb, leb, if◌then◌else◌,
  get_or, length,
}
use clawndom.Common.Result.{Result, ok, err}
use clawndom.ScheduledTasks.Task.{
  ScheduledTaskWhen, cron, fire_at, ScheduledTaskCreatedBy, config, agent, ScheduledTask,
  ScheduledTaskCreatedReason, config_load, agent_create, CreateScheduledTaskInput,
  ScheduledTaskCaps, ScheduledTaskEvent, created, truthy, schema_parse,
}
use clawndom.ScheduledTasks.Store.{Sets, by_trace, get_by_id, persist}
use clawndom.ScheduledTasks.TaskId.{make_agent_task_id}
use clawndom.ScheduledTasks.Service.{
  Service, Dependencies, Readings, scheduled_task_key, compute_next_fire, schedule_in_bullmq,
}

-- Why an upsert throws: a cap with its limit and what was observed, the schema, the queue.
pub data UpsertError : Type 0 where
  per_trace future_window : ℕ → ℕ → UpsertError
  invalid queue_failed : UpsertError

unfoldable pub check_per_trace : ScheduledTaskCaps → Option String → Sets → Option UpsertError
unfolding truthy
check_per_trace caps none sets = none
check_per_trace caps (some trace) sets =
    let count = length (sets (by_trace trace)) in
    if ltb 0 caps.max_per_trace && truthy trace && leb caps.max_per_trace count
    then some (per_trace caps.max_per_trace count)
    else none

unfoldable pub check_future_window : ScheduledTaskCaps → ScheduledTaskWhen → ℕ → Option UpsertError
check_future_window caps (cron pattern timezone) now = none
check_future_window caps (fire_at time) now =
    let delta = time - now in
    if ltb 0 caps.max_future_window_ms && ltb caps.max_future_window_ms delta
    then some (future_window caps.max_future_window_ms delta)
    else none

abbrev pub first_error : Option UpsertError → Option UpsertError → Option UpsertError
first_error none later = later
first_error (some e) later = some e

-- `none` is a return without an error.
unfoldable pub enforce_caps :
    Option ScheduledTaskCaps → CreateScheduledTaskInput → ℕ → Sets → Option UpsertError
unfolding check_per_trace check_future_window
enforce_caps none input now sets = none
enforce_caps (some caps) input now sets =
    first_error (check_per_trace caps input.created_by_trace_id sets)
      (check_future_window caps input.when now)

unfoldable pub default_created_reason : ScheduledTaskCreatedBy → ScheduledTaskCreatedReason
default_created_reason config = config_load
default_created_reason agent = agent_create

unfoldable pub created_event :
    ScheduledTask → ScheduledTaskCreatedReason → Option String → ℕ → ScheduledTaskEvent
unfolding scheduled_task_key
created_event task reason trace_id now = created (record {
  timestamp = now;
  trace_id = get_or trace_id (get_or task.created_by_trace_id (scheduled_task_key task.id));
  task_id = task.id;
  agent_id = task.agent_id;
  runner = task.runner;
  created_by = task.created_by;
  reason = reason;
  owner_trace_id = task.created_by_trace_id;
  next_fire_at = task.next_fire_at;
})

unfoldable pub task_id : CreateScheduledTaskInput → String → String
unfolding make_agent_task_id
task_id input fresh = get_or input.id (make_agent_task_id input.agent_id fresh)

unfoldable pub kept_run_count : Option ScheduledTask → ℕ
kept_run_count none = 0
kept_run_count (some existing) = existing.run_count

unfoldable pub kept_created_at : Option ScheduledTask → ℕ → ℕ
kept_created_at none now = now
kept_created_at (some existing) now = existing.created_at

unfoldable pub build_task :
    Dependencies → CreateScheduledTaskInput → String → Option ScheduledTask → ℕ → ScheduledTask
unfolding compute_next_fire kept_run_count kept_created_at
build_task deps input id existing now = record {
  id = id;
  agent_id = input.agent_id;
  name = input.name;
  when = input.when;
  runner = input.runner;
  runner_config = input.runner_config;
  payload = input.payload;
  created_by = input.created_by;
  created_by_trace_id = input.created_by_trace_id;
  ttl = input.ttl;
  max_runs = input.max_runs;
  run_count = kept_run_count existing;
  created_at = kept_created_at existing now;
  next_fire_at = compute_next_fire deps input.when now;
}

abbrev pub for_agent : ScheduledTaskCreatedBy → Option UpsertError → Option UpsertError
for_agent config refusal = none
for_agent agent refusal = refusal

-- Only an agent's task that is not there yet meets the caps.
unfoldable pub gate :
    Dependencies → CreateScheduledTaskInput → Option ScheduledTask → ℕ → Sets → Option UpsertError
unfolding enforce_caps
gate deps input (some existing) now sets = none
gate deps input none now sets = for_agent input.created_by (enforce_caps deps.caps input now sets)

-- The event of a task that was not there before.
unfoldable pub publish_created :
    CreateScheduledTaskInput → Option ScheduledTask → ScheduledTask → ℕ → List ScheduledTaskEvent
unfolding created_event default_created_reason
publish_created input (some existing) task now = []
publish_created input none task now =
    created_event task (get_or input.reason (default_created_reason input.created_by))
      input.trace_id now
    ∷ []

abbrev pub Outcome : Type 0
Outcome = Service × Result UpsertError ScheduledTask

-- From the schema on; `accepted` tells whether the queue took the call, or threw.
unfoldable pub store_task :
    Dependencies
    → CreateScheduledTaskInput
    → Option ScheduledTask
    → Option ScheduledTask
    → Readings
    → Bool
    → Service
    → Outcome
unfolding schedule_in_bullmq publish_created
store_task deps input existing none clock accepted service = (service, err invalid)
store_task deps input existing (some task) clock accepted service =
    let stored : Service = record service {
      store = persist deps.codec task service.store;
      calls = service.calls ++ schedule_in_bullmq task task.when clock.queued ∷ [];
    } in
    if accepted
    then (
      record stored {
        published = service.published ++ publish_created input existing task clock.announced;
      },
      ok task,
    )
    else (stored, err queue_failed)

unfoldable pub admit :
    Dependencies
    → CreateScheduledTaskInput
    → String
    → Option ScheduledTask
    → Option UpsertError
    → Readings
    → Bool
    → Service
    → Outcome
unfolding store_task build_task
admit deps input id existing (some e) clock accepted service = (service, err e)
admit deps input id existing none clock accepted service =
    store_task deps input existing
      (schema_parse deps.codec (build_task deps input id existing clock.decided)) clock accepted
      service

unfoldable pub upsert :
    Dependencies → CreateScheduledTaskInput → String → Readings → Bool → Service → Outcome
unfolding task_id gate admit
upsert deps input fresh clock accepted service =
    let id = task_id input fresh in
    let existing = get_by_id deps.codec id service.store in
    admit deps input id existing (gate deps input existing clock.decided service.store.sets) clock
      accepted service
