-- ===== src/ScheduledTasks/Task.antt =====
-- types/scheduled-task.ts, and the inputs and events of services/scheduled-tasks.service.ts. A time
-- is a number of milliseconds since 1970 and not negative. The configuration of a runner and the
-- payload are JSON texts, which the registry passes on.
use clawndom.Common.{
  ℕ, String, Bool, true, not, ◌&&◌, Option, none, some, ltb, ◌==◌, ◌>>=◌, if◌then◌else◌, ◌≡◌,
}

-- `cron` has the pattern and the time zone.
pub data ScheduledTaskWhen : Type 0 where
  cron : String → Option String → ScheduledTaskWhen
  fire_at : ℕ → ScheduledTaskWhen

pub data ScheduledTaskCreatedBy : Type 0 where
  config agent : ScheduledTaskCreatedBy

pub record ScheduledTask : Type 0 where
  pub id : String
  pub agent_id : String
  pub name : Option String
  pub when : ScheduledTaskWhen
  pub runner : String
  pub runner_config : String
  pub payload : Option String
  pub created_by : ScheduledTaskCreatedBy
  pub created_by_trace_id : Option String
  pub ttl : Option ℕ
  pub max_runs : Option ℕ
  pub run_count : ℕ
  pub created_at : ℕ
  pub next_fire_at : Option ℕ

pub data ScheduledTaskCreatedReason : Type 0 where
  config_load api_create agent_create : ScheduledTaskCreatedReason

pub data ScheduledTaskCancelledReason : Type 0 where
  api_delete config_reconcile agent_cancel : ScheduledTaskCancelledReason

pub data ScheduledTaskExpiredReason : Type 0 where
  ttl max_runs : ScheduledTaskExpiredReason

pub record CreateScheduledTaskInput : Type 0 where
  pub id : Option String
  pub agent_id : String
  pub name : Option String
  pub when : ScheduledTaskWhen
  pub runner : String
  pub runner_config : String
  pub payload : Option String
  pub created_by : ScheduledTaskCreatedBy
  pub created_by_trace_id : Option String
  pub ttl : Option ℕ
  pub max_runs : Option ℕ
  pub trace_id : Option String
  pub reason : Option ScheduledTaskCreatedReason

pub record ScheduledTaskCaps : Type 0 where
  pub max_per_trace : ℕ
  pub max_future_window_ms : ℕ

pub record Created : Type 0 where
  pub timestamp : ℕ
  pub trace_id : String
  pub task_id : String
  pub agent_id : String
  pub runner : String
  pub created_by : ScheduledTaskCreatedBy
  pub reason : ScheduledTaskCreatedReason
  pub owner_trace_id : Option String
  pub next_fire_at : Option ℕ

pub record Fired : Type 0 where
  pub timestamp : ℕ
  pub trace_id : String
  pub task_id : String
  pub agent_id : String
  pub runner : String
  pub job_id : String

pub record Cancelled : Type 0 where
  pub timestamp : ℕ
  pub trace_id : String
  pub task_id : String
  pub agent_id : String
  pub runner : String
  pub reason : ScheduledTaskCancelledReason

pub record Expired : Type 0 where
  pub timestamp : ℕ
  pub trace_id : String
  pub task_id : String
  pub agent_id : String
  pub runner : String
  pub reason : ScheduledTaskExpiredReason

pub data ScheduledTaskEvent : Type 0 where
  created : Created → ScheduledTaskEvent
  fired : Fired → ScheduledTaskEvent
  cancelled : Cancelled → ScheduledTaskEvent
  expired : Expired → ScheduledTaskEvent

-- A text is truthy when it is not empty.
unfoldable pub truthy : String → Bool
truthy text = not (text == "")

-- `z.string().min(1).optional()` and `z.number().int().positive().optional()`.
unfoldable pub non_empty_or_absent : Option String → Bool
unfolding truthy
non_empty_or_absent none = true
non_empty_or_absent (some text) = truthy text

unfoldable pub positive_or_absent : Option ℕ → Bool
positive_or_absent none = true
positive_or_absent (some n) = ltb 0 n

unfoldable pub is_valid_when : ScheduledTaskWhen → Bool
unfolding truthy non_empty_or_absent
is_valid_when (cron pattern timezone) = truthy pattern && non_empty_or_absent timezone
is_valid_when (fire_at time) = true

-- What `JSON.stringify` and `JSON.parse` do with a task, with the shape that the schema asks for;
-- `is_runner_config` is the schema of the runners.
pub record Codec : Type 0 where
  pub stringify : ScheduledTask → String
  pub parse : String → Option ScheduledTask
  pub is_runner_config : String → Bool
  pub parse-stringify : (task : ScheduledTask) → parse (stringify task) ≡ some task

unfoldable pub is_valid : Codec → ScheduledTask → Bool
unfolding truthy non_empty_or_absent positive_or_absent is_valid_when
is_valid codec task =
    truthy task.id
    && truthy task.agent_id
    && non_empty_or_absent task.name
    && is_valid_when task.when
    && truthy task.runner
    && codec.is_runner_config task.runner_config
    && non_empty_or_absent task.created_by_trace_id
    && positive_or_absent task.max_runs

-- `scheduledTaskSchema.parse`: `none` is the error that it throws.
unfoldable pub schema_parse : Codec → ScheduledTask → Option ScheduledTask
schema_parse codec task = if is_valid codec task then some task else none

unfoldable pub read_task : Codec → String → Option ScheduledTask
read_task codec raw = do task ← codec.parse raw; schema_parse codec task
