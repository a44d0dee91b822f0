-- ===== src/ScheduledTasks/Service.antt =====
-- services/scheduled-tasks.service.ts: the state of the registry, the calls to the queue, and the
-- next time of a task.
use clawndom.Common.{◌⧺◌, ℕ, ◌-◌, String, Option, none, some, List, if◌then◌else◌, get_or}
use clawndom.ScheduledTasks.Task.{
  ScheduledTaskWhen, cron, fire_at, ScheduledTask, ScheduledTaskCaps, ScheduledTaskEvent, Codec,
  truthy,
}
use clawndom.ScheduledTasks.Store.{Store}

-- What a job of the queue carries.
pub record JobData : Type 0 where
  pub task_id : String
  pub rule : String
  pub context : Option String

-- The calls to the queue of an agent, which comes first.
pub data QueueCall : Type 0 where
  upsert_job_scheduler : String → String → String → Option String → JobData → QueueCall
  add : String → String → ℕ → JobData → QueueCall
  remove_job_scheduler : String → String → QueueCall
  remove_job : String → String → QueueCall

pub record Service : Type 0 where
  pub store : Store
  pub calls : List QueueCall
  pub published : List ScheduledTaskEvent

-- `next_fire_from_cron`: the outer `none` is no resolver, the inner `none` a resolver that throws.
pub record Dependencies : Type 0 where
  pub codec : Codec
  pub next_fire_from_cron : Option (String → Option String → ℕ → Option ℕ)
  pub caps : Option ScheduledTaskCaps

-- The clock as an operation reads it, one reading after the other.
pub record Readings : Type 0 where
  pub decided : ℕ
  pub queued : ℕ
  pub announced : ℕ

unfoldable pub scheduled_task_key : String → String
scheduled_task_key id = "scheduled-task-" ⧺ id

abbrev resolve_cron :
    Option (String → Option String → ℕ → Option ℕ) → String → Option String → ℕ → Option ℕ
resolve_cron none pattern timezone now = none
resolve_cron (some resolver) pattern timezone now = resolver pattern timezone now

unfoldable pub compute_next_fire : Dependencies → ScheduledTaskWhen → ℕ → Option ℕ
compute_next_fire deps (fire_at time) now = some time
compute_next_fire deps (cron pattern timezone) now =
    resolve_cron deps.next_fire_from_cron pattern timezone now

unfoldable pub truthy_or_absent : Option String → Option String
unfolding truthy
truthy_or_absent none = none
truthy_or_absent (some text) = if truthy text then some text else none

unfoldable pub schedule_in_bullmq : ScheduledTask → ScheduledTaskWhen → ℕ → QueueCall
unfolding scheduled_task_key truthy_or_absent
schedule_in_bullmq task (cron pattern timezone) now =
    upsert_job_scheduler task.agent_id (scheduled_task_key task.id) pattern
      (truthy_or_absent timezone)
      (record { task_id = task.id; rule = get_or task.name task.id; context = task.payload })
schedule_in_bullmq task (fire_at time) now =
    add task.agent_id (scheduled_task_key task.id) (time - now)
      (record { task_id = task.id; rule = get_or task.name task.id; context = task.payload })

unfoldable pub remove_from_bullmq : ScheduledTask → ScheduledTaskWhen → QueueCall
unfolding scheduled_task_key
remove_from_bullmq task (cron pattern timezone) =
    remove_job_scheduler task.agent_id (scheduled_task_key task.id)
remove_from_bullmq task (fire_at time) = remove_job task.agent_id (scheduled_task_key task.id)
