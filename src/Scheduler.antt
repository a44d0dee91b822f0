-- ===== src/Scheduler.antt =====
-- services/scheduler.service.ts: the schedules of the agents' configurations become tasks of the
-- registry, under ids that are hashes of the configuration (ScheduledTasks.ConfigId).
pub mod Owned
pub mod Registered
mod Tests
use clawndom.Common.{
  ◌⧺◌, ℕ, String, Bool, true, false, Option, none, some, List, [], ◌∷◌, ◌++◌, ◌==◌, ◌||◌,
  if◌then◌else◌, map, get_or,
}
use clawndom.Common.Result.{Result, ok, err}
use clawndom.Routing.Json.{Json, str, obj, end, field, stringify}
use clawndom.ScheduledTasks.ConfigId.{Hashing, Material, derive_config_task_id}
use clawndom.ScheduledTasks.Task.{
  ScheduledTaskWhen, cron, CreateScheduledTaskInput, config, config_load, ScheduledTask, truthy,
}
use clawndom.ScheduledTasks.Service.{
  Service, Dependencies, Readings, remove_job_scheduler, truthy_or_absent, scheduled_task_key,
}
use clawndom.ScheduledTasks.Upsert.{UpsertError, upsert}
use clawndom.ScheduledTasks.Removal.{reconcile_config}

-- A runner's type, and its whole configuration.
pub record RunnerConfig : Type 0 where
  pub runner_type : String
  pub whole : Json

-- A rule under `routing.schedule`, by the fields that the scheduler reads. `context` is a JSON text.
pub record ScheduleRule : Type 0 where
  pub name : Option String
  pub pattern : Option String
  pub timezone : Option String
  pub message_template : Option String
  pub runner : Option RunnerConfig
  pub context : Option String

pub record ScheduledAgent : Type 0 where
  pub name : String
  pub dir : String
  pub rules : List ScheduleRule

pub record RegisteredSchedule : Type 0 where
  pub agent : String
  pub rule : String
  pub pattern : String
  pub timezone : Option String
  pub scheduler_id : String
  pub task_id : String

-- Why the registration throws: a field that a rule lacks, or an upsert that failed.
pub data ScheduleError : Type 0 where
  missing_name missing_cron missing_template : ScheduleError
  upsert_failed : UpsertError → ScheduleError

-- The hash, the clock as the upsert of a task reads it, and whether the queue accepts the call.
pub record Environment : Type 0 where
  pub registry : Dependencies
  pub hashing : Hashing
  pub clock : String → Readings
  pub accepted : String → Bool
  pub reconciled_at : ℕ

abbrev filled : Option String → Option String
filled none = none
filled (some text) = if text == "" then none else some text

unfoldable pub build_when : String → Option String → ScheduledTaskWhen
build_when pattern timezone = cron pattern (truthy_or_absent timezone)

unfoldable pub resolve_runner_config : Option RunnerConfig → ScheduledAgent → RunnerConfig
resolve_runner_config (some runner) agent = runner
resolve_runner_config none agent = record {
  runner_type = "claude-cli";
  whole = obj (field "type" (str "claude-cli") (field "workDirectory" (str agent.dir) end));
}

-- What the hash of a rule with its name and cron is taken of.
unfoldable pub material : ScheduledAgent → ScheduleRule → String → String → Material
unfolding resolve_runner_config build_when
material agent rule name pattern = record {
  agent_id = agent.name;
  name = name;
  when = build_when pattern rule.timezone;
  runner = (resolve_runner_config rule.runner agent).runner_type;
  runner_config = (resolve_runner_config rule.runner agent).whole;
}

abbrev is_shell : Option RunnerConfig → Bool
is_shell none = false
is_shell (some runner) = runner.runner_type == "shell"

abbrev has_text : Option String → Bool
has_text none = false
has_text (some text) = truthy text

abbrev pub id_of : Environment → Material → String
id_of env m = derive_config_task_id env.hashing m

-- The input of the upsert of a rule with its name and cron.
unfoldable pub rule_input :
    Environment → ScheduledAgent → ScheduleRule → String → String → CreateScheduledTaskInput
unfolding material stringify
rule_input env agent rule name pattern =
    let m = material agent rule name pattern in
    record {
      id = some (id_of env m);
      agent_id = m.agent_id;
      name = some m.name;
      when = m.when;
      runner = m.runner;
      runner_config = stringify m.runner_config;
      payload = some (get_or rule.context "{}");
      created_by = config;
      created_by_trace_id = none;
      ttl = none;
      max_runs = none;
      trace_id = none;
      reason = some config_load;
    }

-- The call for the id that schedules had before there was a registry. A failure is passed over.
unfoldable pub remove_legacy_scheduler : String → String → Service → Service
remove_legacy_scheduler agent rule service = record service {
  calls = service.calls ++ remove_job_scheduler agent ("schedule:" ⧺ agent ⧺ ":" ⧺ rule) ∷ [];
}

abbrev pub Registration : Type 0
Registration = Service × Result ScheduleError (List RegisteredSchedule)

-- The name and the cron of a rule, when nothing is missing.
unfoldable pub check_rule : ScheduleRule → Result ScheduleError (String × String)
unfolding truthy
check_rule rule = elim (filled rule.name) [
  | none ↦ err missing_name
  | some name ↦ elim (filled rule.pattern) [
    | none ↦ err missing_cron
    | some pattern ↦
        if has_text rule.message_template || is_shell rule.runner
        then ok (name, pattern)
        else err missing_template
  ]
]

unfoldable pub schedule_of :
    CreateScheduledTaskInput → ScheduleRule → String → String → RegisteredSchedule
unfolding scheduled_task_key
schedule_of input rule name pattern = record {
  agent = input.agent_id;
  rule = name;
  pattern = pattern;
  timezone = rule.timezone;
  scheduler_id = scheduled_task_key (get_or input.id "");
  task_id = get_or input.id "";
}

-- `registered.push(...)`, unless the upsert throws.
abbrev pub push_schedule :
    List RegisteredSchedule
    → RegisteredSchedule
    → Service × Result UpsertError ScheduledTask
    → Registration
push_schedule registered schedule (service, ok task) = (service, ok (registered ++ schedule ∷ []))
push_schedule registered schedule (service, err e) = (service, err (upsert_failed e))

unfoldable pub register_checked :
    Environment
    → ScheduledAgent
    → ScheduleRule
    → Result ScheduleError (String × String)
    → List RegisteredSchedule
    → Service
    → Registration
unfolding rule_input remove_legacy_scheduler schedule_of
register_checked env agent rule (err e) registered service = (service, err e)
register_checked env agent rule (ok (name, pattern)) registered service =
    let input = rule_input env agent rule name pattern in
    let schedule = schedule_of input rule name pattern in
    push_schedule registered schedule (
      upsert env.registry input "" (env.clock schedule.task_id) (env.accepted schedule.task_id)
        (remove_legacy_scheduler agent.name name service))

-- The inner loop, over the rules of an agent.
unfoldable pub register_rules :
    Environment → ScheduledAgent → List ScheduleRule → Registration → Registration
unfolding register_checked check_rule
register_rules env agent [] (service, state) = (service, state)
register_rules env agent (rule ∷ rules) (service, err e) = (service, err e)
register_rules env agent (rule ∷ rules) (service, ok registered) =
    register_rules env agent rules
      (register_checked env agent rule (check_rule rule) registered service)

unfoldable pub register_agents : Environment → List ScheduledAgent → Registration → Registration
unfolding register_rules
register_agents env [] state = state
register_agents env (agent ∷ agents) state =
    register_agents env agents (register_rules env agent agent.rules state)

-- The reconcile pass, unless something has failed.
unfoldable pub reconciled : Environment → Registration → Registration
reconciled env (service, err e) = (service, err e)
reconciled env (service, ok registered) = (
  (reconcile_config env.registry env.reconciled_at (map (λ s. s.task_id) registered) service).0,
  ok registered,
)

unfoldable pub register_agent_schedules : Environment → List ScheduledAgent → Service → Registration
unfolding register_agents reconciled
register_agent_schedules env agents service =
    reconciled env (register_agents env agents (service, ok []))
