-- ===== src/TaskWorker/Tests.antt =====
-- The worker of task queues on a scheduled task that is there for two runs, and three deliveries.
use clawndom.Common.{ℕ, true, none, some, List, [], ◌∷◌, ◌≡◌, refl}
use clawndom.Common.Dict.{Dict}
use clawndom.Routing.Json.{Json, str}
use clawndom.Routing.Condition.{Runtime}
use clawndom.ScheduledTasks.Tests.{tasks_code, deps, stocked}
use clawndom.TaskWorker.{
  TaskAgent, Environment, World, JobMeta, process_scheduled_task, fire_if, run_scheduled,
  run_direct_prompt, read_direct_prompt, read_string, read_use_memory, read_scheduled_tools,
  build_recall_block, run_with_tools, run_bundled, run_if, run_and_clean,
}
use clawndom.TaskWorker.Counts.{count_runs, count_built, count_cleaned}
use clawndom.TaskWorker.Budget.{process_deliveries}

abbrev runtime : Runtime
runtime = record { inherited = λ v key. none; regexp = λ pattern flags. none }

abbrev env : Environment
env = record {
  registry = deps;
  runtime = runtime;
  read_use_memory = λ value. none;
  read_tools = λ value. some "[\"gmail\"]";
  top_k_default = 3;
  min_similarity_default = "0.5";
  search = λ namespace query top_k min_similarity trace_id. none;
  recall_block = λ memories namespace trace_id. "";
  render = λ template payload dir. some (template, "");
  has_runner = λ name. true;
  build_bundle = λ tools dir route_id trace_id. some (some "bundle");
  run = λ request. none;
}

abbrev ada : TaskAgent
ada = record {
  name = "ada";
  dir = "agents/ada";
  internal_rules = [];
  schedule_rules = [];
  namespaces = none;
}

abbrev context : Dict Json
context = ("directPrompt", str "water the plants") ∷ ("tools", str "gmail") ∷ []

abbrev minute : ℕ → JobMeta
minute now = record { job_id = none; now_text = "now"; now = now }

abbrev before : World
before = record { service = stocked; actions = [] }

abbrev deliveries : List JobMeta
deliveries = minute 60 ∷ minute 120 ∷ minute 180 ∷ []

abbrev after : World
after = process_deliveries env ada "r" "plants" context deliveries before

run_code : Unit {0}
unfolding tasks_code count_runs count_built count_cleaned process_deliveries process_scheduled_task
    fire_if run_scheduled run_direct_prompt read_direct_prompt read_string read_use_memory
    read_scheduled_tools build_recall_block run_with_tools run_bundled run_if run_and_clean
run_code = tt

-- Two runs for three deliveries.
three_deliveries :
    (count_runs after.actions ≡ 2)
    × (count_built after.actions ≡ 2)
    × (count_cleaned after.actions ≡ 2)
unfolding run_code
three_deliveries = (refl, refl, refl)
