-- ===== src/TaskWorker.antt =====
-- services/task-worker.service.ts: the jobs of an agent's task queue, from the parsed envelope on. The
-- runners, the templates, the search of the memory, the bundles of tools and the schemas of what a
-- payload may carry are parameters; what the worker asks of the runners and the bundles is a log.
pub mod Counts
pub mod Tidy
pub mod Budget
mod Tests
use clawndom.Common.{
  ◌⧺◌, ℕ, suc, String, Bool, true, false, Option, none, some, List, [], ◌∷◌, ◌++◌, ◌==◌, ◌>>=◌,
  if◌then◌else◌, get_or, is_some,
}
use clawndom.Common.Result.{Result, ok, err}
use clawndom.Common.Dict.{Dict}
use clawndom.Common.Dict
use clawndom.Routing.Json.{Json, str, obj, Fields, end, field, stringify}
use clawndom.Routing.Condition.{Condition, Runtime, evaluate}
use clawndom.ScheduledTasks.Service.{Service, Dependencies}
use clawndom.ScheduledTasks.Firing.{FireResult, record_fire}

pub data TaskEnvelope : Type 0 where
  scheduled : (task_id : Option String) (rule : String) → Dict Json → TaskEnvelope
  internal : (task_id task_type : String) → Dict Json → TaskEnvelope

-- A rule, by the fields that the worker reads; `tools` is a JSON text.
pub record TaskRule : Type 0 where
  pub name : Option String
  pub condition : Option Condition
  pub message_template : Option String
  pub runner_type : Option String
  pub tools : Option String

pub record TaskAgent : Type 0 where
  pub name : String
  pub dir : String
  pub internal_rules : List TaskRule
  pub schedule_rules : List TaskRule
  pub namespaces : Option (List String)

-- `useMemory`: a flag, or overrides of the namespace, the number of hits and the similarity.
pub data UseMemory : Type 0 where
  flag : Bool → UseMemory
  overrides :
      (namespace : Option String) (top_k : Option ℕ) (min_similarity : Option String) → UseMemory

pub record RunRequest : Type 0 where
  pub runner : String
  pub prompt : String
  pub system_prompt : String
  pub session_key : String
  pub trace_id : String
  pub bundle : Option String

pub data RunResult : Type 0 where
  finished : (run_id : Option String) → RunResult
  failed : (error : Option String) → RunResult
  timed_out : (run_id : Option String) → RunResult
  quota_exceeded : (reset_at : Option ℕ) → RunResult

pub data TaskError : Type 0 where
  no_internal_rule no_schedule_rule condition_failed template_failed bundle_failed no_runner
        runner_threw :
      TaskError
  run_failed run_timed_out : String → TaskError
  quota_limit : Option ℕ → TaskError

pub data Action : Type 0 where
  built ran cleaned : RunRequest → Action

-- An outer `none` is a call that throws.
pub record Environment : Type 0 where
  pub registry : Dependencies
  pub runtime : Runtime
  pub read_use_memory : Json → Option UseMemory
  pub read_tools : Json → Option String
  pub top_k_default : ℕ
  pub min_similarity_default : String
  pub search :
      (namespace query : String)
      → (top_k : ℕ) → (min_similarity : String) → (trace_id : String) → Option (List String)
  pub recall_block : (memories : List String) → (namespace trace_id : String) → String
  pub render : (template : String) → Json → (dir : String) → Option (String × String)
  pub has_runner : String → Bool
  pub build_bundle : (tools dir route_id trace_id : String) → Option (Option String)
  pub run : RunRequest → Option RunResult

pub record World : Type 0 where
  pub service : Service
  pub actions : List Action

abbrev pub Processed : Type 0
Processed = World × Result TaskError String

-- lib/extract.ts: a text that is not empty.
unfoldable pub read_string : Option Json → Option String
read_string (some (str text)) = if text == "" then none else some text
read_string value = none

-- `readDirectPrompt`, `readUseMemory`, `readScheduledTools`.
unfoldable pub read_direct_prompt : Environment → Dict Json → Option String
unfolding read_string
read_direct_prompt env context = read_string (Dict.get "directPrompt" context)

unfoldable pub read_use_memory : Environment → Dict Json → Option UseMemory
read_use_memory env context = do raw ← Dict.get "useMemory" context; env.read_use_memory raw

unfoldable pub read_scheduled_tools : Environment → Dict Json → Option String
read_scheduled_tools env context = do raw ← Dict.get "tools" context; env.read_tools raw

-- The block for a namespace; a search that throws gives none.
unfoldable pub render_hits : Environment → String → String → Option (List String) → Option String
render_hits env namespace trace_id none = none
render_hits env namespace trace_id (some hits) = some (env.recall_block hits namespace trace_id)

unfoldable pub recall_in :
    Environment → Option String → Option ℕ → Option String → String → String → Option String
unfolding render_hits
recall_in env none top_k min_similarity query trace_id = none
recall_in env (some namespace) top_k min_similarity query trace_id =
    render_hits env namespace trace_id (
      env.search namespace query (get_or top_k env.top_k_default)
        (get_or min_similarity env.min_similarity_default) trace_id)

abbrev or_default : Option String → Option String → Option String
or_default none d = d
or_default (some namespace) d = some namespace

-- `getAgentDefaultMemoryNamespace`: the first that the agent declares.
unfoldable pub default_namespace : Option (List String) → Option String
default_namespace (some (namespace ∷ rest)) = some namespace
default_namespace none = none
default_namespace (some []) = none

unfoldable pub build_recall_block :
    Environment → TaskAgent → Option UseMemory → String → String → Option String
unfolding recall_in default_namespace
build_recall_block env agent none query trace_id = none
build_recall_block env agent (some (flag false)) query trace_id = none
build_recall_block env agent (some (flag true)) query trace_id =
    recall_in env (default_namespace agent.namespaces) none none query trace_id
build_recall_block env agent (some (overrides namespace top_k min_similarity)) query trace_id =
    recall_in env (or_default namespace (default_namespace agent.namespaces)) top_k min_similarity
      query trace_id

unfoldable pub map_run_result : Option RunResult → Result TaskError String
map_run_result none = err runner_threw
map_run_result (some (finished run_id)) = ok (get_or run_id "unknown")
map_run_result (some (failed error)) = err (run_failed (get_or error "unknown"))
map_run_result (some (timed_out run_id)) = err (run_timed_out (get_or run_id "unknown"))
map_run_result (some (quota_exceeded reset_at)) = err (quota_limit reset_at)

-- `try { runner.run(...) } finally { cleanupMCPBundle(...) }`.
unfoldable pub run_and_clean : Environment → RunRequest → World → Processed
unfolding map_run_result
run_and_clean env request world =
    let used = if is_some request.bundle then cleaned request ∷ [] else [] in
    (
      record world { actions = world.actions ++ ran request ∷ used },
      map_run_result (env.run request),
    )

-- `getRunner` throws for a runner that is not registered.
unfoldable pub run_if : Bool → Environment → RunRequest → World → Processed
unfolding run_and_clean
run_if false env request world = (world, err no_runner)
run_if true env request world = run_and_clean env request world

unfoldable pub run_bundled :
    Environment → Bool → RunRequest → Option (Option String) → World → Processed
unfolding run_if
run_bundled env ready request none world = (world, err bundle_failed)
run_bundled env ready request (some none) world = run_if ready env request world
run_bundled env ready request (some (some bundle)) world =
    let bundled = record request { bundle = some bundle } in
    run_if ready env bundled (record world { actions = world.actions ++ built bundled ∷ [] })

-- The bundle of the tools, when there are any, and the run by a runner that is `ready` or is not.
unfoldable pub run_with_tools :
    Environment → TaskAgent → Option String → String → Bool → RunRequest → World → Processed
unfolding run_if run_bundled
run_with_tools env agent none route_id ready request world = run_if ready env request world
run_with_tools env agent (some tools) route_id ready request world =
    run_bundled env ready request (env.build_bundle tools agent.dir route_id request.trace_id) world

abbrev with_block : Option String → String → String
with_block none prompt = prompt
with_block (some block) prompt = block ⧺ "\n" ⧺ prompt

unfoldable pub run_direct_prompt :
    Environment → TaskAgent → String → Dict Json → String → String → String → World → Processed
unfolding run_with_tools build_recall_block read_use_memory read_scheduled_tools
run_direct_prompt env agent prompt context target session_key trace_id world =
    run_with_tools env agent (read_scheduled_tools env context) ("schedule:" ⧺ target)
      (env.has_runner "claude-cli")
      (record {
        runner = "claude-cli";
        prompt =
            with_block (build_recall_block env agent (read_use_memory env context) prompt trace_id)
              prompt;
        system_prompt = "";
        session_key = session_key;
        trace_id = trace_id;
        bundle = none;
      })
      world

-- The prompt and the system prompt of a rule; a shell rule has neither, and a runner of its own.
unfoldable pub with_runner : Bool → Option (String × String) → Result TaskError (String × String)
with_runner ready none = err template_failed
with_runner false (some prompts) = err no_runner
with_runner true (some prompts) = ok prompts

unfoldable pub fill_template :
    Environment → TaskAgent → Option String → Json → Option (String × String)
unfolding stringify
fill_template env agent none payload = some (stringify payload, "")
fill_template env agent (some template) payload =
    if template == "" then some (stringify payload, "") else env.render template payload agent.dir

abbrev runner_of : TaskRule → String
runner_of rule = get_or rule.runner_type "claude-cli"

unfoldable pub resolve_runner_and_prompt :
    Environment → TaskAgent → TaskRule → Json → Result TaskError (String × String)
unfolding with_runner fill_template
resolve_runner_and_prompt env agent rule payload =
    if runner_of rule == "shell"
    then ok ("", "")
    else with_runner (env.has_runner (runner_of rule))
        (fill_template env agent rule.message_template payload)

unfoldable pub run_prompted :
    Environment
    → TaskAgent
    → TaskRule
    → Result TaskError (String × String)
    → (prefix session_key trace_id : String) → World
    → Processed
unfolding run_with_tools
run_prompted env agent rule (err e) prefix session_key trace_id world = (world, err e)
run_prompted env agent rule (ok (prompt, system_prompt)) prefix session_key trace_id world =
    run_with_tools env agent rule.tools (prefix ⧺ ":" ⧺ get_or rule.name "<unnamed>") true
      (record {
        runner = runner_of rule;
        prompt = prompt;
        system_prompt = system_prompt;
        session_key = session_key;
        trace_id = trace_id;
        bundle = none;
      })
      world

unfoldable pub run_rule :
    Environment
    → TaskAgent
    → TaskRule
    → Json
    → (prefix session_key trace_id : String) → World
    → Processed
unfolding run_prompted resolve_runner_and_prompt
run_rule env agent rule payload prefix session_key trace_id world =
    run_prompted env agent rule (resolve_runner_and_prompt env agent rule payload) prefix
      session_key trace_id world

-- An object literal with a spread behind its first fields.
unfoldable pub spread : Dict Json → Dict Json → Dict Json
spread base [] = base
spread base ((key, value) ∷ rest) = spread (Dict.set key value base) rest

abbrev to_fields : Dict Json → Fields
to_fields [] = end
to_fields ((key, value) ∷ rest) = field key value (to_fields rest)

unfoldable pub find_internal : Runtime → Json → List TaskRule → Result TaskError TaskRule
find_internal runtime payload [] = err no_internal_rule
find_internal runtime payload (rule ∷ rules) =
    let later = find_internal runtime payload rules in
    elim rule.condition [
      | none ↦ later
      | some condition ↦ elim (evaluate runtime condition payload) [
        | ok true ↦ ok rule
        | ok false ↦ later
        | err e ↦ err condition_failed
      ]
    ]

abbrev is_named : Option String → String → Bool
is_named none wanted = false
is_named (some name) wanted = name == wanted

unfoldable pub find_named : String → List TaskRule → Option TaskRule
find_named wanted [] = none
find_named wanted (rule ∷ rules) =
    let later = find_named wanted rules in if is_named rule.name wanted then some rule else later

unfoldable pub process_internal_task :
    Environment → TaskAgent → String → String → Dict Json → World → Processed
unfolding spread find_internal run_rule
process_internal_task env agent task_id task_type context world =
    let payload = obj (to_fields (spread (("taskType", str task_type) ∷ []) context)) in
    elim (find_internal env.runtime payload agent.internal_rules) [
      | err e ↦ (world, err e)
      | ok rule ↦
          run_rule env agent rule payload "internal" ("agent:" ⧺ agent.name ⧺ ":task-" ⧺ task_id)
            task_id world
    ]

unfoldable pub run_named :
    Environment → TaskAgent → String → Dict Json → String → Option TaskRule → World → Processed
unfolding spread run_rule
run_named env agent rule context trace_id none world = (world, err no_schedule_rule)
run_named env agent rule context trace_id (some matched) world =
    let payload =
      obj (to_fields (spread (("kind", str "scheduled") ∷ ("rule", str rule) ∷ []) context)) in
    run_rule env agent matched payload "schedule"
      ("agent:" ⧺ agent.name ⧺ ":schedule-" ⧺ rule ⧺ "-" ⧺ trace_id) trace_id world

-- What a scheduled job runs once the registry has let it.
unfoldable pub run_scheduled :
    Environment
    → TaskAgent
    → Option String
    → String
    → Dict Json
    → String
    → Option String
    → World
    → Processed
unfolding run_direct_prompt find_named run_named
run_scheduled env agent task_id rule context trace_id (some prompt) world =
    run_direct_prompt env agent prompt context (get_or task_id rule)
      ("agent:" ⧺ agent.name ⧺ ":schedule-" ⧺ get_or task_id rule ⧺ "-" ⧺ trace_id) trace_id world
run_scheduled env agent task_id rule context trace_id none world =
    run_named env agent rule context trace_id (find_named rule agent.schedule_rules) world

-- The registry's answer: a job that is not to fire is done.
unfoldable pub fire_if :
    Bool → Environment → TaskAgent → String → String → Dict Json → String → World → Processed
unfolding run_scheduled read_direct_prompt
fire_if false env agent task_id rule context trace_id world = (world, ok trace_id)
fire_if true env agent task_id rule context trace_id world =
    run_scheduled env agent (some task_id) rule context trace_id (read_direct_prompt env context)
      world

-- `now_text` is the clock that the trace takes, `now` the one that the registry reads.
pub record JobMeta : Type 0 where
  pub job_id : Option String
  pub now_text : String
  pub now : ℕ

abbrev pub trace_of : TaskAgent → String → JobMeta → String
trace_of agent rule meta = "schedule-" ⧺ agent.name ⧺ "-" ⧺ rule ⧺ "-" ⧺ meta.now_text

unfoldable pub process_scheduled_task :
    Environment → TaskAgent → Option String → String → Dict Json → JobMeta → World → Processed
unfolding run_scheduled fire_if read_direct_prompt
process_scheduled_task env agent none rule context meta world =
    run_scheduled env agent none rule context (trace_of agent rule meta)
      (read_direct_prompt env context) world
process_scheduled_task env agent (some task_id) rule context meta world =
    let trace_id = trace_of agent rule meta in
    let fired =
      record_fire env.registry
        (record { id = task_id; job_id = get_or meta.job_id trace_id; trace_id = some trace_id })
        meta.now world.service in
    fire_if fired.1.should_fire env agent task_id rule context trace_id
      (record world { service = fired.0 })

unfoldable pub process_task : Environment → TaskAgent → TaskEnvelope → JobMeta → World → Processed
unfolding process_scheduled_task process_internal_task
process_task env agent (scheduled task_id rule context) meta world =
    process_scheduled_task env agent task_id rule context meta world
process_task env agent (internal task_id task_type context) meta world =
    process_internal_task env agent task_id task_type context world
