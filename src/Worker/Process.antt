-- ===== src/Worker/Process.antt =====
-- services/worker.service.ts: `processJob`, from the queued job to the end of the agent's run.
-- What comes before the start event (memories, entities, the template, secrets) is the parameter
-- `prepare`, which may throw; the tools, the directories and the run itself are `dispatch`, which
-- answers or throws.
use clawndom.Common.{
  ℕ, ◌-◌, String, Option, none, some, List, [], ◌∷◌, ◌++◌, get_or, ◌⧺◌, if◌then◌else◌,
}
use clawndom.Common.Result.{Result, ok, err}
use clawndom.Event.{ClawndomEvent, webhook_accepted, job_started, job_completed, JobStarted}
use clawndom.Registry.Active.{ActiveJobs, has_pending_context}
use clawndom.Routing.Json.{Json}
use clawndom.Routing.Condition.{Runtime}
use clawndom.Routing.Resolve.{ResolvedAgent, ResolvedRoute, resolve_agent_from_agents}
use clawndom.Worker.Envelope.{
  EnvelopeContext, JobEnvelope, Codec, parse_envelope, Job, job_id_string, trace_id_of, QueuedJob,
}
use clawndom.Worker.Model.{ModelRule, resolve_model}
use clawndom.Worker.Quota.{handle_quota_exceeded}

-- `RunResult`.
pub data RunResult : Type 0 where
  finished : (run_id : Option String) → RunResult
  error : (message : Option String) → RunResult
  timeout : (run_id : Option String) → RunResult
  quota_exceeded : (reset_at : Option ℕ) → (session_id : Option String) → RunResult

-- What the run of one job depends on: the loaded agents with their model rules, the JSON of the
-- payload, the clock at the start and at the end, the id of a requeued job, and the run.
pub record Scene : Type 0 where
  pub runtime : Runtime
  pub parse_json : String → Option Json
  pub provider : String
  pub runner_name : String
  pub agents : List ResolvedAgent
  pub model_rules : String → List ModelRule
  pub started_at : ℕ
  pub ended_at : ℕ
  pub requeued_id : Option String
  pub prepare : ResolvedRoute → JobEnvelope → Json → Option String
  pub dispatch : ResolvedRoute → JobEnvelope → Json → Option String → Result String RunResult

-- The events in order, the requeued job, and the message of the error when the job throws.
pub record Processed : Type 0 where
  pub published : List ClawndomEvent
  pub requeued : Option QueuedJob
  pub thrown : Option String

abbrev pub throw : List ClawndomEvent → String → Processed
throw events message = record { published = events; requeued = none; thrown = some message }

-- The recovery emit: the context of the envelope, when this process has seen none.
unfoldable pub recovery_emit :
    ActiveJobs → Scene → String → Option EnvelopeContext → List ClawndomEvent
unfolding has_pending_context
recovery_emit registry scene trace_id none = []
recovery_emit registry scene trace_id (some context) =
    if has_pending_context trace_id registry
    then []
    else webhook_accepted (record {
      timestamp = scene.started_at;
      trace_id = trace_id;
      provider = scene.provider;
      context_id = context.id;
      context_title = context.title;
      context_status = context.status;
    })
      ∷ []

-- After the run: completed, paused, or thrown to the failure listener.
unfoldable pub settle :
    Codec → Scene → Job → List ClawndomEvent → Result String RunResult → Processed
unfolding handle_quota_exceeded parse_envelope
settle codec scene job events (err message) = throw events message
settle codec scene job events (ok (error message)) =
    throw events ("Agent run failed: " ⧺ get_or message "unknown error")
settle codec scene job events (ok (timeout run_id)) =
    throw events ("Agent run timed out (runId: " ⧺ get_or run_id "undefined" ⧺ ")")
settle codec scene job events (ok (quota_exceeded reset_at session_id)) =
    let (queued, paused) =
      handle_quota_exceeded codec scene.provider scene.ended_at scene.requeued_id
        (parse_envelope codec job.raw) (trace_id_of codec job) (job_id_string job) reset_at
        session_id in
    record { published = events ++ paused ∷ []; requeued = some queued; thrown = none }
settle codec scene job events (ok (finished run_id)) = record {
  published =
      events
      ++ job_completed (record {
        timestamp = scene.ended_at;
        trace_id = trace_id_of codec job;
        job_id = job_id_string job;
        provider = scene.provider;
        duration_ms = scene.ended_at - scene.started_at;
        run_id = get_or run_id "unknown";
      })
        ∷ [];
  requeued = none;
  thrown = none;
}

abbrev pub started_event : Codec → Scene → Job → ResolvedRoute → Option String → JobStarted
started_event codec scene job resolved model = record {
  timestamp = scene.started_at;
  trace_id = trace_id_of codec job;
  job_id = job_id_string job;
  provider = scene.provider;
  agent_id = resolved.agent_id;
  template = resolved.message_template;
  runner = scene.runner_name;
  model = model;
}

-- The routed job: the model, the recovery emit, the start, the run and its end.
unfoldable pub process_routed : Codec → ActiveJobs → Scene → Job → Json → ResolvedRoute → Processed
unfolding parse_envelope recovery_emit settle resolve_model
process_routed codec registry scene job payload resolved =
    let envelope = parse_envelope codec job.raw in
    let model =
      resolve_model scene.runtime.inherited payload (scene.model_rules resolved.agent_id) in
    let run =
      settle codec scene job
        (recovery_emit registry scene (trace_id_of codec job) envelope.context
          ++ job_started (started_event codec scene job resolved model) ∷ [])
        (scene.dispatch resolved envelope payload model) in
    elim (scene.prepare resolved envelope payload) [ some message ↦ throw [] message | none ↦ run ]

-- A job that no rule matches ends without an event.
unfoldable pub process_parsed : Codec → ActiveJobs → Scene → Job → Option Json → Processed
unfolding process_routed
process_parsed codec registry scene job none = throw [] "SyntaxError"
process_parsed codec registry scene job (some payload) =
    elim (resolve_agent_from_agents scene.runtime payload scene.provider scene.agents) [
      | err e ↦ throw [] "Condition"
      | ok none ↦ record { published = []; requeued = none; thrown = none }
      | ok (some resolved) ↦ process_routed codec registry scene job payload resolved
    ]

unfoldable pub process_job : Codec → ActiveJobs → Scene → Job → Processed
unfolding process_parsed parse_envelope
process_job codec registry scene job =
    process_parsed codec registry scene job
      (scene.parse_json (parse_envelope codec job.raw).payload)
