-- ===== src/Inflight/Runs.antt =====
-- The run of a trace read off the history of events and restarts alone, and its hash.
use clawndom.Common.{ℕ, String, Option, none, some, List, [], ◌∷◌, if◌then◌else◌, ◌==◌}
use clawndom.Event.{
  ClawndomEvent, webhook_accepted, job_paused, job_retried, job_started, job_completed, job_failed,
  runner, JobStarted,
}
use clawndom.Inflight.{
  Numerals, PendingContext, InflightRecord, InflightRegistry, Hash, context_fields, runner_type,
  handle_event, stop,
}

-- What happens to the registry: an event of the bus, or a new process.
pub data Step : Type 0 where
  event : ClawndomEvent → Step
  restart : Step

unfoldable pub apply : Numerals → Step → InflightRegistry → InflightRegistry
apply numerals (event e) r = handle_event numerals e r
apply numerals restart r = stop r

-- The registry after a history, newest step first.
unfoldable pub after : Numerals → List Step → InflightRegistry
unfolding apply
after numerals [] = record { redis = []; pending_context = [] }
after numerals (step ∷ history) = apply numerals step (after numerals history)

-- The context of a trace that this process has seen and no terminal event has dropped.
abbrev pub context_of : String → List Step → Option PendingContext
context_of trace [] = none
context_of trace (restart ∷ history) = none
context_of trace (event (webhook_accepted e) ∷ history) =
    if e.trace_id == trace
    then some (record {
      context_id = e.context_id;
      context_title = e.context_title;
      context_status = e.context_status;
    })
    else context_of trace history
context_of trace (event (job_completed e) ∷ history) =
    if e.trace_id == trace then none else context_of trace history
context_of trace (event (job_failed e) ∷ history) =
    if e.final
    then if e.trace_id == trace then none else context_of trace history
    else context_of trace history
context_of trace (event e ∷ history) = context_of trace history

-- A run in flight.
pub record Run : Type 0 where
  pub start : JobStarted
  pub last_event_at : ℕ
  pub last_event_type : String
  pub context : Option PendingContext

abbrev pub kept_context : Option Run → Option PendingContext
kept_context none = none
kept_context (some run) = run.context

-- A start without a context keeps the one of the run that it replaces.
abbrev pub or_kept : Option PendingContext → Option Run → Option PendingContext
or_kept none run = kept_context run
or_kept (some context) run = some context

abbrev pub touched : ℕ → String → Option Run → Option Run
touched timestamp kind none = none
touched timestamp kind (some run) =
    some (record run { last_event_at = timestamp; last_event_type = kind })

-- The run of a trace: it starts, later events move its last activity, and a completion or a final
-- failure ends it. A restart changes nothing.
abbrev pub run_of : String → List Step → Option Run
run_of trace [] = none
run_of trace (restart ∷ history) = run_of trace history
run_of trace (event (job_started e) ∷ history) =
    if e.trace_id == trace
    then some (record {
      start = e;
      last_event_at = e.timestamp;
      last_event_type = "job.started";
      context = or_kept (context_of e.trace_id history) (run_of e.trace_id history);
    })
    else run_of trace history
run_of trace (event (job_paused e) ∷ history) =
    if e.trace_id == trace
    then touched e.timestamp "job.paused" (run_of e.trace_id history)
    else run_of trace history
run_of trace (event (job_retried e) ∷ history) =
    if e.trace_id == trace
    then touched e.timestamp "job.retried" (run_of e.trace_id history)
    else run_of trace history
run_of trace (event (runner e) ∷ history) =
    if e.trace_id == trace
    then touched e.timestamp (runner_type e.kind) (run_of e.trace_id history)
    else run_of trace history
run_of trace (event (job_completed e) ∷ history) =
    if e.trace_id == trace then none else run_of trace history
run_of trace (event (job_failed e) ∷ history) =
    if e.final
    then if e.trace_id == trace then none else run_of trace history
    else run_of trace history
run_of trace (event e ∷ history) = run_of trace history

abbrev pub context_id_of : Option PendingContext → Option String
context_id_of none = none
context_id_of (some c) = some c.context_id

abbrev pub context_title_of : Option PendingContext → Option String
context_title_of none = none
context_title_of (some c) = some c.context_title

abbrev pub context_status_of : Option PendingContext → Option String
context_status_of none = none
context_status_of (some c) = some c.context_status

-- The record of a run.
abbrev pub record_of : Option Run → Option InflightRecord
record_of none = none
record_of (some run) = some (record {
  trace_id = run.start.trace_id;
  job_id = run.start.job_id;
  provider = run.start.provider;
  agent_id = run.start.agent_id;
  started_at = run.start.timestamp;
  last_event_at = run.last_event_at;
  last_event_type = run.last_event_type;
  context_id = context_id_of run.context;
  context_title = context_title_of run.context;
  context_status = context_status_of run.context;
})

-- The hash of a run.
abbrev pub hash_of : Numerals → Run → Hash
hash_of numerals run =
    ("traceId", run.start.trace_id)
    ∷ ("jobId", run.start.job_id)
    ∷ ("provider", run.start.provider)
    ∷ ("agentId", run.start.agent_id)
    ∷ ("startedAt", numerals.show run.start.timestamp)
    ∷ ("lastEventAt", numerals.show run.last_event_at)
    ∷ ("lastEventType", run.last_event_type)
    ∷ context_fields run.context

abbrev pub hash_of_each : Numerals → Option Run → Option Hash
hash_of_each numerals none = none
hash_of_each numerals (some run) = some (hash_of numerals run)
