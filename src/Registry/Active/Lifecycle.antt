-- ===== src/Registry/Active/Lifecycle.antt =====
-- When a job is listed, and with which context, read off the history of events alone.
use clawndom.Common.{
  String, ◌≡◌, refl, ◌∙◌, Bool, false, Option, none, some, List, [], ◌∷◌, arith, if◌then◌else◌,
  ◌==◌,
}
use clawndom.Common.Dict.{get, get-set, get-delete}
use clawndom.Event.{
  ClawndomEvent, webhook_accepted, job_paused, job_retried, job_started, job_completed, job_failed,
  JobStarted,
}
use clawndom.Registry.Active.{ActiveJobContext, ActiveJob, ActiveJobs, empty, handle_event}

-- The registry after a history, newest event first.
pub after : List ClawndomEvent → ActiveJobs
after [] = empty
after (event ∷ history) = handle_event event (after history)

-- The event ends the job with this id: it completed or failed, or a later generation of it was
-- queued.
abbrev pub ends : String → ClawndomEvent → Bool
ends job (job_paused e) = e.original_job_id == job
ends job (job_retried e) = e.original_job_id == job
ends job (job_completed e) = e.job_id == job
ends job (job_failed e) = e.job_id == job
ends job event = false

-- The last start of a job that nothing has ended since, with the history before it.
abbrev pub started : String → List ClawndomEvent → Option (JobStarted × List ClawndomEvent)
started job [] = none
started job (job_started e ∷ history) =
    if e.job_id == job then some (e, history) else started job history
started job (event ∷ history) = if ends job event then none else started job history

-- The context of a trace: that of its last acceptance that no terminal event has followed.
abbrev pub context_of : String → List ClawndomEvent → Option ActiveJobContext
context_of trace [] = none
context_of trace (webhook_accepted e ∷ history) =
    if e.trace_id == trace
    then some (record { id = e.context_id; title = e.context_title; status = e.context_status })
    else context_of trace history
context_of trace (job_completed e ∷ history) =
    if e.trace_id == trace then none else context_of trace history
context_of trace (job_failed e ∷ history) =
    if e.final
    then if e.trace_id == trace then none else context_of trace history
    else context_of trace history
context_of trace (event ∷ history) = context_of trace history

-- The entry that a start leaves, with the context known when it happened.
abbrev pub entry : Option (JobStarted × List ClawndomEvent) → Option ActiveJob
entry none = none
entry (some (e, history)) = some (record {
  job_id = e.job_id;
  trace_id = e.trace_id;
  provider = e.provider;
  agent_id = e.agent_id;
  template = e.template;
  runner = e.runner;
  model = e.model;
  started_at = e.timestamp;
  context = context_of e.trace_id history;
})

-- After any history the pending context of a trace is the one that the history determines.
pub after-pending_context :
    (history : List ClawndomEvent) (trace : String)
    → get trace (after history).pending_context ≡ context_of trace history
unfolding after handle_event get
after-pending_context [] trace = refl
after-pending_context (webhook_accepted e ∷ history) trace =
    get-set e.trace_id trace _ (after history).pending_context
    ∙ ground (arith, after-pending_context history trace)
after-pending_context (job_completed e ∷ history) trace =
    get-delete e.trace_id trace (after history).pending_context
    ∙ ground (arith, after-pending_context history trace)
after-pending_context (job_failed e ∷ history) trace = ground (
  arith,
  get-delete e.trace_id trace (after history).pending_context,
  after-pending_context history trace,
)
after-pending_context (event ∷ history) trace = after-pending_context history trace

-- After any history a job is listed exactly when it has started and nothing has ended it since, and
-- its entry is that of the last start, with the context that its trace had at that moment.
pub after-jobs :
    (history : List ClawndomEvent) (job : String)
    → get job (after history).jobs ≡ entry (started job history)
unfolding after handle_event get
after-jobs [] job = refl
after-jobs (job_started e ∷ history) job =
    get-set e.job_id job _ (after history).jobs
    ∙ ground (arith, after-jobs history job, after-pending_context history e.trace_id)
after-jobs (job_paused e ∷ history) job =
    get-delete e.original_job_id job (after history).jobs ∙ ground (arith, after-jobs history job)
after-jobs (job_retried e ∷ history) job =
    get-delete e.original_job_id job (after history).jobs ∙ ground (arith, after-jobs history job)
after-jobs (job_completed e ∷ history) job =
    get-delete e.job_id job (after history).jobs ∙ ground (arith, after-jobs history job)
after-jobs (job_failed e ∷ history) job =
    get-delete e.job_id job (after history).jobs ∙ ground (arith, after-jobs history job)
after-jobs (event ∷ history) job = after-jobs history job
