-- ===== src/Registry/Recent.antt =====
-- services/recent-completions.service.ts: the newest finished jobs and rejected webhooks.
pub mod Log
use clawndom.Common.{
  ℕ, String, Bool, true, false, Option, none, some, List, [], ◌∷◌, if◌then◌else◌, max, ℤ, max_zero,
}
use clawndom.Common.Dict.{Dict, get, set, delete}
use clawndom.Common.Ring.{unshift}
use clawndom.Event.{
  ClawndomEvent, webhook_accepted, webhook_rejected, job_paused, job_retried, job_started,
  job_completed, job_failed, WebhookAccepted, WebhookRejected, JobStarted, JobCompleted, JobFailed,
  RejectReason, no_routing_match,
}
use clawndom.Registry.Active.{ActiveJobContext}

pub data RecentOutcome : Type 0 where
  completed failed rejected : RecentOutcome

pub record RecentCompletion : Type 0 where
  pub job_id : String
  pub trace_id : String
  pub provider : String
  pub agent_id : Option String
  pub context : Option ActiveJobContext
  pub completed_at : ℕ
  pub outcome : RecentOutcome
  pub duration_ms : Option ℕ
  pub error : Option String
  pub reason : Option RejectReason

pub record LiveJobState : Type 0 where
  pub agent_id : String
  pub provider : String

pub record RecentCompletions : Type 0 where
  pub buffer_size : ℕ
  pub buffer : List RecentCompletion
  pub pending_context : Dict ActiveJobContext
  pub live_jobs : Dict LiveJobState

unfoldable pub create : ℤ → RecentCompletions
create buffer_size = record {
  buffer_size = max 1 (max_zero buffer_size);
  buffer = [];
  pending_context = [];
  live_jobs = [];
}

pub push : RecentCompletion → RecentCompletions → RecentCompletions
push entry r = record r { buffer = unshift r.buffer_size entry r.buffer }

pub record_context : WebhookAccepted → RecentCompletions → RecentCompletions
record_context e r = record r {
  pending_context =
      set e.trace_id
        (record { id = e.context_id; title = e.context_title; status = e.context_status })
        r.pending_context;
}

pub handle_requeued : String → RecentCompletions → RecentCompletions
handle_requeued original_job_id r = record r { live_jobs = delete original_job_id r.live_jobs }

pub record_live_job : JobStarted → RecentCompletions → RecentCompletions
record_live_job e r = record r {
  live_jobs = set e.job_id (record { agent_id = e.agent_id; provider = e.provider }) r.live_jobs;
}

abbrev pub is_no_match : RejectReason → Bool
is_no_match no_routing_match = true
is_no_match reason = false

abbrev pub rejected_entry : WebhookRejected → RecentCompletion
rejected_entry e = record {
  job_id = "";
  trace_id = e.trace_id;
  provider = e.provider;
  agent_id = none;
  context = none;
  completed_at = e.timestamp;
  outcome = rejected;
  duration_ms = none;
  error = none;
  reason = some e.reason;
}

pub handle_rejected : WebhookRejected → RecentCompletions → RecentCompletions
handle_rejected e r = if is_no_match e.reason then r else push (rejected_entry e) r

abbrev pub agent_of : Option LiveJobState → Option String
agent_of none = none
agent_of (some live) = some live.agent_id

abbrev pub completed_entry :
    JobCompleted → Option String → Option ActiveJobContext → RecentCompletion
completed_entry e agent_id context = record {
  job_id = e.job_id;
  trace_id = e.trace_id;
  provider = e.provider;
  agent_id = agent_id;
  context = context;
  completed_at = e.timestamp;
  outcome = completed;
  duration_ms = some e.duration_ms;
  error = none;
  reason = none;
}

abbrev pub failed_entry : JobFailed → Option String → Option ActiveJobContext → RecentCompletion
failed_entry e agent_id context = record {
  job_id = e.job_id;
  trace_id = e.trace_id;
  provider = e.provider;
  agent_id = agent_id;
  context = context;
  completed_at = e.timestamp;
  outcome = failed;
  duration_ms = none;
  error = some e.error;
  reason = none;
}

-- `this.liveJobs.delete(jobId); this.pendingContext.delete(traceId);`
forget : String → String → RecentCompletions → RecentCompletions
forget job_id trace_id r = record r {
  live_jobs = delete job_id r.live_jobs;
  pending_context = delete trace_id r.pending_context;
}

pub record_completed : JobCompleted → RecentCompletions → RecentCompletions
unfolding push forget
record_completed e r =
    let live = get e.job_id r.live_jobs in
    let context = get e.trace_id r.pending_context in
    forget e.job_id e.trace_id (push (completed_entry e (agent_of live) context) r)

pub record_failed : JobFailed → RecentCompletions → RecentCompletions
unfolding push forget handle_requeued
record_failed e r =
    let live = get e.job_id r.live_jobs in
    let context = get e.trace_id r.pending_context in
    if e.final
    then forget e.job_id e.trace_id (push (failed_entry e (agent_of live) context) r)
    else record r { live_jobs = delete e.job_id r.live_jobs }

unfoldable pub handle_event : ClawndomEvent → RecentCompletions → RecentCompletions
unfolding record_context record_live_job handle_rejected record_completed record_failed
handle_event (webhook_accepted e) r = record_context e r
handle_event (webhook_rejected e) r = handle_rejected e r
handle_event (job_started e) r = record_live_job e r
handle_event (job_paused e) r = handle_requeued e.original_job_id r
handle_event (job_retried e) r = handle_requeued e.original_job_id r
handle_event (job_completed e) r = record_completed e r
handle_event (job_failed e) r = record_failed e r
handle_event event r = r
