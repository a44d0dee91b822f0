-- ===== src/Registry/Active.antt =====
-- services/active-jobs.service.ts: the jobs that run now, and the context of each trace.
pub mod Lifecycle
use clawndom.Common.{ℕ, String, Bool, true, false, Option, none, some, List, if◌then◌else◌}
use clawndom.Common.Dict.{Dict, get, set, delete, has, values}
use clawndom.Event.{
  ClawndomEvent, webhook_accepted, job_paused, job_retried, job_started, job_completed, job_failed,
  WebhookAccepted, JobStarted,
}

pub record ActiveJobContext : Type 0 where
  pub id : String
  pub title : String
  pub status : String

pub record ActiveJob : Type 0 where
  pub job_id : String
  pub trace_id : String
  pub provider : String
  pub agent_id : String
  pub template : Option String
  pub runner : String
  pub model : Option String
  pub started_at : ℕ
  pub context : Option ActiveJobContext

pub record ActiveJobs : Type 0 where
  pub jobs : Dict ActiveJob
  pub pending_context : Dict ActiveJobContext

abbrev pub empty : ActiveJobs
empty = record { jobs = List.[]; pending_context = List.[] }

pub list_active : ActiveJobs → List ActiveJob
list_active r = values r.jobs

unfoldable pub has_pending_context : String → ActiveJobs → Bool
has_pending_context trace_id r = has trace_id r.pending_context

unfoldable pub record_context : WebhookAccepted → ActiveJobs → ActiveJobs
record_context e r = record r {
  pending_context =
      set e.trace_id
        (record { id = e.context_id; title = e.context_title; status = e.context_status })
        r.pending_context;
}

unfoldable pub handle_requeued : String → ActiveJobs → ActiveJobs
handle_requeued original_job_id r = record r { jobs = delete original_job_id r.jobs }

unfoldable pub register_started : JobStarted → ActiveJobs → ActiveJobs
register_started e r = record r {
  jobs =
      set e.job_id
        (record {
          job_id = e.job_id;
          trace_id = e.trace_id;
          provider = e.provider;
          agent_id = e.agent_id;
          template = e.template;
          runner = e.runner;
          model = e.model;
          started_at = e.timestamp;
          context = get e.trace_id r.pending_context;
        })
        r.jobs;
}

unfoldable pub handle_event : ClawndomEvent → ActiveJobs → ActiveJobs
unfolding record_context handle_requeued register_started
handle_event (webhook_accepted e) r = record_context e r
handle_event (job_started e) r = register_started e r
handle_event (job_paused e) r = handle_requeued e.original_job_id r
handle_event (job_retried e) r = handle_requeued e.original_job_id r
handle_event (job_completed e) r = record {
  jobs = delete e.job_id r.jobs;
  pending_context = delete e.trace_id r.pending_context;
}
handle_event (job_failed e) r = record {
  jobs = delete e.job_id r.jobs;
  pending_context = if e.final then delete e.trace_id r.pending_context else r.pending_context;
}
handle_event event r = r
