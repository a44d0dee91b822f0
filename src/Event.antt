-- ===== src/Event.antt =====
-- types/clawndom-event.ts: the events of the bus. Times are numbers of milliseconds.
use clawndom.Common.{ℕ, String, Bool, Option}

pub data RejectReason : Type 0 where
  invalid_signature missing_signature no_routing_match duplicate sender_gate_refusal : RejectReason

pub record WebhookAccepted : Type 0 where
  pub timestamp : ℕ
  pub trace_id : String
  pub provider : String
  pub context_id : String
  pub context_title : String
  pub context_status : String

pub record WebhookRejected : Type 0 where
  pub timestamp : ℕ
  pub trace_id : String
  pub provider : String
  pub reason : RejectReason
  pub context_id : Option String
  pub context_status : Option String
  pub context_title : Option String

pub record JobQueued : Type 0 where
  pub timestamp : ℕ
  pub trace_id : String
  pub job_id : String
  pub provider : String
  pub context_id : String
  pub context_title : String

pub record JobPaused : Type 0 where
  pub timestamp : ℕ
  pub trace_id : String
  pub job_id : String
  pub provider : String
  pub attempt : ℕ
  pub original_job_id : String
  pub resume_at : ℕ

pub record JobRetried : Type 0 where
  pub timestamp : ℕ
  pub trace_id : String
  pub job_id : String
  pub provider : String
  pub attempt : ℕ
  pub original_job_id : String

pub record JobStarted : Type 0 where
  pub timestamp : ℕ
  pub trace_id : String
  pub job_id : String
  pub provider : String
  pub agent_id : String
  pub template : Option String
  pub runner : String
  pub model : Option String

pub record JobCompleted : Type 0 where
  pub timestamp : ℕ
  pub trace_id : String
  pub job_id : String
  pub provider : String
  pub duration_ms : ℕ
  pub run_id : String

pub record JobFailed : Type 0 where
  pub timestamp : ℕ
  pub trace_id : String
  pub job_id : String
  pub provider : String
  pub error : String
  pub attempt : ℕ
  pub final : Bool

-- The five `runner.*` events, by the fields that some subscriber reads.
pub data RunnerKind : Type 0 where
  assistant_text tool_call result complete error : RunnerKind

pub record RunnerEvent : Type 0 where
  pub kind : RunnerKind
  pub timestamp : ℕ
  pub trace_id : String
  pub job_id : String
  pub run_id : String

-- `other` stands for the events that no modelled component publishes or reads: its type and time.
pub data ClawndomEvent : Type 0 where
  webhook_accepted : WebhookAccepted → ClawndomEvent
  webhook_rejected : WebhookRejected → ClawndomEvent
  job_queued : JobQueued → ClawndomEvent
  job_paused : JobPaused → ClawndomEvent
  job_retried : JobRetried → ClawndomEvent
  job_started : JobStarted → ClawndomEvent
  job_completed : JobCompleted → ClawndomEvent
  job_failed : JobFailed → ClawndomEvent
  runner : RunnerEvent → ClawndomEvent
  other : String → ℕ → ClawndomEvent
