-- ===== src/Worker/Envelope.antt =====
-- services/worker.service.ts: the job envelope, and the reading of queued data as one.
use clawndom.Common.{ℕ, String, Option, none, some, ◌≡◌, get_or}

pub record EnvelopeContext : Type 0 where
  pub id : String
  pub title : String
  pub status : String

-- `attempt` counts from 1.
pub record JobEnvelope : Type 0 where
  pub payload : String
  pub attempt : ℕ
  pub original_job_id : Option String
  pub context : Option EnvelopeContext
  pub session_id : Option String

-- `JSON.stringify` of an envelope, and `JSON.parse` with the schema's check of the shape.
pub record Codec : Type 0 where
  pub stringify : JobEnvelope → String
  pub parse : String → Option JobEnvelope
  pub parse-stringify : (e : JobEnvelope) → parse (stringify e) ≡ some e

abbrev pub first_attempt : String → JobEnvelope
first_attempt raw = record {
  payload = raw;
  attempt = 1;
  original_job_id = none;
  context = none;
  session_id = none;
}

-- Data that is no envelope is the payload of a first attempt.
unfoldable pub parse_envelope : Codec → String → JobEnvelope
parse_envelope codec raw = get_or (codec.parse raw) (first_attempt raw)

-- A job of the queue.
pub record Job : Type 0 where
  pub id : Option String
  pub raw : String

-- `String(job.id ?? 'unknown')`.
abbrev pub job_id_string : Job → String
job_id_string job = get_or job.id "unknown"

abbrev pub trace_id_of : Codec → Job → String
trace_id_of codec job = get_or (parse_envelope codec job.raw).original_job_id (job_id_string job)

-- `queue.add('webhook-event', data, { delay })`.
pub record QueuedJob : Type 0 where
  pub raw : String
  pub delay : ℕ
