-- ===== src/Worker/Failure.antt =====
-- services/worker-failure-handler.ts: a failed job is put at the back of the queue, or alerted.
use clawndom.Common.{
  ℕ, zero, suc, ◌+◌, ◌*◌, ◌^◌, min, leb, String, Bool, Option, none, some, List, [], ◌∷◌, get_or,
  ◌⧺◌, if◌then◌else◌,
}
use clawndom.Event.{ClawndomEvent, job_failed, job_retried}
use clawndom.Inflight.{InflightRecord}
use clawndom.Worker.Envelope.{
  JobEnvelope, Codec, parse_envelope, Job, job_id_string, trace_id_of, QueuedJob,
}

-- `Math.min(5_000 * Math.pow(2, attempt - 1), 60_000)`; attempt 0 is half of 5,000.
unfoldable pub compute_requeue_delay_ms : ℕ → ℕ
compute_requeue_delay_ms zero = 2500
compute_requeue_delay_ms (suc n) = min (5000 * 2 ^ n) 60000

pub record JobAlert : Type 0 where
  pub job_id : String
  pub session_key : String
  pub agent_id : String
  pub error : String
  pub attempts : ℕ
  pub max_attempts : ℕ
  pub provider : String
  pub failed_at : ℕ
  pub context_id : Option String
  pub context_title : Option String
  pub context_status : Option String

-- One call of the `failed` listener: the provider, the clock, the id that the queue will give to a
-- requeued job, what the inflight lookup answers for a trace, and whether alerts are set up.
pub record FailureScene : Type 0 where
  pub provider : String
  pub max_attempts : ℕ
  pub now : ℕ
  pub error : String
  pub requeued_id : Option String
  pub inflight : String → Option InflightRecord
  pub has_alerts : Bool

pub record Outcome : Type 0 where
  pub published : List ClawndomEvent
  pub alert : Option JobAlert
  pub requeued : Option QueuedJob

abbrev agent_of : Option InflightRecord → String
agent_of none = "unknown"
agent_of (some record_) = record_.agent_id

abbrev context_id_of : Option InflightRecord → Option String
context_id_of none = none
context_id_of (some record_) = record_.context_id

abbrev context_title_of : Option InflightRecord → Option String
context_title_of none = none
context_title_of (some record_) = record_.context_title

abbrev context_status_of : Option InflightRecord → Option String
context_status_of none = none
context_status_of (some record_) = record_.context_status

-- `emitFinalFailureAlert`.
unfoldable pub final_failure_alert :
    FailureScene → String → JobEnvelope → Option InflightRecord → JobAlert
final_failure_alert scene trace_id envelope inflight = record {
  job_id = trace_id;
  session_key = "agent:" ⧺ agent_of inflight ⧺ ":hook-" ⧺ scene.provider ⧺ "-" ⧺ trace_id;
  agent_id = agent_of inflight;
  error = scene.error;
  attempts = envelope.attempt;
  max_attempts = scene.max_attempts;
  provider = scene.provider;
  failed_at = scene.now;
  context_id = context_id_of inflight;
  context_title = context_title_of inflight;
  context_status = context_status_of inflight;
}

abbrev pub or_else : Option String → Option String → Option String
or_else none other = other
or_else (some v) other = some v

-- The envelope of the next attempt. The session id is not carried over.
unfoldable pub retry_envelope : Job → JobEnvelope → JobEnvelope
retry_envelope job envelope = record {
  payload = envelope.payload;
  attempt = envelope.attempt + 1;
  original_job_id = or_else envelope.original_job_id job.id;
  context = envelope.context;
  session_id = none;
}

-- `requeueJobToBack`: the queued job and the event.
unfoldable pub requeue_job_to_back :
    Codec → FailureScene → Job → JobEnvelope → String → QueuedJob × ClawndomEvent
unfolding retry_envelope compute_requeue_delay_ms
requeue_job_to_back codec scene job envelope trace_id =
    let retry = retry_envelope job envelope in
    (
      record { raw = codec.stringify retry; delay = compute_requeue_delay_ms envelope.attempt },
      job_retried (record {
        timestamp = scene.now;
        trace_id = trace_id;
        job_id = get_or scene.requeued_id "unknown";
        provider = scene.provider;
        attempt = retry.attempt;
        original_job_id = get_or retry.original_job_id (job_id_string job);
      }),
    )

unfoldable pub handle_failure : Codec → FailureScene → Job → Outcome
unfolding parse_envelope final_failure_alert requeue_job_to_back
handle_failure codec scene job =
    let envelope = parse_envelope codec job.raw in
    let is_final_failure = leb scene.max_attempts envelope.attempt in
    let trace_id = trace_id_of codec job in
    let failed = job_failed (record {
      timestamp = scene.now;
      trace_id = trace_id;
      job_id = job_id_string job;
      provider = scene.provider;
      error = scene.error;
      attempt = envelope.attempt;
      final = is_final_failure;
    }) in
    let (queued, retried) = requeue_job_to_back codec scene job envelope trace_id in
    if is_final_failure
    then record {
      published = failed ∷ [];
      alert =
          if scene.has_alerts
          then some (final_failure_alert scene trace_id envelope (scene.inflight trace_id))
          else none;
      requeued = none;
    }
    else record { published = failed ∷ retried ∷ []; alert = none; requeued = some queued }
