-- ===== src/Worker/Quota.antt =====
-- services/worker.service.ts: the pause of a job when the runner met an upstream quota.
use clawndom.Common.{ℕ, ◌+◌, ◌-◌, max, String, Option, some, get_or}
use clawndom.Event.{ClawndomEvent, job_paused}
use clawndom.Worker.Envelope.{JobEnvelope, Codec, QueuedJob}
use clawndom.Worker.Failure.{or_else}

abbrev pub quota_resume_floor_ms : ℕ
quota_resume_floor_ms = 5000

-- The envelope of the resumed job: the retry budget starts again.
unfoldable pub resume_envelope : JobEnvelope → String → Option String → JobEnvelope
resume_envelope envelope job_id session_id = record {
  payload = envelope.payload;
  attempt = 1;
  original_job_id = some (get_or envelope.original_job_id job_id);
  context = envelope.context;
  session_id = or_else session_id envelope.session_id;
}

-- `Math.max(FLOOR, resetAt - now)`: a reset in the past gives the floor.
unfoldable pub handle_quota_exceeded :
    Codec
    → (provider : String) → (now : ℕ) → (requeued_id : Option String) → JobEnvelope
    → (trace_id job_id : String) → (quota_reset_at : Option ℕ) → (session_id : Option String)
    → QueuedJob × ClawndomEvent
unfolding resume_envelope
handle_quota_exceeded codec provider now requeued_id envelope trace_id job_id quota_reset_at
      session_id =
    let reset_at = get_or quota_reset_at (now + quota_resume_floor_ms) in
    let requeue = resume_envelope envelope job_id session_id in
    (
      record { raw = codec.stringify requeue; delay = max quota_resume_floor_ms (reset_at - now) },
      job_paused (record {
        timestamp = now;
        trace_id = trace_id;
        job_id = get_or requeued_id "unknown";
        provider = provider;
        attempt = requeue.attempt;
        original_job_id = get_or envelope.original_job_id job_id;
        resume_at = reset_at;
      }),
    )
