-- ===== src/Worker/Lineage.antt =====
-- A job that is put back keeps the trace, the payload and the context.
use clawndom.Common.{
  ℕ, ◌+◌, ◌-◌, max, ◌≤◌, ◌<◌, String, true, false, Option, none, some, ◌≡◌, refl, get_or, arith,
  leb,
}
use clawndom.Worker.Envelope.{
  JobEnvelope, Codec, parse_envelope, Job, job_id_string, trace_id_of, QueuedJob,
}
use clawndom.Worker.Failure.{
  FailureScene, handle_failure, requeue_job_to_back, retry_envelope, or_else,
  compute_requeue_delay_ms,
}
use clawndom.Worker.Quota.{handle_quota_exceeded, resume_envelope}

-- The envelope that a pickup of the queued job reads.
abbrev pub picked_up : Codec → QueuedJob → JobEnvelope
picked_up codec queued = parse_envelope codec queued.raw

parse_envelope-stringify :
    (codec : Codec) (envelope : JobEnvelope)
    → parse_envelope codec (codec.stringify envelope) ≡ envelope
unfolding parse_envelope
parse_envelope-stringify codec envelope = rw (codec.parse-stringify envelope)

or_else-job_id :
    (original : Option String) (job : Job) (id : String)
    → job.id ≡ some id
    → or_else original job.id ≡ some (get_or original (job_id_string job))
or_else-job_id none job id h = rw h
or_else-job_id (some o) job id h = refl

pub leb-false : (m n : ℕ) → n < m → leb m n ≡ false
leb-false m n h = ground arith

pub leb-true : (m n : ℕ) → m ≤ n → leb m n ≡ true
leb-true m n h = ground arith

unfoldable pub retried_job : Codec → Job → QueuedJob
retried_job codec job =
    let envelope = parse_envelope codec job.raw in
    record {
      raw = codec.stringify (retry_envelope job envelope);
      delay = compute_requeue_delay_ms envelope.attempt;
    }

pub handle_failure-requeued :
    (codec : Codec) (scene : FailureScene) (job : Job)
    → (parse_envelope codec job.raw).attempt < scene.max_attempts
    → (handle_failure codec scene job).requeued ≡ some (retried_job codec job)
unfolding handle_failure requeue_job_to_back retried_job
handle_failure-requeued codec scene job left =
    rw (leb-false scene.max_attempts (parse_envelope codec job.raw).attempt left)

-- The pickup of a retried job reads the envelope that the failure built.
pub picked_up-retried_job :
    (codec : Codec) (job : Job)
    → parse_envelope codec (retried_job codec job).raw
      ≡ retry_envelope job (parse_envelope codec job.raw)
unfolding retried_job
picked_up-retried_job codec job =
    parse_envelope-stringify codec (retry_envelope job (parse_envelope codec job.raw))

pub trace_id_of-retried_job :
    (codec : Codec) (job : Job) (id : String) (next_id : Option String)
    → job.id ≡ some id
    → trace_id_of codec (record { id = next_id; raw = (retried_job codec job).raw })
      ≡ trace_id_of codec job
unfolding retry_envelope
trace_id_of-retried_job codec job id next_id known = rw (
  picked_up-retried_job codec job,
  or_else-job_id (parse_envelope codec job.raw).original_job_id job id known,
)

-- A failed job with an id that has attempts left is requeued; the pickup of the requeued job reads
-- the same payload and context, the next attempt number and, whatever id the queue gave it, the
-- trace of the failed job.
pub handle_failure-lineage :
    (codec : Codec) (scene : FailureScene) (job : Job) (id : String) (next_id : Option String)
    → job.id ≡ some id
    → (parse_envelope codec job.raw).attempt < scene.max_attempts
    → (queued : QueuedJob) × ((handle_failure codec scene job).requeued ≡ some queued)
      × ((picked_up codec queued).payload ≡ (parse_envelope codec job.raw).payload)
      × ((picked_up codec queued).context ≡ (parse_envelope codec job.raw).context)
      × ((picked_up codec queued).attempt ≡ (parse_envelope codec job.raw).attempt + 1)
      × (trace_id_of codec (record { id = next_id; raw = queued.raw }) ≡ trace_id_of codec job)
unfolding retry_envelope
handle_failure-lineage codec scene job id next_id known left = (
  retried_job codec job,
  handle_failure-requeued codec scene job left,
  rw (picked_up-retried_job codec job),
  rw (picked_up-retried_job codec job),
  rw (picked_up-retried_job codec job),
  trace_id_of-retried_job codec job id next_id known,
)

-- The job that a pause puts back.
abbrev pub paused_job :
    Codec
    → (provider : String) → (now : ℕ) → (requeued_id : Option String) → Job
    → (reset_at : Option ℕ) → (session_id : Option String) → QueuedJob
paused_job codec provider now requeued_id job reset_at session_id =
    (handle_quota_exceeded codec provider now requeued_id (parse_envelope codec job.raw)
      (trace_id_of codec job) (job_id_string job) reset_at session_id).0

-- A pause for a quota resumes not before the reset and not within 5 seconds; the pickup reads the
-- same payload and context and a fresh retry budget, resumes the session of this run or else the
-- one it had resumed, and has, whatever id the queue gave it, the trace of the paused job.
pub handle_quota_exceeded-lineage :
    (codec : Codec) (provider : String) (now : ℕ) (requeued_id : Option String) (job : Job)
    (reset_at : Option ℕ) (session_id next_id : Option String)
    → (5000 ≤ (paused_job codec provider now requeued_id job reset_at session_id).delay)
      × (get_or reset_at now
          ≤ now + (paused_job codec provider now requeued_id job reset_at session_id).delay)
      × (picked_up codec (paused_job codec provider now requeued_id job reset_at session_id)
          ≡ record {
            payload = (parse_envelope codec job.raw).payload;
            attempt = 1;
            original_job_id = some (trace_id_of codec job);
            context = (parse_envelope codec job.raw).context;
            session_id = or_else session_id (parse_envelope codec job.raw).session_id;
          })
      × (trace_id_of codec (record {
        id = next_id;
        raw = (paused_job codec provider now requeued_id job reset_at session_id).raw;
      })
          ≡ trace_id_of codec job)
unfolding handle_quota_exceeded resume_envelope
handle_quota_exceeded-lineage codec provider now requeued_id job reset_at session_id next_id =
    let envelope = parse_envelope codec job.raw in
    let read =
      parse_envelope-stringify codec (resume_envelope envelope (job_id_string job) session_id) in
    (omega arith, resumes reset_at, read, rw read)
  where
    resumes :
        (reset : Option ℕ) → get_or reset now ≤ now + max 5000 (get_or reset (now + 5000) - now)
    resumes none = omega arith
    resumes (some t) = omega arith
