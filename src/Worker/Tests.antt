-- ===== src/Worker/Tests.antt =====
-- The worker on small jobs.
use clawndom.Common.{
  ◌+◌, ◌*◌, ◌-◌, ◌≤◌, ◌<◌, min, true, false, not, none, some, [], ◌∷◌, ◌≡◌, refl, arith, ◌==◌,
}
use clawndom.Common.Result.{ok}
use clawndom.Common.Dict.{get, has}
use clawndom.Registry.Active.{ActiveJobs, handle_event, empty}
use clawndom.Routing.Json.{str, obj, field, end}
use clawndom.Routing.Condition.{exists}
use clawndom.Worker.Envelope.{
  JobEnvelope, parse_envelope, Job, job_id_string, trace_id_of, QueuedJob,
}
use clawndom.Worker.Failure.{FailureScene, handle_failure, compute_requeue_delay_ms}
use clawndom.Worker.Quota.{handle_quota_exceeded}
use clawndom.Worker.Process.{Scene, finished, process_job}
use clawndom.Worker.Backoff.{compute_requeue_delay_ms-bounds}
use clawndom.Worker.Lineage.{
  picked_up, paused_job, handle_failure-lineage, handle_quota_exceeded-lineage,
}
use clawndom.Worker.Retries.{failures, reports, ladder, failures-ladder}
use clawndom.Worker.Settled.{listed_after, handle_quota_exceeded-listed, process_job-settled}
use clawndom.Worker.Wire.{codec}

-- The second attempt of a job whose trace is "1".
abbrev envelope : JobEnvelope
envelope = record {
  payload = "{}";
  attempt = 2;
  original_job_id = some "1";
  context = none;
  session_id = some "s";
}

abbrev job : Job
job = record { id = some "7"; raw = codec.stringify envelope }

abbrev scene : FailureScene
scene = record {
  provider = "jira";
  max_attempts = 3;
  now = 1000;
  error = "boom";
  requeued_id = some "8";
  inflight = λ trace. none;
  has_alerts = true;
}

envelope_read : parse_envelope codec job.raw ≡ envelope
unfolding parse_envelope
envelope_read = rw (codec.parse-stringify envelope)

compute_requeue_delay_ms-bounds_example :
    (compute_requeue_delay_ms 1 ≡ 5000)
    × (5000 ≤ compute_requeue_delay_ms 3)
    × (compute_requeue_delay_ms 3 ≤ 60000)
    × (compute_requeue_delay_ms 4 ≡ min (2 * compute_requeue_delay_ms 3) 60000)
    × (5 ≤ 3 → compute_requeue_delay_ms 3 ≡ 60000)
compute_requeue_delay_ms-bounds_example = compute_requeue_delay_ms-bounds 3 (omega arith)

budget_left : (parse_envelope codec job.raw).attempt < 3
budget_left = rw envelope_read (omega arith)

handle_failure-lineage_example :
    (queued : QueuedJob) × ((handle_failure codec scene job).requeued ≡ some queued)
    × ((picked_up codec queued).payload ≡ (parse_envelope codec job.raw).payload)
    × ((picked_up codec queued).context ≡ (parse_envelope codec job.raw).context)
    × ((picked_up codec queued).attempt ≡ (parse_envelope codec job.raw).attempt + 1)
    × (trace_id_of codec (record { id = some "8"; raw = queued.raw }) ≡ trace_id_of codec job)
handle_failure-lineage_example =
    handle_failure-lineage codec scene job "7" (some "8") refl budget_left

handle_quota_exceeded-lineage_example :
    (5000 ≤ (paused_job codec "jira" 1000 (some "8") job (some 9000) none).delay)
    × (9000 ≤ 1000 + (paused_job codec "jira" 1000 (some "8") job (some 9000) none).delay)
    × (picked_up codec (paused_job codec "jira" 1000 (some "8") job (some 9000) none) ≡ record {
      payload = (parse_envelope codec job.raw).payload;
      attempt = 1;
      original_job_id = some (trace_id_of codec job);
      context = (parse_envelope codec job.raw).context;
      session_id = (parse_envelope codec job.raw).session_id;
    })
    × (trace_id_of codec (record {
      id = some "8";
      raw = (paused_job codec "jira" 1000 (some "8") job (some 9000) none).raw;
    })
        ≡ trace_id_of codec job)
handle_quota_exceeded-lineage_example =
    handle_quota_exceeded-lineage codec "jira" 1000 (some "8") job (some 9000) none (some "8")

budget_small : 3 - (parse_envelope codec job.raw).attempt < 2
budget_small = rw envelope_read (omega arith)

failures-ladder_example :
    reports (failures codec 3 ((scene, "8") ∷ (scene, "9") ∷ []) (some job))
    ≡ ladder
        (3 - (parse_envelope codec job.raw).attempt)
        (parse_envelope codec job.raw).attempt
        (trace_id_of codec job)
failures-ladder_example =
    failures-ladder codec 3 ((scene, "8") ∷ (scene, "9") ∷ []) job "7" refl budget_small

-- The job is listed as running.
abbrev running : ActiveJobs
running = record {
  jobs =
      (
        "7",
        record {
          job_id = "7";
          trace_id = "1";
          provider = "jira";
          agent_id = "patch";
          template = none;
          runner = "claude-cli";
          model = none;
          started_at = 900;
          context = none;
        },
      )
      ∷ [];
  pending_context = [];
}

-- The trace of the job is "1", so its pause leaves "7" on the list.
handle_quota_exceeded-listed_example :
    has "7"
      (handle_event
        (handle_quota_exceeded codec "jira" 1000
          (some "8")
          (parse_envelope codec job.raw)
          (trace_id_of codec job)
          "7"
          (some 9000)
          none).1
        running).jobs
    ≡ not (trace_id_of codec job == "7")
unfolding get
handle_quota_exceeded-listed_example =
    handle_quota_exceeded-listed codec "jira" 1000 (some "8") job (some 9000) none running refl

-- A first pickup.
abbrev first : Job
first = record {
  id = some "1";
  raw = codec.stringify (record envelope { attempt = 1; original_job_id = none });
}

abbrev run : Scene
run = record {
  runtime = record { inherited = λ v key. none; regexp = λ pattern flags. none };
  parse_json = λ text. some (obj (field "key" (str text) end));
  provider = "jira";
  runner_name = "claude-cli";
  agents =
      record {
        name = "patch";
        dir = "/agents/patch";
        routing =
            (
              "jira",
              record {
                id = none;
                name = some "todo";
                condition = some (exists "key");
                message_template = none;
              }
                  ∷ [],
            )
            ∷ [];
        operator_allowlist = none;
      }
      ∷ [];
  model_rules = λ agent. [];
  started_at = 1;
  ended_at = 2;
  requeued_id = some "2";
  prepare = λ resolved envelope payload. none;
  dispatch = λ resolved envelope payload model. ok (finished none);
}

first_trace : trace_id_of codec first ≡ job_id_string first
unfolding parse_envelope
first_trace = rw (codec.parse-stringify (record envelope { attempt = 1; original_job_id = none }))

process_job-settled_example :
    listed_after codec scene first (process_job codec empty run first) empty ≡ false
unfolding get
process_job-settled_example = process_job-settled codec scene empty run first first_trace refl
