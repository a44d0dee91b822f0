-- ===== src/Worker/Retries.antt =====
-- A job that fails every time: its retries end, and only the last failure is final.
use clawndom.Common.{
  ℕ, zero, suc, ◌+◌, ◌-◌, ◌≤◌, ◌<◌, String, Bool, true, false, Option, none, some, List, [], ◌∷◌,
  ◌++◌, ◌≡◌, refl, ap, arith, length, ◌∙◌,
}
use clawndom.Event.{ClawndomEvent, job_failed}
use clawndom.Worker.Envelope.{Codec, parse_envelope, Job, trace_id_of, QueuedJob}
use clawndom.Worker.Failure.{FailureScene, handle_failure, requeue_job_to_back, retry_envelope}
use clawndom.Worker.Lineage.{
  leb-false, leb-true, retried_job, picked_up-retried_job, trace_id_of-retried_job,
}

-- A failure under a retry budget, with the id that the queue gives to the requeued job.
abbrev pub scene_of : ℕ → FailureScene × String → FailureScene
scene_of max_attempts (scene, id) = record scene {
  max_attempts = max_attempts;
  requeued_id = some id;
}

-- The job that the queue holds next.
abbrev pub queued_job : String → Option QueuedJob → Option Job
queued_job id none = none
queued_job id (some queued) = some (record { id = some id; raw = queued.raw })

-- The events of a job and its retries, when each attempt fails: one scene for each.
pub failures : Codec → ℕ → List (FailureScene × String) → Option Job → List ClawndomEvent
failures codec max_attempts [] job = []
failures codec max_attempts (scene ∷ scenes) none = []
failures codec max_attempts (scene ∷ scenes) (some job) =
    let outcome = handle_failure codec (scene_of max_attempts scene) job in
    outcome.published ++ failures codec max_attempts scenes (queued_job scene.1 outcome.requeued)

-- The failures among the events: trace, attempt, and whether it is final.
abbrev pub reports : List ClawndomEvent → List (String × ℕ × Bool)
reports [] = []
reports (job_failed e ∷ events) = (e.trace_id, e.attempt, e.final) ∷ reports events
reports (event ∷ events) = reports events

-- `n` failures that are not final, and then a final one.
abbrev pub ladder : ℕ → ℕ → String → List (String × ℕ × Bool)
ladder zero attempt trace = (trace, attempt, true) ∷ []
ladder (suc n) attempt trace = (trace, attempt, false) ∷ ladder n (attempt + 1) trace

failures-final :
    (codec : Codec) (max_attempts : ℕ) (scene : FailureScene × String)
    (scenes : List (FailureScene × String)) (job : Job)
    → max_attempts ≤ (parse_envelope codec job.raw).attempt
    → reports (failures codec max_attempts (scene ∷ scenes) (some job))
      ≡ (trace_id_of codec job, (parse_envelope codec job.raw).attempt, true) ∷ []
unfolding failures handle_failure requeue_job_to_back
failures-final codec max_attempts scene [] job h =
    rw (leb-true max_attempts (parse_envelope codec job.raw).attempt h)
failures-final codec max_attempts scene (next ∷ scenes) job h =
    rw (leb-true max_attempts (parse_envelope codec job.raw).attempt h)

failures-retried :
    (codec : Codec) (max_attempts : ℕ) (scene : FailureScene × String)
    (scenes : List (FailureScene × String)) (job : Job)
    → (parse_envelope codec job.raw).attempt < max_attempts
    → reports (failures codec max_attempts (scene ∷ scenes) (some job))
      ≡ (trace_id_of codec job, (parse_envelope codec job.raw).attempt, false)
        ∷ reports (
            failures codec max_attempts scenes
              (some (record { id = some scene.1; raw = (retried_job codec job).raw })))
unfolding failures handle_failure requeue_job_to_back retried_job
failures-retried codec max_attempts scene scenes job h =
    rw (leb-false max_attempts (parse_envelope codec job.raw).attempt h)

-- A job with an id that fails at every attempt, with enough failures in store for its budget, fails
-- once for each attempt that is left and no more, all under its trace: every failure but the last is
-- reported as not final, and the last one as final.
pub failures-ladder :
    (codec : Codec) (max_attempts : ℕ) (scenes : List (FailureScene × String)) (job : Job)
    (id : String)
    → job.id ≡ some id
    → max_attempts - (parse_envelope codec job.raw).attempt < length scenes
    → reports (failures codec max_attempts scenes (some job))
      ≡ ladder
          (max_attempts - (parse_envelope codec job.raw).attempt)
          (parse_envelope codec job.raw).attempt
          (trace_id_of codec job)
unfolding retry_envelope failures
failures-ladder codec max_attempts [] job id known enough = absurd (omega arith)
failures-ladder codec max_attempts (scene ∷ scenes) job id known enough =
    by_budget
      (failures-ladder codec max_attempts scenes
        (record { id = some scene.1; raw = (retried_job codec job).raw }) scene.1 refl)
      (max_attempts - (parse_envelope codec job.raw).attempt) refl
  where
    next : Job
    next = record { id = some scene.1; raw = (retried_job codec job).raw }

    fewer :
        (n : ℕ)
        → max_attempts - (parse_envelope codec job.raw).attempt ≡ suc n
        → max_attempts - ((parse_envelope codec job.raw).attempt + 1) ≡ n
    fewer n e = omega arith

    next_attempt :
        (parse_envelope codec next.raw).attempt ≡ (parse_envelope codec job.raw).attempt + 1
    next_attempt = rw (picked_up-retried_job codec job)

    rest :
        (max_attempts - (parse_envelope codec next.raw).attempt < length scenes
          → reports (failures codec max_attempts scenes (some next))
            ≡ ladder
                (max_attempts - (parse_envelope codec next.raw).attempt)
                (parse_envelope codec next.raw).attempt
                (trace_id_of codec next))
        → (n : ℕ) → max_attempts - (parse_envelope codec job.raw).attempt ≡ suc n
        → reports (failures codec max_attempts scenes (some next))
          ≡ ladder n ((parse_envelope codec job.raw).attempt + 1) (trace_id_of codec job)
    rest ih n e =
        ih (rw next_attempt (omega arith))
        ∙ rw (next_attempt, trace_id_of-retried_job codec job id (some scene.1) known, fewer n e)

    by_budget :
        (max_attempts - (parse_envelope codec next.raw).attempt < length scenes
          → reports (failures codec max_attempts scenes (some next))
            ≡ ladder
                (max_attempts - (parse_envelope codec next.raw).attempt)
                (parse_envelope codec next.raw).attempt
                (trace_id_of codec next))
        → (n : ℕ) → max_attempts - (parse_envelope codec job.raw).attempt ≡ n
        → reports (failures codec max_attempts (scene ∷ scenes) (some job))
          ≡ ladder
              (max_attempts - (parse_envelope codec job.raw).attempt)
              (parse_envelope codec job.raw).attempt
              (trace_id_of codec job)
    by_budget ih zero e = rw e (failures-final codec max_attempts scene scenes job (omega arith))
    by_budget ih (suc n) e = rw e (
        failures-retried codec max_attempts scene scenes job (omega arith)
        ∙ ap (◌∷◌ (trace_id_of codec job, (parse_envelope codec job.raw).attempt, false))
            (rest ih n e))
