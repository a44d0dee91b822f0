-- ===== src/Worker/Settled.antt =====
-- What the worker's events do to the list of active jobs.
use clawndom.Common.{
  ℕ, String, Bool, true, false, not, Option, none, some, List, [], ◌∷◌, ◌++◌, ◌≡◌, refl, arith, leb,
  inl, inr, Bool-cases, ◌∙◌, is_some, ◌==◌, eq_refl,
}
use clawndom.Common.Result.{Result, ok, err}
use clawndom.Common.Dict.{Dict, get, delete, has, get-delete}
use clawndom.Event.{ClawndomEvent}
use clawndom.Registry.Active.{ActiveJobs, handle_event}
use clawndom.Routing.Json.{Json}
use clawndom.Routing.Condition.{EvalError}
use clawndom.Routing.Resolve.{ResolvedRoute, resolve_agent_from_agents}
use clawndom.Worker.Envelope.{Codec, parse_envelope, Job, job_id_string, trace_id_of}
use clawndom.Worker.Failure.{FailureScene, handle_failure, requeue_job_to_back, retry_envelope}
use clawndom.Worker.Quota.{handle_quota_exceeded}
use clawndom.Worker.Process.{
  RunResult, finished, error, timeout, quota_exceeded, Scene, Processed, settle, throw,
  process_routed, process_parsed, process_job,
}

-- The registry after events, oldest first.
unfoldable pub board : List ClawndomEvent → ActiveJobs → ActiveJobs
board [] r = r
board (event ∷ events) r = board events (handle_event event r)

board-append :
    (xs ys : List ClawndomEvent) (r : ActiveJobs) → board (xs ++ ys) r ≡ board ys (board xs r)
unfolding board
board-append [] ys r = refl
board-append (x ∷ xs) ys r = board-append xs ys (handle_event x r)

get-delete_self : {V : Type 0} (k : String) (m : Dict V) → get k (delete k m) ≡ none
get-delete_self k m = get-delete k k m ∙ rw (eq_refl k)

get-delete-none :
    {V : Type 0} (k j : String) (m : Dict V) → get j m ≡ none → get j (delete k m) ≡ none
get-delete-none k j m h = get-delete k j m ∙ ground (arith, h)

-- The failure listener runs when the job threw.
pub failure_events : Codec → FailureScene → Job → Option String → List ClawndomEvent
failure_events codec scene job none = []
failure_events codec scene job (some message) =
    (handle_failure codec (record scene { error = message }) job).published

handle_failure-board :
    (codec : Codec) (scene : FailureScene) (job : Job) (r : ActiveJobs)
    → get (job_id_string job) (board (handle_failure codec scene job).published r).jobs ≡ none
unfolding board handle_failure requeue_job_to_back retry_envelope handle_event
handle_failure-board codec scene job r =
    elim (Bool-cases (leb scene.max_attempts (parse_envelope codec job.raw).attempt)) [
      | inl e ↦ rw e (get-delete_self (job_id_string job) r.jobs)
      | inr e ↦ rw e (
          get-delete-none _ (job_id_string job) (delete (job_id_string job) r.jobs)
            (get-delete_self (job_id_string job) r.jobs))
    ]

-- A pause takes a listed job off the list exactly when the job is the first of its trace: the
-- event names the first job of the trace, so a job that was requeued before stays listed.
pub handle_quota_exceeded-listed :
    (codec : Codec) (provider : String) (now : ℕ) (requeued_id : Option String) (job : Job)
    (reset_at : Option ℕ) (session_id : Option String) (r : ActiveJobs)
    → has (job_id_string job) r.jobs ≡ true
    → has
        (job_id_string job)
        (handle_event
          (handle_quota_exceeded codec provider now requeued_id
            (parse_envelope codec job.raw)
            (trace_id_of codec job)
            (job_id_string job)
            reset_at
            session_id).1
          r).jobs
      ≡ not (trace_id_of codec job == job_id_string job)
unfolding handle_quota_exceeded handle_event
handle_quota_exceeded-listed codec provider now requeued_id job reset_at session_id r listed =
    ground (arith, get-delete (trace_id_of codec job) (job_id_string job) r.jobs)

-- What is left on the list when the events of a run, and of the failure that it may throw, are over.
pub listed_after : Codec → FailureScene → Job → Processed → ActiveJobs → Bool
listed_after codec failure job processed r =
    has (job_id_string job)
      (board (failure_events codec failure job processed.thrown) (board processed.published r)).jobs

is_some-none : {V : Type 0} (o : Option V) → o ≡ none → is_some o ≡ false
is_some-none o h = rw h

settle-listed :
    (codec : Codec) (failure : FailureScene) (scene : Scene) (job : Job)
    (events : List ClawndomEvent) (result : Result String RunResult) (r : ActiveJobs)
    → trace_id_of codec job ≡ job_id_string job
    → listed_after codec failure job (settle codec scene job events result) r ≡ false
unfolding listed_after settle failure_events board handle_event handle_quota_exceeded
settle-listed codec failure scene job events (err message) r first =
    is_some-none _ (handle_failure-board codec _ job (board events r))
settle-listed codec failure scene job events (ok (error message)) r first =
    is_some-none _ (handle_failure-board codec _ job (board events r))
settle-listed codec failure scene job events (ok (timeout run_id)) r first =
    is_some-none _ (handle_failure-board codec _ job (board events r))
settle-listed codec failure scene job events (ok (quota_exceeded reset_at session_id)) r first =
    is_some-none _ (
      rw (board-append events _ r, first)
        (get-delete_self (job_id_string job) (board events r).jobs))
settle-listed codec failure scene job events (ok (finished run_id)) r first =
    is_some-none _
      (rw (board-append events _ r) (get-delete_self (job_id_string job) (board events r).jobs))

-- A pickup of the first job of a trace that is not listed, with the failure listener if the job
-- throws, leaves the job off the list of active jobs, whatever the payload, the routing and the run
-- do.
pub process_job-settled :
    (codec : Codec) (failure : FailureScene) (registry : ActiveJobs) (scene : Scene) (job : Job)
    → trace_id_of codec job ≡ job_id_string job
    → get (job_id_string job) registry.jobs ≡ none
    → listed_after codec failure job (process_job codec registry scene job) registry ≡ false
unfolding process_job process_parsed listed_after failure_events board
process_job-settled codec failure registry scene job first fresh =
    by_payload (scene.parse_json (parse_envelope codec job.raw).payload)
  where
    thrown_early :
        (message : String) → listed_after codec failure job (throw [] message) registry ≡ false
    thrown_early message =
        is_some-none _
          (handle_failure-board codec (record failure { error = message }) job registry)

    by_prepare :
        (payload : Json) (resolved : ResolvedRoute) (prepared : Option String)
        → scene.prepare resolved (parse_envelope codec job.raw) payload ≡ prepared
        → listed_after codec failure job
            (process_routed codec registry scene job payload resolved)
            registry
          ≡ false
    by_prepare payload resolved none e =
        rw (e, process_routed)
          (settle-listed codec failure scene job _ (scene.dispatch resolved _ payload _) registry
            first)
    by_prepare payload resolved (some message) e = rw (e, process_routed) (thrown_early message)

    by_route :
        (payload : Json) (route : Result EvalError (Option ResolvedRoute))
        → resolve_agent_from_agents scene.runtime payload scene.provider scene.agents ≡ route
        → listed_after codec failure job
            (process_parsed codec registry scene job (some payload))
            registry
          ≡ false
    by_route payload (err e) h = rw (h, process_parsed) (thrown_early "Condition")
    by_route payload (ok none) h = rw (h, process_parsed) (is_some-none _ fresh)
    by_route payload (ok (some resolved)) h =
        rw (h, process_parsed) (by_prepare payload resolved _ refl)

    by_payload :
        (parsed : Option Json)
        → listed_after codec failure job (process_parsed codec registry scene job parsed) registry
          ≡ false
    by_payload none = thrown_early "SyntaxError"
    by_payload (some payload) = by_route payload _ refl
