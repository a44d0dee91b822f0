-- ===== src/Registry/Recent/Log.antt =====
-- The recent list against the log of all outcomes, which keeps every entry.
use clawndom.Common.{
  String, ◌≡◌, refl, ◌∙◌, Option, none, some, List, [], ◌∷◌, arith, if◌then◌else◌, take, take-nil,
  sym, ℤ, max_zero, max,
}
use clawndom.Common.Dict.{get, get-set, get-delete}
use clawndom.Common.Ring.{unshift-take}
use clawndom.Event.{
  ClawndomEvent, webhook_accepted, webhook_rejected, job_paused, job_retried, job_started,
  job_completed, job_failed, JobStarted,
}
use clawndom.Registry.Active.Lifecycle.{started, context_of}
use clawndom.Registry.Recent.{
  RecentCompletion, RecentCompletions, LiveJobState, create, is_no_match, rejected_entry, agent_of,
  completed_entry, failed_entry, handle_event,
}

-- The registry after a history, newest event first.
pub after : ℤ → List ClawndomEvent → RecentCompletions
after size [] = create size
after size (event ∷ history) = handle_event event (after size history)

abbrev pub live_of : Option (JobStarted × List ClawndomEvent) → Option LiveJobState
live_of none = none
live_of (some (e, history)) = some (record { agent_id = e.agent_id; provider = e.provider })

-- The agent that a history gives for a job which ends next.
abbrev pub agent_in : String → List ClawndomEvent → Option String
agent_in job history = agent_of (live_of (started job history))

-- Every outcome of a history, newest first: webhook rejections but for `no-routing-match`, jobs that
-- completed, and jobs that failed for good.
abbrev pub log : List ClawndomEvent → List RecentCompletion
log [] = []
log (webhook_rejected e ∷ history) =
    if is_no_match e.reason then log history else rejected_entry e ∷ log history
log (job_completed e ∷ history) =
    completed_entry e (agent_in e.job_id history) (context_of e.trace_id history) ∷ log history
log (job_failed e ∷ history) =
    if e.final
    then failed_entry e (agent_in e.job_id history) (context_of e.trace_id history) ∷ log history
    else log history
log (event ∷ history) = log history

after-buffer_size :
    (size : ℤ) (history : List ClawndomEvent)
    → (after size history).buffer_size ≡ max 1 (max_zero size)
unfolding after handle_event create
after-buffer_size size [] = refl
after-buffer_size size (webhook_rejected e ∷ history) =
    ground (arith, after-buffer_size size history)
after-buffer_size size (job_failed e ∷ history) = ground (arith, after-buffer_size size history)
after-buffer_size size (event ∷ history) = after-buffer_size size history

after-pending_context :
    (size : ℤ) (history : List ClawndomEvent) (trace : String)
    → get trace (after size history).pending_context ≡ context_of trace history
unfolding after handle_event create get
after-pending_context size [] trace = refl
after-pending_context size (webhook_accepted e ∷ history) trace =
    get-set e.trace_id trace _ (after size history).pending_context
    ∙ ground (arith, after-pending_context size history trace)
after-pending_context size (job_completed e ∷ history) trace =
    get-delete e.trace_id trace (after size history).pending_context
    ∙ ground (arith, after-pending_context size history trace)
after-pending_context size (job_failed e ∷ history) trace = ground (
  arith,
  get-delete e.trace_id trace (after size history).pending_context,
  after-pending_context size history trace,
)
after-pending_context size (webhook_rejected e ∷ history) trace =
    ground (arith, after-pending_context size history trace)
after-pending_context size (event ∷ history) trace = after-pending_context size history trace

after-live_jobs :
    (size : ℤ) (history : List ClawndomEvent) (job : String)
    → get job (after size history).live_jobs ≡ live_of (started job history)
unfolding after handle_event create get
after-live_jobs size [] job = refl
after-live_jobs size (job_started e ∷ history) job =
    get-set e.job_id job _ (after size history).live_jobs
    ∙ ground (arith, after-live_jobs size history job)
after-live_jobs size (job_paused e ∷ history) job =
    get-delete e.original_job_id job (after size history).live_jobs
    ∙ ground (arith, after-live_jobs size history job)
after-live_jobs size (job_retried e ∷ history) job =
    get-delete e.original_job_id job (after size history).live_jobs
    ∙ ground (arith, after-live_jobs size history job)
after-live_jobs size (job_completed e ∷ history) job =
    get-delete e.job_id job (after size history).live_jobs
    ∙ ground (arith, after-live_jobs size history job)
after-live_jobs size (job_failed e ∷ history) job = ground (
  arith,
  get-delete e.job_id job (after size history).live_jobs,
  after-live_jobs size history job,
)
after-live_jobs size (webhook_rejected e ∷ history) job =
    ground (arith, after-live_jobs size history job)
after-live_jobs size (event ∷ history) job = after-live_jobs size history job

-- After any history the list is the newest `max(1, size)` outcomes of the history, newest first,
-- each with the agent and the context that the history determines for its job and its trace.
pub after-buffer :
    (size : ℤ) (history : List ClawndomEvent)
    → (after size history).buffer ≡ take (max 1 (max_zero size)) (log history)
unfolding after handle_event create
after-buffer size [] = sym (take-nil (max 1 (max_zero size)))
after-buffer size (webhook_rejected e ∷ history) = ground (
  arith,
  after-buffer size history,
  after-buffer_size size history,
  unshift-take (max 1 (max_zero size)) (rejected_entry e) (log history),
)
after-buffer size (job_completed e ∷ history) =
    rw
      (
        after-buffer size history,
        after-buffer_size size history,
        after-live_jobs size history e.job_id,
        after-pending_context size history e.trace_id,
      )
      (unshift-take (max 1 (max_zero size))
        (completed_entry e (agent_in e.job_id history) (context_of e.trace_id history))
        (log history))
after-buffer size (job_failed e ∷ history) = ground (
  arith,
  after-buffer size history,
  after-buffer_size size history,
  after-live_jobs size history e.job_id,
  after-pending_context size history e.trace_id,
  unshift-take (max 1 (max_zero size))
      (failed_entry e (agent_in e.job_id history) (context_of e.trace_id history)) (log history),
)
after-buffer size (event ∷ history) = after-buffer size history
