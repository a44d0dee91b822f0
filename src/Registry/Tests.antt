-- ===== src/Registry/Tests.antt =====
-- The registries on a short history.
use clawndom.Common.{◌≡◌, none, some, List, [], ◌∷◌, take, pos}
use clawndom.Common.Dict
use clawndom.Event.{
  ClawndomEvent, webhook_accepted, webhook_rejected, job_started, job_completed, JobStarted,
  duplicate,
}
use clawndom.Registry.Active.Lifecycle
use clawndom.Registry.Active.Lifecycle.{
  started, context_of, entry, after-jobs, after-pending_context,
}
use clawndom.Registry.Recent.Log
use clawndom.Registry.Recent.Log.{log, after-buffer}
use clawndom.Registry.Skipped.Tally
use clawndom.Registry.Skipped.Tally.{
  rejections, list_recent-after, after-Counted, Counted, capacity_of,
}

abbrev accepted : ClawndomEvent
accepted = webhook_accepted (record {
  timestamp = 1;
  trace_id = "t1";
  provider = "jira";
  context_id = "SPE-1";
  context_title = "Fix";
  context_status = "Todo";
})

abbrev start : JobStarted
start = record {
  timestamp = 2;
  trace_id = "t1";
  job_id = "j1";
  provider = "jira";
  agent_id = "patch";
  template = none;
  runner = "claude-cli";
  model = none;
}

abbrev completed : ClawndomEvent
completed = job_completed (record {
  timestamp = 9;
  trace_id = "t1";
  job_id = "j1";
  provider = "jira";
  duration_ms = 7;
  run_id = "r";
})

abbrev repeated : ClawndomEvent
repeated = webhook_rejected (record {
  timestamp = 3;
  trace_id = "t2";
  provider = "jira";
  reason = duplicate;
  context_id = none;
  context_status = none;
  context_title = none;
})

abbrev running : List ClawndomEvent
running = repeated ∷ job_started start ∷ accepted ∷ []

after-jobs_example :
    Dict.get "j1" (Lifecycle.after running).jobs
    ≡ some (record {
      job_id = "j1";
      trace_id = "t1";
      provider = "jira";
      agent_id = "patch";
      template = none;
      runner = "claude-cli";
      model = none;
      started_at = 2;
      context = some (record { id = "SPE-1"; title = "Fix"; status = "Todo" });
    })
after-jobs_example = after-jobs running "j1"

after-pending_context_example :
    Dict.get "t1" (Lifecycle.after (completed ∷ running)).pending_context ≡ none
after-pending_context_example = after-pending_context (completed ∷ running) "t1"

after-buffer_example :
    (Log.after (pos 1) (completed ∷ running)).buffer ≡ take 1 (log (completed ∷ running))
after-buffer_example = after-buffer (pos 1) (completed ∷ running)

after-Counted_example : Counted (Tally.after none running).counts (rejections running)
after-Counted_example = after-Counted none running
