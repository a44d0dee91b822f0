-- ===== src/Inflight/Durable.antt =====
-- The durable record of a trace is that of its run, over restarts of the process.
use clawndom.Common.{String, ◌≡◌, refl, ◌∙◌, Option, none, some, List, [], ◌∷◌, arith}
use clawndom.Common.Dict.{get, get-set, get-delete}
use clawndom.Event.{
  webhook_accepted, job_paused, job_retried, job_started, job_completed, job_failed, runner,
}
use clawndom.Inflight.{
  Numerals, build_inflight_key, hgetall, parse_unless_empty, read_record, runner_type, touch,
  handle_event, stop,
}
use clawndom.Inflight.Runs.{
  Step, event, restart, apply, after, context_of, Run, run_of, hash_of_each, record_of,
}
use clawndom.Inflight.Hashes.{
  hgetall_of, hgetall-run, get-hset-started, get-touch, get-clear, parse-hash_of,
}

module _ (numerals : Numerals) where
  -- After any history the pending context of a trace is the one that this process has seen.
  after-contexts :
      (history : List Step) (trace : String)
      → get trace (after numerals history).pending_context ≡ context_of trace history
  unfolding after apply handle_event get touch stop
  after-contexts [] trace = refl
  after-contexts (restart ∷ history) trace = refl
  after-contexts (event (webhook_accepted e) ∷ history) trace =
      get-set e.trace_id trace _ (after numerals history).pending_context
      ∙ ground (arith, after-contexts history trace)
  after-contexts (event (job_completed e) ∷ history) trace =
      get-delete e.trace_id trace (after numerals history).pending_context
      ∙ ground (arith, after-contexts history trace)
  after-contexts (event (job_failed e) ∷ history) trace = ground (
    arith,
    get-delete e.trace_id trace (after numerals history).pending_context,
    after-contexts history trace,
  )
  after-contexts (event e ∷ history) trace = after-contexts history trace

  after-redis :
      (history : List Step) (trace : String)
      → get (build_inflight_key trace) (after numerals history).redis
        ≡ hash_of_each numerals (run_of trace history)
  unfolding after apply handle_event stop get
  after-redis [] trace = refl
  after-redis (restart ∷ history) trace = after-redis history trace
  after-redis (event (job_started e) ∷ history) trace = rw (after-contexts history e.trace_id) (
      get-hset-started numerals e _ (run_of e.trace_id history) (after numerals history).redis trace
        (after-redis history e.trace_id)
      ∙ ground (arith, after-redis history trace))
  after-redis (event (job_paused e) ∷ history) trace =
      get-touch numerals e.trace_id e.timestamp "job.paused" (run_of e.trace_id history)
        (after numerals history) trace (after-redis history e.trace_id)
      ∙ ground (arith, after-redis history trace)
  after-redis (event (job_retried e) ∷ history) trace =
      get-touch numerals e.trace_id e.timestamp "job.retried" (run_of e.trace_id history)
        (after numerals history) trace (after-redis history e.trace_id)
      ∙ ground (arith, after-redis history trace)
  after-redis (event (runner e) ∷ history) trace =
      get-touch numerals e.trace_id e.timestamp (runner_type e.kind) (run_of e.trace_id history)
        (after numerals history) trace (after-redis history e.trace_id)
      ∙ ground (arith, after-redis history trace)
  after-redis (event (job_completed e) ∷ history) trace =
      get-clear numerals e.trace_id trace (after numerals history).redis
      ∙ ground (arith, after-redis history trace)
  after-redis (event (job_failed e) ∷ history) trace = ground (
    arith,
    get-clear numerals e.trace_id trace (after numerals history).redis,
    after-redis history trace,
  )
  after-redis (event e ∷ history) trace = after-redis history trace

  -- After any history of events and restarts of the process, the durable record of a trace is
  -- that of its run in flight: the last start that no completion and no final failure has ended,
  -- with the time and kind of its last activity, and with the context known at its start or,
  -- when that process knew none, the context of the start it replaced. There is no record
  -- exactly when there is no such run.
  pub read_record-after :
      (history : List Step) (trace : String)
      → read_record numerals trace (after numerals history) ≡ record_of (run_of trace history)
  unfolding read_record hgetall_of parse_unless_empty
  read_record-after history trace = by_run (run_of trace history) refl
    where
      by_run :
          (run : Option Run)
          → run_of trace history ≡ run
          → parse_unless_empty numerals
              (hgetall (build_inflight_key trace) (after numerals history).redis)
            ≡ record_of (run_of trace history)
      by_run none e = rw (
        hgetall-run numerals (build_inflight_key trace) (after numerals history).redis
            (run_of trace history) (after-redis history trace),
        e,
      )
      by_run (some run) e =
          rw
            (
              hgetall-run numerals (build_inflight_key trace) (after numerals history).redis
                  (run_of trace history) (after-redis history trace),
              e,
            )
            (parse-hash_of numerals run run.context refl)
