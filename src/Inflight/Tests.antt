-- ===== src/Inflight/Tests.antt =====
-- The inflight records of one trace, over a restart, and a sweep.
use clawndom.Common.{ℕ, zero, suc, String, none, some, List, [], ◌∷◌, ◌≡◌, refl, ap, map}
use clawndom.Common.Dict.{Dict}
use clawndom.Event.{webhook_accepted, job_started, job_retried}
use clawndom.Inflight.{Numerals, InflightRecord, Hash, read_record}
use clawndom.Inflight.Runs.{Step, event, restart, after, run_of, record_of}
use clawndom.Inflight.Durable.{read_record-after}
use clawndom.Inflight.Reaper.{reap_once}
use clawndom.Inflight.Orphans.{orphans_of, report}
use clawndom.Inflight.Sweeps.{swept, is_new, reap_once-again}
use clawndom.Common.{filter}

-- Numbers as strokes.
unfoldable pub strokes : ℕ → String
strokes zero = ""
strokes (suc n) = String.◌∷◌ "i" (strokes n)

unfoldable pub count : String → ℕ
count String.[] = 0
count (String.◌∷◌ c s) = suc (count s)

pub count-strokes : (n : ℕ) → count (strokes n) ≡ n
unfolding count strokes
count-strokes zero = refl
count-strokes (suc n) = ap suc (count-strokes n)

abbrev numerals : Numerals
unfolding count strokes
numerals = record {
  show = strokes;
  read = λ text. some (count text);
  read-show = λ n. ap some (count-strokes n);
}

-- Accepted and started, then a new process and a retry; newest first.
abbrev history : List Step
history =
    event (
      job_retried (record {
        timestamp = 7;
        trace_id = "t";
        job_id = "2";
        provider = "jira";
        attempt = 2;
        original_job_id = "t";
      }))
    ∷ restart
    ∷ event (
        job_started (record {
          timestamp = 5;
          trace_id = "t";
          job_id = "t";
          provider = "jira";
          agent_id = "patch";
          template = none;
          runner = "claude-cli";
          model = none;
        }))
    ∷ event (
        webhook_accepted (record {
          timestamp = 4;
          trace_id = "t";
          provider = "jira";
          context_id = "SPE-1";
          context_title = "Title";
          context_status = "Todo";
        }))
    ∷ []

read_record-after_example :
    read_record numerals "t" (after numerals history) ≡ record_of (run_of "t" history)
read_record-after_example = read_record-after numerals history "t"

-- The retry moved the activity of the run, and the context survived the restart.
run_of-history :
    record_of (run_of "t" history)
    ≡ some (record {
      trace_id = "t";
      job_id = "t";
      provider = "jira";
      agent_id = "patch";
      started_at = 5;
      last_event_at = 7;
      last_event_type = "job.retried";
      context_id = some "SPE-1";
      context_title = some "Title";
      context_status = some "Todo";
    })
run_of-history = refl

abbrev store : Dict Hash
store = (after numerals history).redis

abbrev scanned : List String
scanned = "clawndom:inflight:t" ∷ "clawndom:inflight:u" ∷ []

abbrev state_of : InflightRecord → String
state_of record_ = "failed"

-- At 15 the record is not old enough, at 60 it is.
reap_once-again_example :
    ((reap_once numerals 10 state_of 60 scanned
        (swept numerals 10 state_of 15 scanned store)).published
      ≡ map (report numerals 10 state_of 60) (
          filter
            (is_new numerals 10 state_of 15 60)
            (orphans_of numerals 10 state_of 60 scanned store)))
    × ((reap_once numerals 10 state_of 15 scanned
          (swept numerals 10 state_of 15 scanned store)).published
        ≡ [])
    × (swept numerals 10 state_of 15 scanned (swept numerals 10 state_of 15 scanned store)
        ≡ swept numerals 10 state_of 15 scanned store)
reap_once-again_example = reap_once-again numerals 10 state_of 15 60 scanned store
