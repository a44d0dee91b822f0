-- ===== src/Inflight.antt =====
-- services/inflight-registry.service.ts: the record of every running trace, as a Redis hash that
-- survives a restart of the process. `String(n)` and `Number(text)` are parameters.
pub mod Runs
pub mod Hashes
pub mod Durable
pub mod Reaper
pub mod Orphans
pub mod Sweeps
pub mod Tests
use clawndom.Common.{
  ◌⧺◌, ◌>>=◌, ℕ, String, Bool, true, false, Option, none, some, List, [], ◌∷◌, ◌≡◌, if◌then◌else◌,
  is_some,
}
use clawndom.Common.Dict.{Dict, get, set, delete, has}
use clawndom.Event.{
  ClawndomEvent, webhook_accepted, job_paused, job_retried, job_started, job_completed, job_failed,
  runner, RunnerKind, assistant_text, tool_call, result, complete, error, WebhookAccepted,
  JobStarted,
}

-- What the runtime does with numbers and texts: `none` is NaN.
pub record Numerals : Type 0 where
  pub show : ℕ → String
  pub read : String → Option ℕ
  pub read-show : (n : ℕ) → read (show n) ≡ some n

unfoldable pub build_inflight_key : String → String
build_inflight_key trace_id = "clawndom:inflight:" ⧺ trace_id

pub record PendingContext : Type 0 where
  pub context_id : String
  pub context_title : String
  pub context_status : String

pub record InflightRecord : Type 0 where
  pub trace_id : String
  pub job_id : String
  pub provider : String
  pub agent_id : String
  pub started_at : ℕ
  pub last_event_at : ℕ
  pub last_event_type : String
  pub context_id : Option String
  pub context_title : Option String
  pub context_status : Option String

-- A Redis hash, and the keys of the store with their hashes.
abbrev pub Hash : Type 0
Hash = Dict String

pub record InflightRegistry : Type 0 where
  pub redis : Dict Hash
  pub pending_context : Dict PendingContext

-- `HSET key field value ...`: the fields of an existing hash that are not named stay.
unfoldable pub assign : Hash → Hash → Hash
assign [] hash = hash
assign ((field, value) ∷ fields) hash = assign fields (set field value hash)

unfoldable pub hgetall : String → Dict Hash → Hash
hgetall key redis = elim (get key redis) [ none ↦ [] | some hash ↦ hash ]

unfoldable pub hset : String → Hash → Dict Hash → Dict Hash
unfolding hgetall
hset key fields redis = set key (assign fields (hgetall key redis)) redis

unfoldable pub parse_fields :
    Numerals
    → Hash
    → (trace_id job_id provider agent_id started_at last_event_at last_event_type : String)
    → Option InflightRecord
parse_fields numerals raw trace_id job_id provider agent_id started_at last_event_at kind = do
  started ← numerals.read started_at
  last ← numerals.read last_event_at
  some (record {
    trace_id = trace_id;
    job_id = job_id;
    provider = provider;
    agent_id = agent_id;
    started_at = started;
    last_event_at = last;
    last_event_type = kind;
    context_id = get "contextId" raw;
    context_title = get "contextTitle" raw;
    context_status = get "contextStatus" raw;
  })

unfoldable pub parse_inflight_hash : Numerals → Hash → Option InflightRecord
unfolding parse_fields
parse_inflight_hash numerals raw = do
  trace_id ← get "traceId" raw
  job_id ← get "jobId" raw
  provider ← get "provider" raw
  agent_id ← get "agentId" raw
  started_at ← get "startedAt" raw
  last_event_at ← get "lastEventAt" raw
  last_event_type ← get "lastEventType" raw
  parse_fields numerals raw trace_id job_id provider agent_id started_at last_event_at
      last_event_type

-- An empty hash is a missing key.
unfoldable pub parse_unless_empty : Numerals → Hash → Option InflightRecord
parse_unless_empty numerals [] = none
parse_unless_empty numerals (field ∷ fields) = parse_inflight_hash numerals (field ∷ fields)

unfoldable pub read_record : Numerals → String → InflightRegistry → Option InflightRecord
read_record numerals trace_id r =
    parse_unless_empty numerals (hgetall (build_inflight_key trace_id) r.redis)

abbrev pub context_fields : Option PendingContext → Hash
context_fields none = []
context_fields (some c) =
    ("contextId", c.context_id)
    ∷ ("contextTitle", c.context_title)
    ∷ ("contextStatus", c.context_status)
    ∷ []

abbrev pub started_fields : Numerals → JobStarted → Option PendingContext → Hash
started_fields numerals e context =
    ("traceId", e.trace_id)
    ∷ ("jobId", e.job_id)
    ∷ ("provider", e.provider)
    ∷ ("agentId", e.agent_id)
    ∷ ("startedAt", numerals.show e.timestamp)
    ∷ ("lastEventAt", numerals.show e.timestamp)
    ∷ ("lastEventType", "job.started")
    ∷ context_fields context

unfoldable pub record_pending_context : WebhookAccepted → InflightRegistry → InflightRegistry
record_pending_context e r = record r {
  pending_context =
      set e.trace_id
        (record {
          context_id = e.context_id;
          context_title = e.context_title;
          context_status = e.context_status;
        })
        r.pending_context;
}

unfoldable pub record_started : Numerals → JobStarted → InflightRegistry → InflightRegistry
record_started numerals e r = record r {
  redis =
      hset (build_inflight_key e.trace_id)
        (started_fields numerals e (get e.trace_id r.pending_context)) r.redis;
}

unfoldable pub touch : Numerals → String → ℕ → String → InflightRegistry → InflightRegistry
touch numerals trace_id timestamp event_type r =
    let key = build_inflight_key trace_id in
    record r {
      redis =
          if has key r.redis
          then hset key
              (("lastEventAt", numerals.show timestamp) ∷ ("lastEventType", event_type) ∷ [])
              r.redis
          else r.redis;
    }

unfoldable pub clear : String → InflightRegistry → InflightRegistry
clear trace_id r = record {
  redis = delete (build_inflight_key trace_id) r.redis;
  pending_context = delete trace_id r.pending_context;
}

abbrev pub runner_type : RunnerKind → String
runner_type assistant_text = "runner.assistant_text"
runner_type tool_call = "runner.tool_call"
runner_type result = "runner.result"
runner_type complete = "runner.complete"
runner_type error = "runner.error"

unfoldable pub handle_event : Numerals → ClawndomEvent → InflightRegistry → InflightRegistry
unfolding record_pending_context record_started touch clear
handle_event numerals (webhook_accepted e) r = record_pending_context e r
handle_event numerals (job_started e) r = record_started numerals e r
handle_event numerals (job_paused e) r = touch numerals e.trace_id e.timestamp "job.paused" r
handle_event numerals (job_retried e) r = touch numerals e.trace_id e.timestamp "job.retried" r
handle_event numerals (runner e) r = touch numerals e.trace_id e.timestamp (runner_type e.kind) r
handle_event numerals (job_completed e) r = clear e.trace_id r
handle_event numerals (job_failed e) r = if e.final then clear e.trace_id r else r
handle_event numerals event r = r

-- A new process over the same Redis: `stop`, then a registry without pending contexts.
unfoldable pub stop : InflightRegistry → InflightRegistry
stop r = record r { pending_context = [] }
