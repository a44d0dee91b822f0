-- ===== src/Ingest.antt =====
-- services/event-ingest.service.ts: from an accepted delivery to a queued job. The context that the
-- provider's strategy extracts and the queue's answer are parameters; Redis is the map of dedup keys.
pub mod AtMostOnce
pub mod Handover
pub mod Tests
use clawndom.Common.{
  ℕ, String, Bool, true, false, not, Option, none, some, List, [], ◌∷◌, ◌==◌, ◌⧺◌, get_or,
  if◌then◌else◌,
}
use clawndom.Common.Result.{Result, ok, err}
use clawndom.Common.Dict.{Dict, get, set, has}
use clawndom.Event.{
  ClawndomEvent, RejectReason, no_routing_match, duplicate, webhook_accepted, webhook_rejected,
  job_queued,
}
use clawndom.Routing.Json.{Json, stringify}
use clawndom.Routing.Condition.{EvalError, Runtime}
use clawndom.Routing.Resolve.{ResolvedAgent, ResolvedRoute, resolve_agent_from_agents}
use clawndom.Worker.Envelope.{EnvelopeContext, JobEnvelope, Codec}

-- The request with what it depends on: the context of the payload, the clock, and the answer of
-- `queue.add`, which is the id of the job or the error that it throws.
pub record IngestRequest : Type 0 where
  pub provider : String
  pub agents : List ResolvedAgent
  pub parsed_payload : Json
  pub trace_id : String
  pub context : EnvelopeContext
  pub now : ℕ
  pub add : Result String (Option String)

pub data IngestResult : Type 0 where
  unrouted : IngestResult
  repeated : IngestResult
  enqueued : (job_trace_id : String) → IngestResult
  thrown : IngestResult

-- The result, the events in order, the data of the queued job, and the dedup keys.
pub record Ingested : Type 0 where
  pub result : IngestResult
  pub published : List ClawndomEvent
  pub queued : Option String
  pub redis : Dict String

abbrev pub rejection : IngestRequest → RejectReason → ClawndomEvent
rejection request reason = webhook_rejected (record {
  timestamp = request.now;
  trace_id = request.trace_id;
  provider = request.provider;
  reason = reason;
  context_id = some request.context.id;
  context_status = some request.context.status;
  context_title = some request.context.title;
})

unfoldable pub dedup_key : IngestRequest → String
dedup_key request =
    "clawndom:dedup:" ⧺ request.provider ⧺ ":" ⧺ request.context.id ⧺ ":" ⧺ request.context.status

unfoldable pub first_envelope : IngestRequest → JobEnvelope
unfolding stringify
first_envelope request = record {
  payload = stringify request.parsed_payload;
  attempt = 1;
  original_job_id = none;
  context = some request.context;
  session_id = none;
}

-- After the dedup: `queue.add`, and the two events under the id of the job.
unfoldable pub enqueue :
    Codec → IngestRequest → Dict String → Result String (Option String) → Ingested
unfolding first_envelope
enqueue codec request redis (err message) = record {
  result = thrown;
  published = [];
  queued = none;
  redis = redis;
}
enqueue codec request redis (ok id) =
    let job_trace_id = get_or id "unknown" in
    record {
      result = enqueued job_trace_id;
      published =
          webhook_accepted (record {
            timestamp = request.now;
            trace_id = job_trace_id;
            provider = request.provider;
            context_id = request.context.id;
            context_title = request.context.title;
            context_status = request.context.status;
          })
          ∷ job_queued (record {
            timestamp = request.now;
            trace_id = job_trace_id;
            job_id = job_trace_id;
            provider = request.provider;
            context_id = request.context.id;
            context_title = request.context.title;
          })
          ∷ [];
      queued = some (codec.stringify (first_envelope request));
      redis = redis;
    }

-- `SET key 1 NX`, unless the context has no id.
unfoldable pub dedup : Codec → IngestRequest → Dict String → Ingested
unfolding enqueue dedup_key
dedup codec request redis =
    let fresh = enqueue codec request (set (dedup_key request) "1" redis) request.add in
    let unkeyed = enqueue codec request redis request.add in
    let seen : Ingested = record {
      result = repeated;
      published = rejection request duplicate ∷ [];
      queued = none;
      redis = redis;
    } in
    if request.context.id == "?"
    then unkeyed
    else if has (dedup_key request) redis
    then seen
    else fresh

unfoldable pub ingest_routed :
    Codec → IngestRequest → Dict String → Result EvalError (Option ResolvedRoute) → Ingested
unfolding dedup
ingest_routed codec request redis (err e) = record {
  result = thrown;
  published = [];
  queued = none;
  redis = redis;
}
ingest_routed codec request redis (ok none) = record {
  result = unrouted;
  published = rejection request no_routing_match ∷ [];
  queued = none;
  redis = redis;
}
ingest_routed codec request redis (ok (some route)) = dedup codec request redis

unfoldable pub ingest_event : Runtime → Codec → IngestRequest → Dict String → Ingested
unfolding ingest_routed
ingest_event runtime codec request redis =
    ingest_routed codec request redis
      (resolve_agent_from_agents runtime request.parsed_payload request.provider request.agents)
