-- ===== src/Ingest/Handover.antt =====
-- What the worker reads of an enqueued delivery, and what a failing queue leaves behind.
use clawndom.Common.{
  String, true, false, Option, none, some, List, [], ◌∷◌, ◌==◌, ◌≡◌, refl, eq_refl, get_or,
}
use clawndom.Common.Result.{Result, ok, err}
use clawndom.Common.Dict.{Dict, has}
use clawndom.Event.{ClawndomEvent, duplicate, webhook_accepted, job_queued}
use clawndom.Routing.Condition.{Runtime}
use clawndom.Routing.Resolve.{ResolvedRoute, resolve_agent_from_agents}
use clawndom.Worker.Envelope.{Codec}
use clawndom.Ingest.{
  IngestRequest, IngestResult, repeated, enqueued, thrown, Ingested, dedup_key, rejection,
  first_envelope, enqueue, dedup, ingest_routed, ingest_event,
}
use clawndom.Ingest.AtMostOnce.{has-set}

-- The events of an accepted delivery under the trace of its job.
abbrev pub announced : IngestRequest → String → List ClawndomEvent
announced request trace =
    webhook_accepted (record {
      timestamp = request.now;
      trace_id = trace;
      provider = request.provider;
      context_id = request.context.id;
      context_title = request.context.title;
      context_status = request.context.status;
    })
    ∷ job_queued (record {
      timestamp = request.now;
      trace_id = trace;
      job_id = trace;
      provider = request.provider;
      context_id = request.context.id;
      context_title = request.context.title;
    })
    ∷ []

-- The queued data, the events, and the id under which they are published.
IsHandedOver : Codec → IngestRequest → Option String → String → Ingested → Type 0
IsHandedOver codec request id trace i =
    (i.queued ≡ some (codec.stringify (first_envelope request)))
    × (i.published ≡ announced request (get_or id "unknown"))
    × (get_or id "unknown" ≡ trace)

job_trace_of : IngestResult → String
job_trace_of (enqueued id) = id
job_trace_of other = ""

-- When the queue refuses a routed delivery whose context has an id and whose dedup key is not set, the
-- ingest throws, no job is queued and nothing is published, but the dedup key stays behind: the same
-- delivery, sent again while the key lives, is answered as a duplicate, whatever the queue would say
-- now; no job is queued for it, and a rejection as a duplicate is all that is published.
pub ingest_event-lost :
    (runtime : Runtime) (codec : Codec) (request : IngestRequest) (redis : Dict String)
    (route : ResolvedRoute) (message : String) (again : Result String (Option String))
    → resolve_agent_from_agents runtime request.parsed_payload request.provider request.agents
      ≡ ok (some route)
    → (request.context.id == "?") ≡ false
    → has (dedup_key request) redis ≡ false
    → request.add ≡ err message
    → let first = ingest_event runtime codec request redis in
      let second = ingest_event runtime codec (record request { add = again }) first.redis in
      (first.result ≡ thrown)
      × (first.queued ≡ none)
      × (first.published ≡ [])
      × (has (dedup_key request) first.redis ≡ true)
      × (second.result ≡ repeated)
      × (second.queued ≡ none)
      × (second.published ≡ rejection request duplicate ∷ [])
unfolding ingest_event ingest_routed dedup enqueue
ingest_event-lost runtime codec request redis route message again routed known new refused =
    rw
      (
        routed,
        known,
        new,
        refused,
        has-set (dedup_key request) (dedup_key request) redis,
        eq_refl (dedup_key request),
      )
      (refl, refl, refl, refl, refl, refl, refl)
