-- ===== src/Ingest/Tests.antt =====
-- Deliveries of one issue.
use clawndom.Common.{◌≤◌, none, some, [], ◌∷◌, ◌≡◌, refl}
use clawndom.Common.Result.{ok, err}
use clawndom.Event.{duplicate}
use clawndom.Common.{true}
use clawndom.Common.Dict
use clawndom.Common.Dict.{Dict, get, set, has}
use clawndom.Routing.Json.{str, obj, end, field}
use clawndom.Routing.FieldPath.{split, walk, resolve_field_path}
use clawndom.Routing.Condition.{Runtime, exists, evaluate, evaluate_exists}
use clawndom.Routing.Resolve.{AgentRule, ResolvedAgent, route, resolve_agent_from_agents}
use clawndom.Worker.Wire.{codec}
use clawndom.Ingest.{IngestRequest, thrown, repeated, rejection, dedup_key, ingest_event}
use clawndom.Ingest.AtMostOnce.{enqueued_under, enqueued_under-le}
use clawndom.Ingest.Handover.{ingest_event-lost}

abbrev runtime : Runtime
runtime = record { inherited = λ v key. none; regexp = λ pattern flags. none }

abbrev rule : AgentRule
rule = record {
  id = none;
  name = some "todo";
  condition = some (exists "key");
  message_template = none;
}

abbrev agent : ResolvedAgent
agent = record {
  name = "patch";
  dir = "/agents/patch";
  routing = ("jira", rule ∷ []) ∷ [];
  operator_allowlist = none;
}

abbrev request : IngestRequest
request = record {
  provider = "jira";
  agents = agent ∷ [];
  parsed_payload = obj (field "key" (str "SPE-1") end);
  trace_id = "boundary";
  context = record { id = "SPE-1"; title = "Title"; status = "Todo" };
  now = 3;
  add = ok (some "5");
}

routed :
    resolve_agent_from_agents runtime request.parsed_payload "jira" (agent ∷ [])
    ≡ ok (some (route agent rule))
unfolding resolve_agent_from_agents evaluate evaluate_exists resolve_field_path split Dict.get walk
routed = refl

enqueued_under-le_example :
    enqueued_under runtime codec (dedup_key request) (request ∷ request ∷ request ∷ []) [] ≤ 1
unfolding Dict.get
enqueued_under-le_example =
    enqueued_under-le runtime codec (dedup_key request) (request ∷ request ∷ request ∷ []) []

abbrev refused : IngestRequest
refused = record request { add = err "down" }

ingest_event-lost_example :
    let first = ingest_event runtime codec refused [] in
    let second = ingest_event runtime codec (record refused { add = ok (some "6") }) first.redis in
    (first.result ≡ thrown)
    × (first.queued ≡ none)
    × (first.published ≡ [])
    × (has (dedup_key refused) first.redis ≡ true)
    × (second.result ≡ repeated)
    × (second.queued ≡ none)
    × (second.published ≡ rejection refused duplicate ∷ [])
unfolding Dict.get
ingest_event-lost_example =
    ingest_event-lost runtime codec refused [] (route agent rule) "down" (ok (some "6")) routed refl
      refl refl
