-- ===== src/Inflight/Reaper.antt =====
-- services/orphan-reaper.service.ts: one sweep over the inflight records. The scanned keys and the
-- state of a job in the queue are parameters; a failed lookup answers "unknown".
use clawndom.Common.{
  ℕ, ◌-◌, String, Bool, Option, none, some, List, [], ◌∷◌, ◌==◌, ltb, any, filter, length, map,
}
use clawndom.Common.Dict.{Dict, delete}
use clawndom.Inflight.{Numerals, InflightRecord, Hash, hgetall, parse_inflight_hash}

pub record FetchedInflight : Type 0 where
  pub key : String
  pub inflight : InflightRecord

-- The `job.orphaned` event, whose reason is always "no-terminal-event".
pub record JobOrphaned : Type 0 where
  pub timestamp : ℕ
  pub trace_id : String
  pub job_id : String
  pub provider : String
  pub agent_id : String
  pub context_id : Option String
  pub context_title : Option String
  pub context_status : Option String
  pub last_event_at : ℕ
  pub last_event_type : String

pub record ReapResult : Type 0 where
  pub scanned : ℕ
  pub orphaned : ℕ

-- What a sweep leaves behind, with its events in order.
pub record Sweep : Type 0 where
  pub result : ReapResult
  pub published : List JobOrphaned
  pub redis : Dict Hash

unfoldable pub is_orphan_eligible : String → Bool
is_orphan_eligible state =
    any (λ eligible. eligible == state) ("completed" ∷ "failed" ∷ "unknown" ∷ [])

module _ (numerals : Numerals) where
  abbrev pub keep_parsed :
      String → Option InflightRecord → List FetchedInflight → List FetchedInflight
  keep_parsed key none rest = rest
  keep_parsed key (some record_) rest = record { key = key; inflight = record_ } ∷ rest

  -- Keys whose hash is no record are passed over.
  unfoldable pub fetch_inflights : List String → Dict Hash → List FetchedInflight
  unfolding hgetall parse_inflight_hash
  fetch_inflights [] redis = []
  fetch_inflights (key ∷ keys) redis =
      keep_parsed key (parse_inflight_hash numerals (hgetall key redis))
        (fetch_inflights keys redis)

  unfoldable pub is_stale : ℕ → ℕ → FetchedInflight → Bool
  is_stale threshold_ms now fetched = ltb threshold_ms (now - fetched.inflight.last_event_at)

  unfoldable pub classify : (InflightRecord → String) → FetchedInflight → Bool
  classify state_of fetched = is_orphan_eligible (state_of fetched.inflight)

  unfoldable pub emit_orphan : ℕ → FetchedInflight → JobOrphaned
  emit_orphan now fetched = record {
    timestamp = now;
    trace_id = fetched.inflight.trace_id;
    job_id = fetched.inflight.job_id;
    provider = fetched.inflight.provider;
    agent_id = fetched.inflight.agent_id;
    context_id = fetched.inflight.context_id;
    context_title = fetched.inflight.context_title;
    context_status = fetched.inflight.context_status;
    last_event_at = fetched.inflight.last_event_at;
    last_event_type = fetched.inflight.last_event_type;
  }

  -- Each orphan is published, and its key deleted.
  unfoldable pub drop_orphans : List FetchedInflight → Dict Hash → Dict Hash
  drop_orphans [] redis = redis
  drop_orphans (orphan ∷ orphans) redis = drop_orphans orphans (delete orphan.key redis)

  unfoldable pub reap_once :
      (threshold_ms : ℕ)
      → (state_of : InflightRecord → String) → (now : ℕ) → List String
      → Dict Hash
      → Sweep
  unfolding fetch_inflights is_stale classify emit_orphan drop_orphans
  reap_once threshold_ms state_of now keys redis =
      let inflights = fetch_inflights keys redis in
      let orphans = filter (classify state_of) (filter (is_stale threshold_ms now) inflights) in
      record {
        result = record { scanned = length inflights; orphaned = length orphans };
        published = map (emit_orphan now) orphans;
        redis = drop_orphans orphans redis;
      }
