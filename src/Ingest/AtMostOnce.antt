-- ===== src/Ingest/AtMostOnce.antt =====
-- While its dedup key lives, a context is enqueued at most once.
use clawndom.Common.{
  ℕ, suc, ◌≤◌, String, Bool, true, false, not, ◌&&◌, Option, none, some, List, [], ◌∷◌, ◌==◌, ◌≡◌,
  if◌then◌else◌, arith, eq_iff, inl, inr, Bool-cases,
}
use clawndom.Common.Result.{Result, ok, err}
use clawndom.Common.Dict.{Dict, set, has, get-set}
use clawndom.Routing.Condition.{EvalError, Runtime}
use clawndom.Routing.Resolve.{ResolvedRoute, resolve_agent_from_agents}
use clawndom.Worker.Envelope.{Codec}
use clawndom.Ingest.{
  IngestRequest, IngestResult, enqueued, Ingested, dedup_key, enqueue, dedup, ingest_routed,
  ingest_event,
}

abbrev pub is_enqueued : IngestResult → Bool
is_enqueued (enqueued id) = true
is_enqueued other = false

-- The request is deduplicated, under this key.
pub is_keyed : String → IngestRequest → Bool
is_keyed key request = not (request.context.id == "?") && dedup_key request == key

-- What one delivery does to a key: a set key stays set, and an enqueued request under the key found
-- it unset and leaves it set.
record IsStep (key : String) (request : IngestRequest) (redis : Dict String) (i : Ingested)
    : Type 0 where
  stays : has key redis ≡ true → has key i.redis ≡ true
  found : is_enqueued i.result ≡ true → is_keyed key request ≡ true → has key redis ≡ false
  leaves : is_enqueued i.result ≡ true → is_keyed key request ≡ true → has key i.redis ≡ true

pub has-set :
    (key k : String) (redis : Dict String)
    → has key (set k "1" redis) ≡ (if k == key then true else has key redis)
has-set key k redis = ground (arith, get-set k key "1" redis)

module _ (codec : Codec) (key : String) (request : IngestRequest) (redis : Dict String) where
  dedup-unkeyed :
      (add : Result String (Option String))
      → (request.context.id == "?") ≡ true
      → IsStep key request redis (enqueue codec request redis add)
  unfolding enqueue is_keyed
  dedup-unkeyed (err m) u = record {
    stays = λ h. h;
    found = λ e. absurd (ground (arith, e));
    leaves = λ e. absurd (ground (arith, e));
  }
  dedup-unkeyed (ok id) u = record {
    stays = λ h. h;
    found = λ e k. absurd (ground (arith, k, u));
    leaves = λ e k. absurd (ground (arith, k, u));
  }

  dedup-fresh :
      (add : Result String (Option String))
      → has (dedup_key request) redis ≡ false
      → IsStep key request redis (enqueue codec request (set (dedup_key request) "1" redis) add)
  unfolding enqueue is_keyed
  dedup-fresh (err m) new = record {
    stays = λ h. ground (arith, has-set key (dedup_key request) redis, h);
    found = λ e. absurd (ground (arith, e));
    leaves = λ e. absurd (ground (arith, e));
  }
  dedup-fresh (ok id) new = record {
    stays = λ h. ground (arith, has-set key (dedup_key request) redis, h);
    found = λ e k. ground (arith, k, new, eq_iff (dedup_key request) key);
    leaves = λ e k. ground (arith, has-set key (dedup_key request) redis, k);
  }

  dedup-IsStep : IsStep key request redis (dedup codec request redis)
  unfolding dedup
  dedup-IsStep = elim (Bool-cases (request.context.id == "?")) [
    | inl u ↦ rw u (dedup-unkeyed request.add u)
    | inr u ↦ elim (Bool-cases (has (dedup_key request) redis)) [
      | inl s ↦
          rw (u, s)
            (record {
              stays = λ h. h;
              found = λ e. absurd (ground (arith, e));
              leaves = λ e. absurd (ground (arith, e));
            })
      | inr s ↦ rw (u, s) (dedup-fresh request.add s)
    ]
  ]

  ingest_routed-IsStep :
      (route : Result EvalError (Option ResolvedRoute))
      → IsStep key request redis (ingest_routed codec request redis route)
  unfolding ingest_routed
  ingest_routed-IsStep (err e) = record {
    stays = λ h. h;
    found = λ e. absurd (ground (arith, e));
    leaves = λ e. absurd (ground (arith, e));
  }
  ingest_routed-IsStep (ok none) = record {
    stays = λ h. h;
    found = λ e. absurd (ground (arith, e));
    leaves = λ e. absurd (ground (arith, e));
  }
  ingest_routed-IsStep (ok (some route)) = dedup-IsStep

module _ (runtime : Runtime) (codec : Codec) where
  -- How many of the deliveries, in order, enqueue a job under the key.
  pub enqueued_under : String → List IngestRequest → Dict String → ℕ
  enqueued_under key [] redis = 0
  enqueued_under key (request ∷ requests) redis =
      let i = ingest_event runtime codec request redis in
      let rest = enqueued_under key requests i.redis in
      if is_enqueued i.result && is_keyed key request then suc rest else rest

  -- However often a context is delivered, and whatever else comes between, at most one delivery
  -- enqueues a job under its dedup key, and none when the key is already set.
  pub enqueued_under-le :
      (key : String) (requests : List IngestRequest) (redis : Dict String)
      → enqueued_under key requests redis ≤ (if has key redis then 0 else 1)
  unfolding enqueued_under ingest_event
  enqueued_under-le key [] redis = ground arith
  enqueued_under-le key (request ∷ requests) redis =
      let i = ingest_event runtime codec request redis in
      let step = ingest_routed-IsStep codec key request redis (
        resolve_agent_from_agents runtime request.parsed_payload request.provider request.agents) in
      let rest = enqueued_under-le key requests i.redis in
      ground (arith, step.stays, step.found, step.leaves, rest)
