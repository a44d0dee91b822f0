-- ===== src/Inflight/Orphans.antt =====
-- What an orphan is, by itself: the records that a sweep is to report and to remove.
use clawndom.Common.{
  ℕ, ◌+◌, ◌-◌, String, Bool, false, ◌&&◌, ◌||◌, Option, none, some, List, [], ◌∷◌, ◌==◌, ltb,
  filter, map, if◌then◌else◌, ◌≡◌, refl, ap, ◌∙◌, arith, inl, inr, Bool-cases,
}
use clawndom.Common.Dict.{Dict}
use clawndom.Inflight.{Numerals, InflightRecord, Hash, hgetall, parse_inflight_hash}
use clawndom.Inflight.Reaper.{
  FetchedInflight, JobOrphaned, keep_parsed, fetch_inflights, is_stale, is_orphan_eligible,
  classify, emit_orphan,
}

filter-filter {ℓ} :
    {A : Type ℓ} (p q : A → Bool) (x : A) (xs : List A)
    → filter q (filter p (x ∷ xs))
      ≡ (if p x && q x then x ∷ filter q (filter p xs) else filter q (filter p xs))
filter-filter p q x xs = elim (Bool-cases (p x)) [ inl e ↦ rw e | inr e ↦ rw e ]

module _ (numerals : Numerals) (threshold_ms : ℕ) (state_of : InflightRecord → String)
    (now : ℕ) where
  -- The last event of the record is more than the threshold ago, and its job is over or unknown.
  abbrev pub is_over : String → Bool
  is_over state = "completed" == state || "failed" == state || "unknown" == state

  pub is_orphan : FetchedInflight → Bool
  is_orphan fetched =
      ltb (threshold_ms + fetched.inflight.last_event_at) now && is_over (state_of fetched.inflight)

  -- What is said of an orphan.
  pub report : FetchedInflight → JobOrphaned
  report fetched = record {
    timestamp = now;
    trace_id = fetched.inflight.trace_id;
    job_id = fetched.inflight.job_id;
    provider = fetched.inflight.provider;
    agent_id = fetched.inflight.agent_id;
    context_id = fetched.inflight.context_id;
    context_title = fetched.inflight.context_title;
    context_status = fetched.inflight.context_status;
    last_event_at = fetched.inflight.last_event_at;
    last_event_type = fetched.inflight.last_event_type;
  }

  pub emit_orphan-report :
      (orphans : List FetchedInflight) → map (emit_orphan numerals now) orphans ≡ map report orphans
  unfolding emit_orphan report
  emit_orphan-report [] = refl
  emit_orphan-report (orphan ∷ orphans) =
      ap (λ rest. report orphan ∷ rest) (emit_orphan-report orphans)

  later-than : (last : ℕ) → ltb threshold_ms (now - last) ≡ ltb (threshold_ms + last) now
  later-than last = ground arith

  or_false : (a b c : Bool) → a || (b || (c || false)) ≡ a || b || c
  or_false a b c = ground arith

  eligible-is_over : (state : String) → is_orphan_eligible state ≡ is_over state
  unfolding is_orphan_eligible
  eligible-is_over state = or_false ("completed" == state) ("failed" == state) ("unknown" == state)

  judgement :
      (fetched : FetchedInflight)
      → is_stale numerals threshold_ms now fetched && classify numerals state_of fetched
        ≡ is_orphan fetched
  unfolding is_orphan is_stale classify
  judgement fetched =
      rw (later-than fetched.inflight.last_event_at, eligible-is_over (state_of fetched.inflight))
        refl

  unfoldable pub judged : String → Option InflightRecord → Bool
  judged key none = false
  judged key (some r) = is_orphan (record { key = key; inflight = r })

  abbrev pub keep_orphan :
      String → Option InflightRecord → List FetchedInflight → List FetchedInflight
  keep_orphan key none rest = rest
  keep_orphan key (some r) rest =
      if is_orphan (record { key = key; inflight = r })
      then record { key = key; inflight = r } ∷ rest
      else rest

  -- The orphans among the keys, each judged by itself.
  unfoldable pub orphans_of : List String → Dict Hash → List FetchedInflight
  orphans_of [] redis = []
  orphans_of (key ∷ keys) redis =
      keep_orphan key (parse_inflight_hash numerals (hgetall key redis)) (orphans_of keys redis)

  filter-keep_parsed :
      (key : String) (r : Option InflightRecord) (rest : List FetchedInflight)
      → filter
          (classify numerals state_of)
          (filter (is_stale numerals threshold_ms now) (keep_parsed numerals key r rest))
        ≡ keep_orphan key r
            (filter (classify numerals state_of) (filter (is_stale numerals threshold_ms now) rest))
  unfolding is_orphan
  filter-keep_parsed key none rest = refl
  filter-keep_parsed key (some r) rest =
      let fetched : FetchedInflight = record { key = key; inflight = r } in
      filter-filter (is_stale numerals threshold_ms now) (classify numerals state_of) fetched rest
      ∙ rw (judgement fetched) refl

  pub filter-fetch_inflights :
      (keys : List String) (redis : Dict Hash)
      → filter
          (classify numerals state_of)
          (filter (is_stale numerals threshold_ms now) (fetch_inflights numerals keys redis))
        ≡ orphans_of keys redis
  unfolding fetch_inflights orphans_of
  filter-fetch_inflights [] redis = refl
  filter-fetch_inflights (key ∷ keys) redis =
      filter-keep_parsed key _ (fetch_inflights numerals keys redis)
      ∙ ap (keep_orphan key _) (filter-fetch_inflights keys redis)

  -- The record that the store holds under a key, when it holds one.
  unfoldable pub record_under : String → Dict Hash → Option InflightRecord
  record_under key redis = parse_inflight_hash numerals (hgetall key redis)
