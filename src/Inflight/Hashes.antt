-- ===== src/Inflight/Hashes.antt =====
-- What the commands on the Redis hashes do to the hash of a run.
use text.Mathlib.TextLemmas.{append_cancel_left}
use clawndom.Common.{
  ℕ, String, ◌≡◌, refl, ◌∙◌, Option, none, some, [], arith, if◌then◌else◌, ◌==◌, eq_iff,
}
use clawndom.Common.Dict.{Dict, get, set, delete, get-set, get-delete}
use clawndom.Event.{JobStarted}
use clawndom.Inflight.{
  Numerals, PendingContext, InflightRegistry, Hash, build_inflight_key, assign, hgetall, hset,
  parse_fields, parse_inflight_hash, parse_unless_empty, started_fields, touch,
}
use clawndom.Inflight.Runs.{Run, or_kept, touched, hash_of, hash_of_each, record_of}

pub build_inflight_key-eq :
    (s t : String) → (build_inflight_key s == build_inflight_key t) ≡ (s == t)
unfolding build_inflight_key
build_inflight_key-eq s t = ground (
  arith,
  eq_iff s t,
  eq_iff (build_inflight_key s) (build_inflight_key t),
  append_cancel_left "clawndom:inflight:" s t,
)

module _ (numerals : Numerals) where
  -- `hset` on the hash of a run, or on a missing key, gives the hash of the next run.
  unfoldable pub hgetall_of : Option Run → Hash
  hgetall_of none = []
  hgetall_of (some run) = hash_of numerals run

  pub hgetall-run :
      (key : String) (redis : Dict Hash) (run : Option Run)
      → get key redis ≡ hash_of_each numerals run
      → hgetall key redis ≡ hgetall_of run
  unfolding hgetall hgetall_of
  hgetall-run key redis none h = rw (h, hgetall)
  hgetall-run key redis (some run) h = rw (h, hgetall)

  assign-over :
      (e : JobStarted) (context kept : Option PendingContext) (run : Run)
      → run.context ≡ kept
      → assign (started_fields numerals e context) (hash_of numerals run)
        ≡ hash_of numerals (record {
          start = e;
          last_event_at = e.timestamp;
          last_event_type = "job.started";
          context = or_kept context (some run);
        })
  unfolding assign set
  assign-over e none none run h = rw h
  assign-over e none (some c) run h = rw h
  assign-over e (some context) none run h = rw h
  assign-over e (some context) (some c) run h = rw h

  assign-started :
      (e : JobStarted) (context : Option PendingContext) (run : Option Run)
      → assign (started_fields numerals e context) (hgetall_of run)
        ≡ hash_of numerals (record {
          start = e;
          last_event_at = e.timestamp;
          last_event_type = "job.started";
          context = or_kept context run;
        })
  unfolding assign set hgetall_of
  assign-started e none none = refl
  assign-started e (some context) none = refl
  assign-started e context (some run) = assign-over e context run.context run refl

  pub get-hset-started :
      (e : JobStarted) (context : Option PendingContext) (run : Option Run) (redis : Dict Hash)
      (trace : String)
      → get (build_inflight_key e.trace_id) redis ≡ hash_of_each numerals run
      → get
          (build_inflight_key trace)
          (hset (build_inflight_key e.trace_id) (started_fields numerals e context) redis)
        ≡ (if e.trace_id == trace
            then some (
                hash_of numerals (record {
                  start = e;
                  last_event_at = e.timestamp;
                  last_event_type = "job.started";
                  context = or_kept context run;
                }))
            else get (build_inflight_key trace) redis)
  unfolding hset
  get-hset-started e context run redis trace h =
      get-set (build_inflight_key e.trace_id) (build_inflight_key trace) _ redis
      ∙ rw (
        build_inflight_key-eq e.trace_id trace,
        hgetall-run (build_inflight_key e.trace_id) redis run h,
        assign-started e context run,
      )

  -- A touch moves a record that is there, and never brings one back.
  pub get-touch :
      (trace_id : String) (timestamp : ℕ) (kind : String) (run : Option Run) (r : InflightRegistry)
      (trace : String)
      → get (build_inflight_key trace_id) r.redis ≡ hash_of_each numerals run
      → get (build_inflight_key trace) (touch numerals trace_id timestamp kind r).redis ≡ (
          if trace_id == trace
          then hash_of_each numerals (touched timestamp kind run)
          else get (build_inflight_key trace) r.redis)
  unfolding touch hset hgetall assign set hgetall_of get
  get-touch trace_id timestamp kind none r trace h = ground (arith, h, eq_iff trace_id trace)
  get-touch trace_id timestamp kind (some run) r trace h =
      rw (h, hgetall-run (build_inflight_key trace_id) r.redis (some run) h)
        (get-set (build_inflight_key trace_id) (build_inflight_key trace) _ r.redis
          ∙ rw (build_inflight_key-eq trace_id trace))

  pub get-clear :
      (trace_id trace : String) (redis : Dict Hash)
      → get (build_inflight_key trace) (delete (build_inflight_key trace_id) redis)
        ≡ (if trace_id == trace then none else get (build_inflight_key trace) redis)
  get-clear trace_id trace redis =
      get-delete (build_inflight_key trace_id) (build_inflight_key trace) redis
      ∙ rw (build_inflight_key-eq trace_id trace)

  pub parse-hash_of :
      (run : Run) (context : Option PendingContext)
      → run.context ≡ context
      → parse_unless_empty numerals (hash_of numerals run) ≡ record_of (some run)
  unfolding parse_unless_empty parse_inflight_hash get parse_fields
  parse-hash_of run none h =
      rw (h, numerals.read-show run.start.timestamp, numerals.read-show run.last_event_at)
  parse-hash_of run (some c) h =
      rw (h, numerals.read-show run.start.timestamp, numerals.read-show run.last_event_at)
