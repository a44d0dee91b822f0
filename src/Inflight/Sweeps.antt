-- ===== src/Inflight/Sweeps.antt =====
-- What one sweep removes, and what a second one finds.
use clawndom.Common.{
  ℕ, String, Bool, true, false, not, ◌&&◌, ◌||◌, Option, none, some, List, [], ◌∷◌, ◌++◌,
  append_assoc, ◌==◌, any, all, filter, map, if◌then◌else◌, ◌≡◌, refl, ap, ◌∙◌, arith, eq_iff,
  eq_refl, inl, inr, Bool-cases,
}
use clawndom.Common.Dict.{Dict, get, delete, get-delete}
use clawndom.Inflight.{Numerals, InflightRecord, Hash, hgetall, parse_inflight_hash}
use clawndom.Inflight.Reaper.{FetchedInflight, drop_orphans, reap_once}
use clawndom.Inflight.Orphans.{
  is_orphan, report, emit_orphan-report, judged, keep_orphan, orphans_of, filter-fetch_inflights,
  record_under,
}

any-middle : (k : String) (xs ys : List String) → any (λ j. j == k) (xs ++ k ∷ ys) ≡ true
any-middle k [] ys = ground (arith, eq_refl k)
any-middle k (x ∷ xs) ys = ground (arith, any-middle k xs ys)

all_self : (keys more : List String) → all (λ k. any (λ j. j == k) (more ++ keys)) keys ≡ true
all_self [] more = refl
all_self (k ∷ keys) more = ground (
  arith,
  any-middle k more keys,
  ap (λ js. all (λ i. any (λ j. j == i) js) keys) (append_assoc more (k ∷ []) keys),
  all_self keys (more ++ k ∷ []),
)

module _ (numerals : Numerals) (threshold_ms : ℕ) (state_of : InflightRecord → String)
    (now : ℕ) where
  pub get-drop_orphans :
      (orphans : List FetchedInflight) (key : String) (redis : Dict Hash)
      → get key (drop_orphans numerals orphans redis)
        ≡ (if any (λ orphan. orphan.key == key) orphans then none else get key redis)
  unfolding drop_orphans
  get-drop_orphans [] key redis = refl
  get-drop_orphans (orphan ∷ orphans) key redis =
      get-drop_orphans orphans key (delete orphan.key redis)
      ∙ ground (arith, get-delete orphan.key key redis)

  any-keep_orphan :
      (key other : String) (r : Option InflightRecord) (rest : List FetchedInflight)
      → any
          (λ orphan. orphan.key == other)
          (keep_orphan numerals threshold_ms state_of now key r rest)
        ≡ (judged numerals threshold_ms state_of now key r && key == other)
          || any (λ orphan. orphan.key == other) rest
  unfolding judged
  any-keep_orphan key other none rest = refl
  any-keep_orphan key other (some r) rest = ground arith

  any-orphans_of :
      (keys : List String) (key : String) (redis : Dict Hash)
      → any (λ orphan. orphan.key == key) (orphans_of numerals threshold_ms state_of now keys redis)
        ≡ any (λ k. k == key) keys
          && judged numerals threshold_ms state_of now key
              (record_under numerals threshold_ms state_of now key redis)
  unfolding orphans_of record_under
  any-orphans_of [] key redis = refl
  any-orphans_of (k ∷ keys) key redis =
      any-keep_orphan k key (record_under numerals threshold_ms state_of now k redis)
        (orphans_of numerals threshold_ms state_of now keys redis)
      ∙ ground (arith, any-orphans_of keys key redis, eq_iff k key)

  get-reaped :
      (keys : List String) (redis : Dict Hash) (key : String)
      → get key
          (drop_orphans numerals (orphans_of numerals threshold_ms state_of now keys redis) redis)
        ≡ (if any (λ k. k == key) keys
              && judged numerals threshold_ms state_of now key
                  (record_under numerals threshold_ms state_of now key redis)
            then none
            else get key redis)
  get-reaped keys redis key =
      get-drop_orphans (orphans_of numerals threshold_ms state_of now keys redis) key redis
      ∙ rw (any-orphans_of keys key redis)

  hgetall-eq :
      (key : String) (m n : Dict Hash) → get key m ≡ get key n → hgetall key m ≡ hgetall key n
  unfolding hgetall
  hgetall-eq key m n h = rw (hgetall, h)

  judged-missing :
      (key : String) (m : Dict Hash)
      → get key m ≡ none
      → judged numerals threshold_ms state_of now key
          (record_under numerals threshold_ms state_of now key m)
        ≡ false
  unfolding record_under judged parse_inflight_hash hgetall get
  judged-missing key m h =
      ap (λ hash. judged numerals threshold_ms state_of now key (parse_inflight_hash numerals hash))
        (hgetall-eq key m [] h)

  judged-again :
      (keys : List String) (redis : Dict Hash) (key : String)
      → any (λ k. k == key) keys ≡ true
      → judged numerals threshold_ms state_of now key (
          record_under numerals threshold_ms state_of now key (
            drop_orphans numerals (orphans_of numerals threshold_ms state_of now keys redis) redis))
        ≡ false
  unfolding record_under
  judged-again keys redis key scanned =
      elim (Bool-cases (
        judged numerals threshold_ms state_of now key
          (record_under numerals threshold_ms state_of now key redis))) [
            | inl e ↦ judged-missing key _ (get-reaped keys redis key ∙ rw (scanned, e))
            | inr e ↦
                ap
                  (λ hash.
                    judged numerals threshold_ms state_of now key
                      (parse_inflight_hash numerals hash))
                  (hgetall-eq key _ redis (get-reaped keys redis key ∙ rw (scanned, e)))
                ∙ e
          ]

  keep_orphan-none :
      (key : String) (r : Option InflightRecord) (rest : List FetchedInflight)
      → judged numerals threshold_ms state_of now key r ≡ false
      → keep_orphan numerals threshold_ms state_of now key r rest ≡ rest
  unfolding judged
  keep_orphan-none key none rest h = refl
  keep_orphan-none key (some r) rest h = rw h

  pub reap_once-orphans :
      (keys : List String) (redis : Dict Hash)
      → ((reap_once numerals threshold_ms state_of now keys redis).published
          ≡ map
              (report numerals threshold_ms state_of now)
              (orphans_of numerals threshold_ms state_of now keys redis))
        × ((key : String)
            → get key (reap_once numerals threshold_ms state_of now keys redis).redis ≡ (
                if any (λ k. k == key) keys
                  && judged numerals threshold_ms state_of now key
                      (record_under numerals threshold_ms state_of now key redis)
                then none
                else get key redis))
  unfolding reap_once
  reap_once-orphans keys redis = (
    emit_orphan-report numerals threshold_ms state_of now _
        ∙ ap (map (report numerals threshold_ms state_of now))
            (filter-fetch_inflights numerals threshold_ms state_of now keys redis),
    λ key.
        ap (λ orphans. get key (drop_orphans numerals orphans redis))
          (filter-fetch_inflights numerals threshold_ms state_of now keys redis)
        ∙ get-reaped keys redis key,
  )

  abbrev pub swept : List String → Dict Hash → Dict Hash
  swept keys redis = (reap_once numerals threshold_ms state_of now keys redis).redis

  pub swept-drop_orphans :
      (keys : List String) (redis : Dict Hash)
      → swept keys redis
        ≡ drop_orphans numerals (orphans_of numerals threshold_ms state_of now keys redis) redis
  unfolding reap_once
  swept-drop_orphans keys redis =
      ap (λ orphans. drop_orphans numerals orphans redis)
        (filter-fetch_inflights numerals threshold_ms state_of now keys redis)

module _ (numerals : Numerals) (threshold_ms : ℕ) (state_of : InflightRecord → String)
    (now later : ℕ) where
  abbrev reaped : List String → Dict Hash → Dict Hash
  reaped keys redis =
      drop_orphans numerals (orphans_of numerals threshold_ms state_of now keys redis) redis

  abbrev pub is_new : FetchedInflight → Bool
  is_new fetched = not (is_orphan numerals threshold_ms state_of now fetched)

  keep_orphan-new :
      (key : String) (r : Option InflightRecord) (rest : List FetchedInflight)
      → filter is_new (keep_orphan numerals threshold_ms state_of later key r rest) ≡ (
          if judged numerals threshold_ms state_of now key r
          then filter is_new rest
          else keep_orphan numerals threshold_ms state_of later key r (filter is_new rest))
  unfolding judged
  keep_orphan-new key none rest = refl
  keep_orphan-new key (some r) rest =
      let fetched : FetchedInflight = record { key = key; inflight = r } in
      elim (Bool-cases (is_orphan numerals threshold_ms state_of now fetched)) [
        | inl e ↦ elim (Bool-cases (is_orphan numerals threshold_ms state_of later fetched)) [
          | inl f ↦ rw (e, f, e) refl
          | inr f ↦ rw (e, f) refl
        ]
        | inr e ↦ elim (Bool-cases (is_orphan numerals threshold_ms state_of later fetched)) [
          | inl f ↦ rw (e, f, e) refl
          | inr f ↦ rw (e, f) refl
        ]
      ]

  keep_orphan-if :
      (key : String) (r : Option InflightRecord) (rest : List FetchedInflight)
      → keep_orphan numerals threshold_ms state_of later key
          (if judged numerals threshold_ms state_of now key r then none else r)
          (filter is_new rest)
        ≡ filter is_new (keep_orphan numerals threshold_ms state_of later key r rest)
  keep_orphan-if key r rest = elim (Bool-cases (judged numerals threshold_ms state_of now key r)) [
    | inl e ↦ rw (keep_orphan-new key r rest, e) refl
    | inr e ↦ rw (keep_orphan-new key r rest, e) refl
  ]

  record_under-reaped :
      (keys : List String) (redis : Dict Hash) (key : String)
      → any (λ k. k == key) keys ≡ true
      → record_under numerals threshold_ms state_of later key (reaped keys redis) ≡ (
          if judged numerals threshold_ms state_of now key
            (record_under numerals threshold_ms state_of now key redis)
          then none
          else record_under numerals threshold_ms state_of later key redis)
  unfolding record_under parse_inflight_hash hgetall get
  record_under-reaped keys redis key scanned =
      elim (Bool-cases (
        judged numerals threshold_ms state_of now key
          (record_under numerals threshold_ms state_of now key redis))) [
            | inl e ↦
                ap (parse_inflight_hash numerals) (
                  hgetall-eq numerals threshold_ms state_of now key (reaped keys redis) [] (
                    get-reaped numerals threshold_ms state_of now keys redis key ∙ rw (scanned, e)))
                ∙ rw e refl
            | inr e ↦
                ap (parse_inflight_hash numerals) (
                  hgetall-eq numerals threshold_ms state_of now key (reaped keys redis) redis (
                    get-reaped numerals threshold_ms state_of now keys redis key ∙ rw (scanned, e)))
                ∙ rw e refl
          ]

  orphans_of-later :
      (keys : List String) (redis : Dict Hash) (ks : List String)
      → all (λ k. any (λ j. j == k) keys) ks ≡ true
      → orphans_of numerals threshold_ms state_of later ks (reaped keys redis)
        ≡ filter is_new (orphans_of numerals threshold_ms state_of later ks redis)
  unfolding orphans_of record_under parse_inflight_hash
  orphans_of-later keys redis [] h = refl
  orphans_of-later keys redis (k ∷ ks) h =
      ap
        (λ r.
          keep_orphan numerals threshold_ms state_of later k r
            (orphans_of numerals threshold_ms state_of later ks (reaped keys redis)))
        (record_under-reaped keys redis k (ground (arith, h)))
      ∙ ap
          (keep_orphan numerals threshold_ms state_of later k (
            if judged numerals threshold_ms state_of now k
              (record_under numerals threshold_ms state_of now k redis)
            then none
            else record_under numerals threshold_ms state_of later k redis))
          (orphans_of-later keys redis ks (ground (arith, h)))
      ∙ keep_orphan-if k (record_under numerals threshold_ms state_of later k redis)
          (orphans_of numerals threshold_ms state_of later ks redis)

  -- What is an orphan at both clocks is not there for the second sweep.
  orphans_of-swept :
      (keys : List String) (redis : Dict Hash)
      → orphans_of numerals threshold_ms state_of later keys
          (swept numerals threshold_ms state_of now keys redis)
        ≡ filter is_new (orphans_of numerals threshold_ms state_of later keys redis)
  orphans_of-swept keys redis =
      ap (orphans_of numerals threshold_ms state_of later keys)
        (swept-drop_orphans numerals threshold_ms state_of now keys redis)
      ∙ orphans_of-later keys redis keys (all_self keys [])

module _ (numerals : Numerals) (threshold_ms : ℕ) (state_of : InflightRecord → String)
    (now : ℕ) where
  none_new :
      (key : String) (r : Option InflightRecord) (rest : List FetchedInflight)
      → filter (is_new numerals threshold_ms state_of now now) rest ≡ []
      → filter
          (is_new numerals threshold_ms state_of now now)
          (keep_orphan numerals threshold_ms state_of now key r rest)
        ≡ []
  none_new key none rest h = h
  none_new key (some r) rest h =
      let fetched : FetchedInflight = record { key = key; inflight = r } in
      elim (Bool-cases (is_orphan numerals threshold_ms state_of now fetched)) [
        | inl e ↦ rw (e, e) h
        | inr e ↦ rw e h
      ]

  orphans_of-new :
      (keys : List String) (redis : Dict Hash)
      → filter
          (is_new numerals threshold_ms state_of now now)
          (orphans_of numerals threshold_ms state_of now keys redis)
        ≡ []
  unfolding orphans_of
  orphans_of-new [] redis = refl
  orphans_of-new (key ∷ keys) redis = none_new key _ _ (orphans_of-new keys redis)

  -- A second sweep over the same keys, while no job changes its state and no event arrives, publishes
  -- exactly the scanned records that are orphans by its own clock and were none by the clock of the
  -- first sweep, in the order of the scan. When its clock is that of the first sweep, it publishes
  -- nothing and changes nothing.
  pub reap_once-again :
      (later : ℕ) (keys : List String) (redis : Dict Hash)
      → ((reap_once numerals threshold_ms state_of later keys
            (swept numerals threshold_ms state_of now keys redis)).published
          ≡ map (report numerals threshold_ms state_of later) (
              filter
                (is_new numerals threshold_ms state_of now later)
                (orphans_of numerals threshold_ms state_of later keys redis)))
        × ((reap_once numerals threshold_ms state_of now keys
              (swept numerals threshold_ms state_of now keys redis)).published
            ≡ [])
        × (swept numerals threshold_ms state_of now keys
              (swept numerals threshold_ms state_of now keys redis)
            ≡ swept numerals threshold_ms state_of now keys redis)
  unfolding drop_orphans
  reap_once-again later keys redis =
      let first = swept numerals threshold_ms state_of now keys redis in
      let empty =
        orphans_of-swept numerals threshold_ms state_of now now keys redis
        ∙ orphans_of-new keys redis in
      (
        (reap_once-orphans numerals threshold_ms state_of later keys first).0
            ∙ ap (map (report numerals threshold_ms state_of later))
                (orphans_of-swept numerals threshold_ms state_of now later keys redis),
        (reap_once-orphans numerals threshold_ms state_of now keys first).0
            ∙ ap (map (report numerals threshold_ms state_of now)) empty,
        swept-drop_orphans numerals threshold_ms state_of now keys first
            ∙ ap (λ orphans. drop_orphans numerals orphans first) empty,
      )
