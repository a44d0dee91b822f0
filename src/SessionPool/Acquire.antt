-- ===== src/SessionPool/Acquire.antt =====
-- services/session-pool.service.ts: `acquire`, cut where it waits for Redis: other calls run there.
use clawndom.Common.{
  ℕ, zero, suc, ◌+◌, String, true, false, Option, none, some, [], ◌∷◌, leb, if◌then◌else◌,
}
use clawndom.Common.Lists.{length}
use clawndom.Common.Dict.{Dict, get, set, delete}
use clawndom.SessionPool.State.{
  SessionPool, evicted, write, publish, gracefully_close, build_composite_key,
}

pub record SessionAcquireRequest : Type 0 where
  pub provider_name : String
  pub key : String
  pub idle_timeout : ℕ

pub data SessionAcquirePath : Type 0 where
  warm resume fresh : SessionAcquirePath

-- The first entry goes; its timer is cleared and its child closed in the background.
unfoldable pub evict_front : Dict ℕ → SessionPool → SessionPool
unfolding write gracefully_close
evict_front [] pool = pool
evict_front (entry ∷ rest) pool =
    let session = pool.sessions entry.1 in
    let popped = record pool { active = rest } in
    gracefully_close entry.1 (
      publish (evicted session.provider_name session.key (length rest))
        (write entry.1 (record session { idle_timer = false }) popped))

unfoldable pub evict_least_recently_used : SessionPool → SessionPool
unfolding evict_front
evict_least_recently_used pool = evict_front pool.active pool

-- The loop that makes room, on fuel: each turn removes an entry, so the size of the map is enough.
unfoldable pub make_room : ℕ → SessionPool → SessionPool
make_room zero pool = pool
make_room (suc fuel) pool =
    let roomier = make_room fuel (evict_least_recently_used pool) in
    if leb pool.max_sessions (length pool.active) then roomier else pool

-- The first half of `acquire`: refused, answered by a warm session, or waiting for Redis.
pub data Begun : Type 0 where
  refused : Begun
  warm_hit : ℕ → SessionPool → Begun
  waiting : SessionPool → Begun

unfoldable pub begin_cold : SessionPool → Begun
unfolding make_room
begin_cold pool = waiting (make_room (length pool.active) pool)

-- A live entry goes to the back of the order; a stale one is dropped.
unfoldable pub begin_found : String → SessionPool → Option ℕ → Begun
unfolding begin_cold
begin_found composite_key pool none = begin_cold pool
begin_found composite_key pool (some ref) =
    let dropped = record pool { active = delete composite_key pool.active } in
    if (pool.sessions ref).exited
    then begin_cold dropped
    else warm_hit ref
        (record pool { active = set composite_key ref (delete composite_key pool.active) })

unfoldable pub begin_acquire : SessionAcquireRequest → SessionPool → Begun
unfolding begin_found build_composite_key
begin_acquire request pool =
    let composite_key = build_composite_key request.provider_name request.key in
    if pool.shutting_down
    then refused
    else begin_found composite_key pool (get composite_key pool.active)

-- `spawnSession`: a new object with its timer armed.
unfoldable pub spawn_session : SessionAcquireRequest → Option String → ℕ → SessionPool → SessionPool
unfolding write
spawn_session request prior_session_id now pool =
    record (write pool.count
      (record {
        provider_name = request.provider_name;
        key = request.key;
        exited = false;
        session_id = none;
        last_activity = now;
        idle_timer = true;
        pending_turn = false;
        idle_timeout_ms = request.idle_timeout;
        ready = false;
        expected_session_id = prior_session_id;
        turn_events = [];
      })
      pool) { count = pool.count + 1 }

abbrev pub path_of : Option String → SessionAcquirePath
path_of none = fresh
path_of (some id) = resume

-- The second half, with the answer of Redis: spawn and insert.
unfoldable pub finish_acquire :
    SessionAcquireRequest → Option String → ℕ → SessionPool → SessionAcquirePath × SessionPool
unfolding spawn_session build_composite_key
finish_acquire request prior_session_id now pool =
    let spawned = spawn_session request prior_session_id now pool in
    (
      path_of prior_session_id,
      record spawned {
        active =
            set (build_composite_key request.provider_name request.key) pool.count spawned.active;
      },
    )
