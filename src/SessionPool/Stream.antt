-- ===== src/SessionPool/Stream.antt =====
-- services/session-pool.service.ts: what the output and the end of a subprocess do, the idle timer,
-- and the start of a turn.
use clawndom.Common.{
  ℕ, ◌-◌, String, true, false, Option, none, some, List, [], ◌∷◌, ◌++◌, eqb, ◌==◌, if◌then◌else◌,
}
use clawndom.Common.Dict.{get, set, delete}
use clawndom.SessionPool.State.{
  StreamEvent, init, result, turn, Session, SessionPool, PoolEvent, closed, stale, spawned, resumed,
  reaped, resolved, rejected, write, publish, gracefully_close, build_composite_key,
  build_redis_key,
}

-- A resume that came back with another id.
abbrev pub mismatch : Session → Option String → String → List PoolEvent
mismatch session none id = []
mismatch session (some prior) id =
    if id == prior then [] else stale session.provider_name session.key prior ∷ []

abbrev pub announced : Session → Option String → String → PoolEvent
announced session none id = spawned session.provider_name session.key id
announced session (some prior) id = resumed session.provider_name session.key id

unfoldable pub handle_init : ℕ → Option String → SessionPool → SessionPool
unfolding write build_redis_key
handle_init ref none pool = pool
handle_init ref (some id) pool =
    let session = pool.sessions ref in
    let prior = session.expected_session_id in
    record (write ref (record session { session_id = some id; ready = true }) pool) {
      redis = set (build_redis_key session.provider_name session.key) id pool.redis;
      published = pool.published ++ mismatch session prior id ++ announced session prior id ∷ [];
    }

-- The result ends the turn: the events go to the caller that waits, if one does.
unfoldable pub handle_result : ℕ → StreamEvent → ℕ → SessionPool → SessionPool
unfolding write
handle_result ref event now pool =
    let session = pool.sessions ref in
    record (write ref
      (record session {
        turn_events = [];
        last_activity = now;
        idle_timer = true;
        pending_turn = false;
      })
      pool) {
        turns =
            if session.pending_turn
            then pool.turns ++ resolved ref (session.turn_events ++ event ∷ []) ∷ []
            else pool.turns;
      }

unfoldable pub handle_stream_event : ℕ → StreamEvent → ℕ → SessionPool → SessionPool
unfolding handle_init handle_result write
handle_stream_event ref (init id) now pool = handle_init ref id pool
handle_stream_event ref (result text) now pool = handle_result ref (result text) now pool
handle_stream_event ref (turn text) now pool =
    let session = pool.sessions ref in
    write ref (record session { turn_events = session.turn_events ++ turn text ∷ [] }) pool

-- The `close` listener: the turn in flight fails, and the entry goes if it is this session's.
unfoldable pub handle_close : ℕ → SessionPool → SessionPool
unfolding write build_composite_key
handle_close ref pool =
    let session = pool.sessions ref in
    let composite_key = build_composite_key session.provider_name session.key in
    record (write ref (record session { exited = true; pending_turn = false; idle_timer = false })
      pool) {
        active = elim (get composite_key pool.active) [
          | none ↦ pool.active
          | some other ↦ if eqb other ref then delete composite_key pool.active else pool.active
        ];
        published = pool.published ++ closed session.provider_name session.key ∷ [];
        turns = if session.pending_turn then pool.turns ++ rejected ref ∷ [] else pool.turns;
      }

-- The idle timer fires: a turn in flight defers it.
unfoldable pub reap_idle : ℕ → ℕ → SessionPool → SessionPool
unfolding write gracefully_close
reap_idle ref now pool =
    let session = pool.sessions ref in
    let idle_for_ms = now - session.last_activity in
    if session.pending_turn
    then write ref (record session { idle_timer = true }) pool
    else gracefully_close ref (publish (reaped session.provider_name session.key idle_for_ms) pool)

-- `executeTurn`, when the write to the child succeeds: `none` is the internal error.
unfoldable pub execute_turn : ℕ → SessionPool → Option SessionPool
unfolding write
execute_turn ref pool =
    let session = pool.sessions ref in
    if session.pending_turn
    then none
    else some (write ref (record session { pending_turn = true }) pool)
