-- ===== src/SessionPool/Tests.antt =====
-- A pool of one or two sessions.
use clawndom.Common.{◌+◌, ◌≤◌, false, none, some, List, [], ◌∷◌, ◌++◌, ◌≡◌, refl, arith}
use clawndom.Common.Lists.{length}
use clawndom.Common.Dict.{get, set, keys}
use clawndom.SessionPool.State.{
  StreamEvent, init, result, turn, SessionPool, create, resolved, build_composite_key, write,
}
use clawndom.SessionPool.Acquire.{
  SessionAcquireRequest, begin_acquire, begin_found, begin_cold, make_room, evict_front,
  evict_least_recently_used, finish_acquire, spawn_session,
}
use clawndom.SessionPool.Interleavings.{Reaches, created, begun, finished, Reaches-size}
use clawndom.SessionPool.Recency.{acquire, ordered, remove, is_live, acquire-keys}
use clawndom.SessionPool.Turns.{run_turn, run_turn-resolved}

pool_code : Unit {0}
unfolding begin_acquire begin_found begin_cold make_room evict_front evict_least_recently_used
pool_code = tt

abbrev first : SessionAcquireRequest
first = record { provider_name = "slack"; key = "a"; idle_timeout = 1000 }

abbrev second : SessionAcquireRequest
second = record { provider_name = "slack"; key = "b"; idle_timeout = 1000 }

abbrev empty : SessionPool
empty = create (some 1) []

-- Both acquires wait for Redis, and then both insert.
both : Reaches 1 2 0 (finish_acquire second none 0 (finish_acquire first none 0 empty).1).1
unfolding begin_acquire begin_found begin_cold make_room get
both = finished second none 0 (
    finished first none 0
      (begun second (begun first (created []) (omega arith) refl) (omega arith) refl))

Reaches-size_example :
    (empty.max_sessions ≡ 1)
    × (length (finish_acquire second none 0 (finish_acquire first none 0 empty).1).1.active + 0 + 1
        ≤ 1 + 2)
unfolding finish_acquire spawn_session write
Reaches-size_example = Reaches-size 1 2 (omega arith) both

-- The pool of one session holds two.
two_sessions :
    length (finish_acquire second none 0 (finish_acquire first none 0 empty).1).1.active ≡ 2
unfolding finish_acquire spawn_session write set build_composite_key
two_sessions = refl

abbrev one : SessionPool
one = (finish_acquire first none 0 empty).1

acquire-keys_example :
    (next : SessionPool) × (acquire second none 5 one ≡ some next)
    × (keys next.active
        ≡ ordered 1
            (build_composite_key "slack" "b")
            (remove (build_composite_key "slack" "b") (keys one.active))
            (is_live one (get (build_composite_key "slack" "b") one.active)))
unfolding finish_acquire spawn_session write
acquire-keys_example = acquire-keys second none 5 one (omega arith) refl

abbrev lines : List StreamEvent
lines = init (some "s") ∷ turn "x" ∷ turn "y" ∷ []

run_turn-resolved_example :
    (next : SessionPool) × (run_turn 0 9 lines "done" one ≡ some next)
    × (next.turns ≡ one.turns ++ resolved 0 (turn "x" ∷ turn "y" ∷ result "done" ∷ []) ∷ [])
    × ((next.sessions 0).pending_turn ≡ false)
    × ((next.sessions 0).turn_events ≡ [])
unfolding finish_acquire spawn_session write
run_turn-resolved_example = run_turn-resolved 0 9 lines "done" one refl refl refl
