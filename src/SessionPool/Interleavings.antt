-- ===== src/SessionPool/Interleavings.antt =====
-- The pool under any interleaving of its calls, its timers and the events of its subprocesses.
use mathlib.Core.Path.{subst}
use clawndom.Common.{
  ℕ, suc, ◌+◌, ◌-◌, ◌≤◌, String, Bool, true, false, Option, none, some, List, [], ◌∷◌, ◌≡◌, refl,
  ◌∙◌, eqb, if◌then◌else◌, arith,
}
use clawndom.Common.Lists.{length}
use clawndom.Common.Dict.{Dict, get, delete, values, length-set-le, length-delete-le}
use clawndom.SessionPool.State.{
  SessionPool, StreamEvent, init, result, turn, create, gracefully_close, write, close_all,
  shutdown, build_composite_key, publish, reaped,
}
use clawndom.SessionPool.Acquire.{
  SessionAcquireRequest, warm_hit, waiting, begin_acquire, finish_acquire, spawn_session,
}
use clawndom.SessionPool.Stream.{
  handle_stream_event, handle_init, handle_result, handle_close, reap_idle, execute_turn,
}
use clawndom.SessionPool.Capacity.{IsBounded, begin_acquire-IsBounded}

-- A step that is no part of an acquire: output of a child, its exit and its close event, the idle
-- timer, the start of a turn, and the shutdown.
pub data Other : Type 0 where
  stream : ℕ → StreamEvent → ℕ → Other
  exit close : ℕ → Other
  reap : ℕ → ℕ → Other
  turn_start : ℕ → Other
  stop : Other

abbrev pub or_same : Option SessionPool → SessionPool → SessionPool
or_same none pool = pool
or_same (some next) pool = next

pub perform : Other → SessionPool → SessionPool
perform (stream ref event now) pool = handle_stream_event ref event now pool
perform (exit ref) pool = write ref (record (pool.sessions ref) { exited = true }) pool
perform (close ref) pool = handle_close ref pool
perform (reap ref now) pool = reap_idle ref now pool
perform (turn_start ref) pool = or_same (execute_turn ref pool) pool
perform stop pool = shutdown pool

-- The pools that can be reached, with the number of acquires that wait for Redis, when at most
-- `limit` of them ever wait at once. `begun` and `finished` are the halves of an acquire.
pub data Reaches (max_sessions limit : ℕ) : ℕ → SessionPool → Type 0 where
  created : (redis : Dict String) → Reaches max_sessions limit 0 (create (some max_sessions) redis)
  begun :
      {n : ℕ} {pool next : SessionPool} (request : SessionAcquireRequest)
      → Reaches max_sessions limit n pool
      → suc n ≤ limit
      → begin_acquire request pool ≡ waiting next
      → Reaches max_sessions limit (suc n) next
  warmed :
      {n : ℕ} {pool next : SessionPool} (request : SessionAcquireRequest) (ref : ℕ)
      → Reaches max_sessions limit n pool
      → begin_acquire request pool ≡ warm_hit ref next
      → Reaches max_sessions limit n next
  finished :
      {n : ℕ} {pool : SessionPool} (request : SessionAcquireRequest) (prior : Option String)
      (now : ℕ)
      → Reaches max_sessions limit (suc n) pool
      → Reaches max_sessions limit n (finish_acquire request prior now pool).1
  performed :
      {n : ℕ} {pool : SessionPool} (other : Other)
      → Reaches max_sessions limit n pool
      → Reaches max_sessions limit n (perform other pool)

-- The maximum stays, and there are no more entries than before.
abbrev Keeps : SessionPool → SessionPool → Type 0
Keeps pool next =
    (next.max_sessions ≡ pool.max_sessions) × (length next.active ≤ length pool.active)

gracefully_close-Keeps : (ref : ℕ) (pool : SessionPool) → Keeps pool (gracefully_close ref pool)
unfolding gracefully_close
gracefully_close-Keeps ref pool = (ground arith, ground arith)

close_all-Keeps : (refs : List ℕ) (pool : SessionPool) → Keeps pool (close_all refs pool)
unfolding close_all
close_all-Keeps [] pool = (refl, omega arith)
close_all-Keeps (ref ∷ refs) pool =
    let (m, a) = gracefully_close-Keeps ref pool in
    let (n, b) = close_all-Keeps refs (gracefully_close ref pool) in (n ∙ m, omega (arith, a, b))

if-Keeps :
    (pool : SessionPool) (b : Bool) (x y : SessionPool)
    → Keeps pool x
    → Keeps pool y
    → Keeps pool (if b then x else y)
if-Keeps pool true x y h k = h
if-Keeps pool false x y h k = k

perform-Keeps : (other : Other) (pool : SessionPool) → Keeps pool (perform other pool)
unfolding perform handle_stream_event handle_init handle_result handle_close reap_idle execute_turn
    shutdown write
perform-Keeps (stream ref (init none) now) pool = (refl, omega arith)
perform-Keeps (stream ref (init (some id)) now) pool = (refl, omega arith)
perform-Keeps (stream ref (result text) now) pool = (refl, omega arith)
perform-Keeps (stream ref (turn text) now) pool = (refl, omega arith)
perform-Keeps (exit ref) pool = (refl, omega arith)
perform-Keeps (close ref) pool = (refl, dropped _ (get _ pool.active))
  where
    dropped :
        (key : String) (found : Option ℕ)
        → length (elim found [
          | none ↦ pool.active
          | some other ↦ if eqb other ref then delete key pool.active else pool.active
        ])
          ≤ length pool.active
    dropped key none = omega arith
    dropped key (some other) = ground (arith, length-delete-le key pool.active)
perform-Keeps (reap ref now) pool =
    if-Keeps pool (pool.sessions ref).pending_turn _ _ (refl, omega arith)
      (gracefully_close-Keeps ref (
        publish
          (reaped (pool.sessions ref).provider_name (pool.sessions ref).key
            (now - (pool.sessions ref).last_activity))
          pool))
perform-Keeps (turn_start ref) pool = (ground arith, ground arith)
perform-Keeps stop pool =
    let (m, a) =
      close_all-Keeps (values pool.active) (record pool { shutting_down = true; active = [] }) in
    (m, omega (arith, a))

-- With a maximum of at least one, in every pool that the calls can reach, when at most `limit`
-- acquires ever wait for Redis at once, the maximum is unchanged and the sessions and the waiting acquires together stay below the maximum and the limit; with one
-- acquire at a time there are never more sessions than the maximum.
pub Reaches-size :
    (max_sessions limit : ℕ) {n : ℕ} {pool : SessionPool}
    → 1 ≤ max_sessions
    → Reaches max_sessions limit n pool
    → (pool.max_sessions ≡ max_sessions) × (length pool.active + n + 1 ≤ max_sessions + limit)
unfolding finish_acquire spawn_session write
Reaches-size max_sessions limit positive (created redis) = (refl, omega arith)
Reaches-size max_sessions limit positive (begun {n} {pool} {next} request r room h) =
    let (same, within) = Reaches-size max_sessions limit positive r in
    let (kept, fits) =
      subst (IsBounded pool) h (begin_acquire-IsBounded request pool (omega (arith, same))) in
    (kept ∙ same, omega (arith, same, fits))
Reaches-size max_sessions limit positive (warmed {n} {pool} {next} request ref r h) =
    let (same, within) = Reaches-size max_sessions limit positive r in
    let (kept, fits) =
      subst (IsBounded pool) h (begin_acquire-IsBounded request pool (omega (arith, same))) in
    (kept ∙ same, omega (arith, within, fits))
Reaches-size max_sessions limit positive (finished {n} {pool} request prior now r) =
    let (same, within) = Reaches-size max_sessions limit positive r in
    (
      same,
      omega (
        arith,
        within,
        length-set-le (build_composite_key request.provider_name request.key) pool.count
            pool.active,
      ),
    )
Reaches-size max_sessions limit positive (performed {n} {pool} other r) =
    let (same, within) = Reaches-size max_sessions limit positive r in
    let (kept, fewer) = perform-Keeps other pool in (kept ∙ same, omega (arith, within, fewer))
