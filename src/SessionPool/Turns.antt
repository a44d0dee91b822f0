-- ===== src/SessionPool/Turns.antt =====
-- One turn of a session: the caller gets the events of its own turn.
use clawndom.Common.{
  ℕ, String, Bool, true, false, not, Option, none, some, List, [], ◌∷◌, ◌++◌, append_assoc,
  append-nil, ◌≡◌, refl, ◌∙◌, sym, eqb, filter, all, arith, ◌>>=◌,
}
use clawndom.SessionPool.State.{
  StreamEvent, init, result, turn, SessionPool, TurnOutcome, resolved, write,
}
use clawndom.SessionPool.Stream.{handle_stream_event, handle_init, handle_result, execute_turn}

-- The output of one child, in order.
unfoldable pub feed : ℕ → ℕ → List StreamEvent → SessionPool → SessionPool
feed ref now [] pool = pool
feed ref now (event ∷ events) pool = feed ref now events (handle_stream_event ref event now pool)

-- A turn: it starts, the child writes events, and then a result.
unfoldable pub run_turn : ℕ → ℕ → List StreamEvent → String → SessionPool → Option SessionPool
unfolding feed
run_turn ref now events text pool = do
  started ← execute_turn ref pool
  some (handle_stream_event ref (result text) now (feed ref now events started))

abbrev pub is_turn : StreamEvent → Bool
is_turn (init id) = false
is_turn (result text) = true
is_turn (turn text) = true

abbrev pub is_result : StreamEvent → Bool
is_result (init id) = false
is_result (result text) = true
is_result (turn text) = false

eqb_refl : (n : ℕ) → eqb n n ≡ true
eqb_refl n = ground arith

-- Before the result, the events gather and the caller waits.
feed-gathers :
    (ref now : ℕ) (events : List StreamEvent) (pool : SessionPool)
    → all (λ event. not (is_result event)) events ≡ true
    → ((feed ref now events pool).turns ≡ pool.turns)
      × (((feed ref now events pool).sessions ref).pending_turn ≡ (pool.sessions ref).pending_turn)
      × (((feed ref now events pool).sessions ref).turn_events
          ≡ (pool.sessions ref).turn_events ++ filter is_turn events)
unfolding feed handle_stream_event handle_init write
feed-gathers ref now [] pool h = (refl, refl, sym (append-nil _))
feed-gathers ref now (init none ∷ events) pool h = feed-gathers ref now events pool h
feed-gathers ref now (init (some id) ∷ events) pool h =
    let next = handle_stream_event ref (init (some id)) now pool in
    let (t, p, e) = feed-gathers ref now events next h in
    (t, p ∙ rw (eqb_refl ref), e ∙ rw (eqb_refl ref))
feed-gathers ref now (result text ∷ events) pool h = absurd (ground (arith, h))
feed-gathers ref now (turn text ∷ events) pool h =
    let next = handle_stream_event ref (turn text) now pool in
    let (t, p, e) = feed-gathers ref now events next h in
    (
      t,
      p ∙ rw (eqb_refl ref),
      e
          ∙ rw (
            eqb_refl ref,
            append_assoc (pool.sessions ref).turn_events (turn text ∷ []) (filter is_turn events),
          ),
    )

started : ℕ → SessionPool → SessionPool
started ref pool = write ref (record (pool.sessions ref) { pending_turn = true }) pool

execute_turn-started :
    (ref : ℕ) (pool : SessionPool)
    → (pool.sessions ref).pending_turn ≡ false
    → execute_turn ref pool ≡ some (started ref pool)
unfolding execute_turn started
execute_turn-started ref pool h = rw h

handle_result-turns :
    (ref : ℕ) (event : StreamEvent) (now : ℕ) (pool : SessionPool) (events : List StreamEvent)
    (turns : List TurnOutcome)
    → (pool.sessions ref).pending_turn ≡ true
    → (pool.sessions ref).turn_events ≡ events
    → pool.turns ≡ turns
    → (handle_result ref event now pool).turns ≡ turns ++ resolved ref (events ++ event ∷ []) ∷ []
unfolding handle_result write
handle_result-turns ref event now pool events turns p e t = simp (p, e, t)

-- On a session that is between turns, a turn starts, and when the child has written its result the
-- caller has exactly the events of this turn with the result last, whatever init events came among
-- them; the session is between turns again.
pub run_turn-resolved :
    (ref now : ℕ) (events : List StreamEvent) (text : String) (pool : SessionPool)
    → (pool.sessions ref).pending_turn ≡ false
    → (pool.sessions ref).turn_events ≡ []
    → all (λ event. not (is_result event)) events ≡ true
    → (next : SessionPool) × (run_turn ref now events text pool ≡ some next)
      × (next.turns ≡ pool.turns ++ resolved ref (filter is_turn events ++ result text ∷ []) ∷ [])
      × ((next.sessions ref).pending_turn ≡ false)
      × ((next.sessions ref).turn_events ≡ [])
unfolding run_turn handle_stream_event handle_result write started
run_turn-resolved ref now events text pool idle empty lines =
    let start = started ref pool in
    let (t, p, e) = feed-gathers ref now events start lines in
    (
      handle_stream_event ref (result text) now (feed ref now events start),
      rw (execute_turn-started ref pool idle),
      handle_result-turns ref (result text) now (feed ref now events start) _ _
          (p ∙ rw (eqb_refl ref)) (e ∙ rw (eqb_refl ref, empty)) t,
      rw (eqb_refl ref),
      rw (eqb_refl ref),
    )
