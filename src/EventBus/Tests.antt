-- ===== src/EventBus/Tests.antt =====
-- The bus on small inputs.
use clawndom.Common.{
  ℕ, ◌<◌, ◌≡◌, refl, ◌↔◌, true, false, none, some, List, [], ◌∷◌, ◌++◌, arith, pos, negsuc,
  max_zero,
}
use clawndom.EventBus.{
  StampedEvent, EventBus, create, publish, subscribe, unsubscribe, replay_since, subscribe_since,
  get_latest_id,
}
use clawndom.EventBus.Replay.{Op, publishes, subscribes, unsubscribes, apply, run, published, lost}
use clawndom.EventBus.Delivery.{run-window, replay_since_complete, replay_since-gap}
use clawndom.EventBus.Live.{emitted, received, subscribe_since-once}

bus_code : Unit {0}
unfolding create run apply publish subscribe unsubscribe replay_since subscribe_since get_latest_id
    emitted
bus_code = tt

-- Three events on a buffer of two.
abbrev three : List (Op ℕ)
three = publishes 10 ∷ subscribes 7 ∷ publishes 20 ∷ publishes 30 ∷ []

abbrev small : EventBus ℕ
small = create (some (pos 2)) none

abbrev at : ℕ → ℕ → StampedEvent ℕ
at id event = record { id = id; event = event }

replay_tests :
    ((replay_since (pos 0) (run three small)).gap ≡ true)
    × ((replay_since (pos 1) (run three small)).gap ≡ false)
    × ((replay_since (negsuc 4) small).gap ≡ false)
    × ((publish 40 (run three small)).2 ≡ (7, at 4 40) ∷ [])
unfolding bus_code
replay_tests = (refl, refl, refl, refl)

run-window_example :
    ((run three small).buffer ≡ at 2 20 ∷ at 3 30 ∷ []) × (get_latest_id (run three small) ≡ 3)
unfolding bus_code
run-window_example = run-window (some (pos 2)) none three

replay_since_complete_example :
    (replay_since (pos 1) (run three small)).events ≡ at 2 20 ∷ at 3 30 ∷ []
unfolding bus_code
replay_since_complete_example = replay_since_complete (some (pos 2)) none three (pos 1) refl

replay_since-gap_example :
    ((replay_since (pos 0) (run three small)).gap ≡ true)
    ↔ (max_zero (pos 0) < lost (run three small).buffer_size (published three))
replay_since-gap_example = replay_since-gap (some (pos 2)) none three (pos 0)

subscribe_since-once_example :
    (subscribe_since (pos 2) 9 (run three small)).0.events
      ++ received 9 (
          emitted
            (publishes 40 ∷ unsubscribes 7 ∷ publishes 50 ∷ [])
            (subscribe_since (pos 2) 9 (run three small)).1)
    ≡ at 3 30 ∷ at 4 40 ∷ at 5 50 ∷ []
unfolding bus_code
subscribe_since-once_example =
    subscribe_since-once (some (pos 2)) none three
      (publishes 40 ∷ unsubscribes 7 ∷ publishes 50 ∷ []) (pos 2) 9 refl
      (λ e. absurd (omega (arith, e)), tt) (omega arith) refl
