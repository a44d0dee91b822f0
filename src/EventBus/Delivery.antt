-- ===== src/EventBus/Delivery.antt =====
-- What a subscriber of the bus is given: the replayed slice, then the live events.
use clawndom.Common.{
  ℕ, suc, ◌+◌, ◌-◌, ◌≤◌, ◌<◌, ◌≡◌, ap, ◌∙◌, ◌↔◌, true, false, Option, List, [], ◌∷◌, arith, length,
  drop, ℤ, max_zero,
}
use clawndom.EventBus.{EventBus, create, slice, replay_since, get_latest_id}
use clawndom.Common.{length-drop}
use clawndom.EventBus.Replay.{
  Op, run, published, stamp, lost, window, Holds, create-Holds, run-Holds, drop-nil, drop-drop,
  filter-stamp,
}

module _ {ℓ} {E : Type ℓ} where
  slice-events :
      (latest since k : ℕ) (xs : List E)
      → k ≤ since
      → (slice latest since (stamp (suc k) xs)).events ≡ stamp (suc since) (drop (since - k) xs)
  unfolding slice
  slice-events latest since k [] h = rw (drop-nil (since - k))
  slice-events latest since k (x ∷ xs) h =
      filter-stamp since k (x ∷ xs)
      ∙ ap (λ n. stamp n (drop (since - k) (x ∷ xs))) {x = suc k + (since - k)} (omega arith)

  slice-gap_iff :
      (latest since k : ℕ) (xs : List E)
      → ((slice latest since (stamp (suc k) xs)).gap ≡ true) ↔ ((0 < length xs) × (since < k))
  unfolding slice
  slice-gap_iff latest since k [] = ground arith
  slice-gap_iff latest since k (x ∷ xs) = ground arith

  module _ (history : List E) (bus : EventBus E) (h : Holds history bus) (since : ℤ) where
    replay_since-gap_iff :
        ((replay_since since bus).gap ≡ true) ↔ (max_zero since < lost bus.buffer_size history)
    unfolding replay_since
    replay_since-gap_iff =
        let k : ℕ = lost bus.buffer_size history in
        let (to, from) = slice-gap_iff (get_latest_id bus) (max_zero since) k (drop k history) in
        rw h.windowed (λ e. (to e).1, λ l. from (omega (arith, h.sized, length-drop k history), l))

    replay_since-events :
        (replay_since since bus).gap ≡ false
        → (replay_since since bus).events
          ≡ stamp (suc (max_zero since)) (drop (max_zero since) history)
    replay_since-events e =
        let k : ℕ = lost bus.buffer_size history in
        let kept : k ≤ max_zero since = ground (arith, replay_since-gap_iff) in
        let found : (replay_since since bus).events
            ≡ stamp (suc (max_zero since)) (drop (max_zero since - k) (drop k history)) =
          unfold replay_since in
          rw h.windowed
            (slice-events (get_latest_id bus) (max_zero since) k (drop k history) kept) in
        found
        ∙ ap (stamp (suc (max_zero since))) (
            drop-drop (max_zero since - k) k history
            ∙ ap (λ n. drop n history) {x = k + (max_zero since - k)} (omega arith))

  -- The ids that are on the buffer, the newest id, and no event made up: after any sequence of
  -- calls the buffer holds the last `buffer_size` published events, in order, each with its place
  -- in the history as its id.
  pub run-window :
      (explicit env : Option ℤ) (ops : List (Op E))
      → let bus = run ops (create explicit env) in
        (bus.buffer ≡ window bus.buffer_size (published ops))
        × (get_latest_id bus ≡ length (published ops))
  unfolding get_latest_id
  run-window explicit env ops =
      let h = run-Holds ops [] (create explicit env) (create-Holds explicit env) in
      (h.windowed, omega (arith, h.counted))

  -- A replay that does not say `gap` is complete: it is exactly the events published after the
  -- first `since` ones (all of them, if `since` is negative), in order and with their ids.
  pub replay_since_complete :
      (explicit env : Option ℤ) (ops : List (Op E)) (since : ℤ)
      → (replay_since since (run ops (create explicit env))).gap ≡ false
      → (replay_since since (run ops (create explicit env))).events
        ≡ stamp (suc (max_zero since)) (drop (max_zero since) (published ops))
  replay_since_complete explicit env ops since e =
      replay_since-events (published ops) (run ops (create explicit env))
        (run-Holds ops [] (create explicit env) (create-Holds explicit env)) since e

  -- A replay says `gap` exactly when an event with a later id is no longer on the buffer.
  pub replay_since-gap :
      (explicit env : Option ℤ) (ops : List (Op E)) (since : ℤ)
      → let bus = run ops (create explicit env) in
        ((replay_since since bus).gap ≡ true)
        ↔ (max_zero since < lost bus.buffer_size (published ops))
  replay_since-gap explicit env ops since =
      replay_since-gap_iff (published ops) (run ops (create explicit env))
        (run-Holds ops [] (create explicit env) (create-Holds explicit env)) since
