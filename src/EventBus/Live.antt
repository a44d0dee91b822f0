-- ===== src/EventBus/Live.antt =====
-- The live events of one subscriber, and the join of replay and live events.
use mathlib.Core.List.{reverse-cons, reverse-reverse}
use clawndom.Common.{
  ℕ, suc, ◌≤◌, ◌≡◌, ◌≢◌, refl, ◌∙◌, false, Option, List, [], ◌∷◌, ◌++◌, arith, eqb, if◌then◌else◌,
  length, filter, drop, drop-append, map, reverse, ℤ, max_zero, append-nil, length-append,
  length-drop,
}
use clawndom.EventBus.{
  StampedEvent, EventBus, create, publish, subscribe, unsubscribe, subscribe_since, remove_first,
  remove_newest, replay_since,
}
use clawndom.EventBus.Replay.{
  Op, publishes, subscribes, unsubscribes, run, published, stamp, stamp-append, Holds, create-Holds,
  run-Holds, publish-Holds, subscribe-Holds, unsubscribe-Holds,
}
use clawndom.EventBus.Delivery.{replay_since_complete}

-- The registrations of a handler.
abbrev pub registrations : ℕ → List ℕ → List ℕ
registrations handler = filter (λ h. eqb h handler)

registrations-append :
    (handler : ℕ) (xs ys : List ℕ)
    → registrations handler (xs ++ ys) ≡ registrations handler xs ++ registrations handler ys
registrations-append handler [] ys = refl
registrations-append handler (x ∷ xs) ys = ground (arith, registrations-append handler xs ys)

registrations-reverse :
    (handler : ℕ) (xs : List ℕ)
    → registrations handler (reverse xs) ≡ reverse (registrations handler xs)
registrations-reverse handler [] = refl
registrations-reverse handler (x ∷ xs) =
    rw (reverse-cons x xs, registrations-append handler (reverse xs) (x ∷ []))
      (ground (
        arith,
        registrations-reverse handler xs,
        reverse-cons x (registrations handler xs),
        append-nil (reverse (registrations handler xs)),
      ))

registrations-remove_first :
    (handler other : ℕ) (xs : List ℕ)
    → other ≢ handler
    → registrations handler (remove_first other xs) ≡ registrations handler xs
unfolding remove_first
registrations-remove_first handler other [] n = refl
registrations-remove_first handler other (x ∷ xs) n =
    ground (arith, registrations-remove_first handler other xs n)

registrations-remove_newest :
    (handler other : ℕ) (xs : List ℕ)
    → other ≢ handler
    → registrations handler (remove_newest other xs) ≡ registrations handler xs
unfolding remove_newest
registrations-remove_newest handler other xs n =
    rw
      (
        registrations-reverse handler (remove_first other (reverse xs)),
        registrations-remove_first handler other (reverse xs) n,
        registrations-reverse handler xs,
      )
      (reverse-reverse (registrations handler xs))

-- No operation registers the handler or removes it.
abbrev pub Leaves {ℓ} : {E : Type ℓ} → ℕ → List (Op E) → Type 0
Leaves handler [] = Unit
Leaves handler (publishes event ∷ ops) = Leaves handler ops
Leaves handler (subscribes other ∷ ops) = (other ≢ handler) × Leaves handler ops
Leaves handler (unsubscribes other ∷ ops) = (other ≢ handler) × Leaves handler ops

module _ {ℓ} {E : Type ℓ} where
  -- What the emitter hands over while the operations run.
  unfoldable pub emitted : List (Op E) → EventBus E → List (ℕ × StampedEvent E)
  emitted [] bus = []
  emitted (publishes event ∷ ops) bus = (publish event bus).2 ++ emitted ops (publish event bus).0
  emitted (subscribes handler ∷ ops) bus = emitted ops (subscribe handler bus)
  emitted (unsubscribes handler ∷ ops) bus = emitted ops (unsubscribe handler bus)

  -- The part of it that one handler receives.
  abbrev pub received : ℕ → List (ℕ × StampedEvent E) → List (StampedEvent E)
  received handler [] = []
  received handler ((h, stamped) ∷ rest) =
      if eqb h handler then stamped ∷ received handler rest else received handler rest

  received-append :
      (handler : ℕ) (xs ys : List (ℕ × StampedEvent E))
      → received handler (xs ++ ys) ≡ received handler xs ++ received handler ys
  received-append handler [] ys = refl
  received-append handler ((h, stamped) ∷ xs) ys = ground (arith, received-append handler xs ys)

  received-map :
      (handler : ℕ) (handlers : List ℕ) (stamped : StampedEvent E)
      → received handler (map (λ h. (h, stamped)) handlers)
        ≡ map (λ h. stamped) (registrations handler handlers)
  received-map handler [] stamped = refl
  received-map handler (h ∷ hs) stamped = ground (arith, received-map handler hs stamped)

  received-publish :
      (handler : ℕ) (event : E) (bus : EventBus E)
      → registrations handler bus.handlers ≡ handler ∷ []
      → received handler (publish event bus).2 ≡ record { id = bus.next_id; event = event } ∷ []
  unfolding publish
  received-publish handler event bus r =
      received-map handler bus.handlers (record { id = bus.next_id; event = event }) ∙ rw r

  publish-registrations :
      (handler : ℕ) (event : E) (bus : EventBus E)
      → registrations handler bus.handlers ≡ handler ∷ []
      → registrations handler (publish event bus).0.handlers ≡ handler ∷ []
  unfolding publish
  publish-registrations handler event bus r = r

  subscribe-registrations :
      (handler other : ℕ) (bus : EventBus E)
      → other ≢ handler
      → registrations handler (subscribe other bus).handlers ≡ registrations handler bus.handlers
  unfolding subscribe
  subscribe-registrations handler other bus n =
      registrations-append handler bus.handlers (other ∷ [])
      ∙ ground (arith, append-nil (registrations handler bus.handlers))

  subscribe_self-registrations :
      (handler : ℕ) (bus : EventBus E)
      → registrations handler bus.handlers ≡ []
      → registrations handler (subscribe handler bus).handlers ≡ handler ∷ []
  unfolding subscribe
  subscribe_self-registrations handler bus r =
      registrations-append handler bus.handlers (handler ∷ []) ∙ rw r (ground arith)

  unsubscribe-registrations :
      (handler other : ℕ) (bus : EventBus E)
      → other ≢ handler
      → registrations handler (unsubscribe other bus).handlers ≡ registrations handler bus.handlers
  unfolding unsubscribe
  unsubscribe-registrations handler other bus n =
      registrations-remove_newest handler other bus.handlers n

  received-emitted :
      (handler : ℕ) (ops : List (Op E)) (history : List E) (bus : EventBus E)
      → Leaves handler ops
      → Holds history bus
      → registrations handler bus.handlers ≡ handler ∷ []
      → received handler (emitted ops bus) ≡ stamp (suc (length history)) (published ops)
  unfolding emitted
  received-emitted handler [] history bus l h r = refl
  received-emitted handler (publishes event ∷ ops) history bus l h r =
      rw (received-append handler (publish event bus).2 (emitted ops (publish event bus).0)) (
        ground (
          arith,
          received-publish handler event bus r,
          h.counted,
          length-append history (event ∷ []),
          received-emitted handler ops (history ++ event ∷ []) (publish event bus).0 l
              (publish-Holds history event bus h) (publish-registrations handler event bus r),
        ))
  received-emitted handler (subscribes other ∷ ops) history bus (n, l) h r =
      received-emitted handler ops history (subscribe other bus) l
        (subscribe-Holds history other bus h) (subscribe-registrations handler other bus n ∙ r)
  received-emitted handler (unsubscribes other ∷ ops) history bus (n, l) h r =
      received-emitted handler ops history (unsubscribe other bus) l
        (unsubscribe-Holds history other bus h) (unsubscribe-registrations handler other bus n ∙ r)

  -- A subscriber that was not registered before, and that nobody else registers or removes, receives
  -- each event exactly once across `subscribe_since` and any operations after it: where the replay
  -- says no gap and `since` is not past the newest id, the replayed events followed by the live ones
  -- are all events published after the first `since`, in order, with their ids.
  pub subscribe_since-once :
      (explicit env : Option ℤ) (before after : List (Op E)) (since : ℤ) (handler : ℕ)
      → registrations handler (run before (create explicit env)).handlers ≡ []
      → Leaves handler after
      → max_zero since ≤ length (published before)
      → (replay_since since (run before (create explicit env))).gap ≡ false
      → let (slice, bus) = subscribe_since since handler (run before (create explicit env)) in
        slice.events ++ received handler (emitted after bus)
        ≡ stamp (suc (max_zero since)) (drop (max_zero since) (published before ++ published after))
  unfolding subscribe_since
  subscribe_since-once explicit env before after since handler new l le e =
      let bus = run before (create explicit env) in
      let h = run-Holds before [] (create explicit env) (create-Holds explicit env) in
      let live =
        received-emitted handler after (published before) (subscribe handler bus) l
          (subscribe-Holds (published before) handler bus h)
          (subscribe_self-registrations handler bus new) in
      rw
        (
          replay_since_complete explicit env before since e,
          live,
          drop-append (max_zero since) (published before) (published after) le,
          stamp-append (suc (max_zero since)) (drop (max_zero since) (published before))
              (published after),
        )
        (ground (arith, length-drop (max_zero since) (published before)))
