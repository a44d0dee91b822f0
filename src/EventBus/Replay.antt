-- ===== src/EventBus/Replay.antt =====
-- The replay buffer against the whole history of published events.
use clawndom.Common.{
  ℕ, zero, suc, ◌+◌, ◌-◌, ◌≤◌, ◌≡◌, refl, ap, ◌∙◌, Option, none, some, List, [], ◌∷◌, ◌++◌, arith,
  ltb, length, filter, drop, length-append, length-drop, drop-append, ℤ, append_assoc, append-nil,
  Bool-cases, inl, inr,
}
use Prim.Native.Nat.add
use native.Mathlib.Nat.{add-zero}
use native.Mathlib.Numerals.{add-one}
use clawndom.EventBus.{
  StampedEvent, EventBus, create, append_bounded, publish, subscribe, unsubscribe,
  resolve_buffer_size,
}

resolve_buffer_size_pos : (explicit env : Option ℤ) → 1 ≤ resolve_buffer_size explicit env
unfolding resolve_buffer_size
resolve_buffer_size_pos (some explicit) env = omega arith
resolve_buffer_size_pos none env = ground arith

-- What callers do to a bus.
pub data Op {ℓ} (E : Type ℓ) : Type ℓ where
  publishes : E → Op E
  subscribes unsubscribes : ℕ → Op E

module _ {ℓ} {E : Type ℓ} where
  unfoldable pub apply : Op E → EventBus E → EventBus E
  apply (publishes event) bus = (publish event bus).0
  apply (subscribes handler) bus = subscribe handler bus
  apply (unsubscribes handler) bus = unsubscribe handler bus

  unfoldable pub run : List (Op E) → EventBus E → EventBus E
  run [] bus = bus
  run (op ∷ ops) bus = run ops (apply op bus)

  -- The events that the operations publish, oldest first.
  abbrev pub published : List (Op E) → List E
  published [] = []
  published (publishes event ∷ ops) = event ∷ published ops
  published (subscribes handler ∷ ops) = published ops
  published (unsubscribes handler ∷ ops) = published ops

  -- The events of a history with their ids, the first of which is `from`.
  abbrev pub stamp : ℕ → List E → List (StampedEvent E)
  stamp from [] = []
  stamp from (event ∷ events) = record { id = from; event = event } ∷ stamp (suc from) events

  pub stamp-append :
      (from : ℕ) (xs ys : List E)
      → stamp from (xs ++ ys) ≡ stamp from xs ++ stamp (from + length xs) ys
  stamp-append from [] ys = ap (λ n. stamp n ys) {x = from} (omega arith)
  stamp-append from (x ∷ xs) ys =
      ap (λ l. record { id = from; event = x } ∷ l)
        (stamp-append (suc from) xs ys
          ∙ ap (λ n. stamp (suc from) xs ++ stamp n ys) {x = suc from + length xs} (omega arith))

  pub length-stamp : (from : ℕ) (xs : List E) → length (stamp from xs) ≡ length xs
  length-stamp from [] = refl
  length-stamp from (x ∷ xs) = ap suc (length-stamp (suc from) xs)

  drop-stamp : (n from : ℕ) (xs : List E) → drop n (stamp from xs) ≡ stamp (from + n) (drop n xs)
  drop-stamp zero from xs = ap (λ k. stamp k xs) {x = from} (omega arith)
  drop-stamp (suc n) from [] = refl
  drop-stamp (suc n) from (x ∷ xs) =
      drop-stamp n (suc from) xs ∙ ap (λ k. stamp k (drop n xs)) {x = suc from + n} (omega arith)

  pub drop-nil : (n : ℕ) → drop {A = E} n [] ≡ []
  drop-nil zero = refl
  drop-nil (suc n) = refl

  -- Ids run upwards, so the filter on ids keeps a suffix.
  pub filter-stamp :
      (since from : ℕ) (xs : List E)
      → filter (λ e. ltb since e.id) (stamp (suc from) xs)
        ≡ stamp (suc from + (since - from)) (drop (since - from) xs)
  filter-stamp since from [] = rw (drop-nil (since - from))
  filter-stamp since from (x ∷ xs) =
      let later = filter-stamp since (suc from) xs in
      elim (Bool-cases (ltb since (suc from))) [
        | inl keep ↦
            let here : since - from ≡ 0 = ground arith in
            let next : since - suc from ≡ 0 = ground arith in
            rw (keep, here, later, next) (ground (arith, add-zero from))
        | inr skip ↦
            let here : since - from ≡ suc (since - suc from) = ground arith in
            rw (skip, here, later) (ground arith)
      ]

  pub drop-drop : (m n : ℕ) (xs : List E) → drop m (drop n xs) ≡ drop (n + m) xs
  drop-drop m zero xs = ap (λ k. drop k xs) {x = m} (omega arith)
  drop-drop m (suc n) [] = rw (drop-nil m, drop-nil (suc n + m))
  drop-drop m (suc n) (x ∷ xs) = drop-drop m n xs ∙ rw add.suc

  drop-drop_one : (n : ℕ) (xs : List E) → drop 1 (drop n xs) ≡ drop (suc n) xs
  drop-drop_one zero xs = refl
  drop-drop_one (suc n) [] = refl
  drop-drop_one (suc n) (x ∷ xs) = drop-drop_one n xs

  -- The events that the buffer has lost, and those that it holds.
  abbrev pub lost : ℕ → List E → ℕ
  lost size history = length history - size

  abbrev pub window : ℕ → List E → List (StampedEvent E)
  window size history = stamp (suc (lost size history)) (drop (lost size history) history)

  -- The bus after `history` has been published.
  pub record Holds (history : List E) (bus : EventBus E) : Type ℓ where
    pub counted : bus.next_id ≡ suc (length history)
    pub windowed : bus.buffer ≡ window bus.buffer_size history
    pub sized : 1 ≤ bus.buffer_size

  stamp-drop-append :
      (k : ℕ) (history : List E) (event : E)
      → k ≤ length history
      → stamp (suc k) (drop k history) ++ record { id = suc (length history); event = event } ∷ []
        ≡ stamp (suc k) (drop k (history ++ event ∷ []))
  stamp-drop-append k history event h =
      rw (drop-append k history (event ∷ []) h, stamp-append (suc k) (drop k history) (event ∷ []))
        (ground (arith, length-drop k history))

  append_bounded-window :
      (size : ℕ) (history : List E) (event : E)
      → append_bounded size
          (window size history)
          (record { id = suc (length history); event = event })
        ≡ window size (history ++ event ∷ [])
  unfolding append_bounded
  append_bounded-window size history event =
      let k : ℕ = lost size history in
      let all : List E = history ++ event ∷ [] in
      let n : length all ≡ suc (length history) =
        omega (arith, length-append history (event ∷ [])) in
      let m : length (stamp (suc k) (drop k all)) ≡ length all - k =
        length-stamp (suc k) (drop k all) ∙ length-drop k all in
      rw (stamp-drop-append k history event (omega arith))
        (elim (Bool-cases (ltb size (length (stamp (suc k) (drop k all))))) [
          | inl full ↦
              let grown : lost size all ≡ suc k = ground arith in
              rw (full, grown, drop-stamp 1 (suc k) (drop k all), drop-drop_one k all)
                (ground (arith, add-one (suc k)))
          | inr room ↦ let same : lost size all ≡ k = ground arith in rw (room, same)
        ])

  pub publish-Holds :
      (history : List E) (event : E) (bus : EventBus E)
      → Holds history bus
      → Holds (history ++ event ∷ []) (publish event bus).0
  unfolding publish
  publish-Holds history event bus h = record {
    counted = omega (arith, h.counted, length-append history (event ∷ []));
    windowed = rw (h.counted, h.windowed) (append_bounded-window bus.buffer_size history event);
    sized = h.sized;
  }

  pub create-Holds : (explicit env : Option ℤ) → Holds [] (create {E = E} explicit env)
  unfolding create
  create-Holds explicit env = record {
    counted = refl;
    windowed = rw (drop-nil (0 - resolve_buffer_size explicit env));
    sized = resolve_buffer_size_pos explicit env;
  }

  pub subscribe-Holds :
      (history : List E) (handler : ℕ) (bus : EventBus E)
      → Holds history bus
      → Holds history (subscribe handler bus)
  unfolding subscribe
  subscribe-Holds history handler bus h = record {
    counted = h.counted;
    windowed = h.windowed;
    sized = h.sized;
  }

  pub unsubscribe-Holds :
      (history : List E) (handler : ℕ) (bus : EventBus E)
      → Holds history bus
      → Holds history (unsubscribe handler bus)
  unfolding unsubscribe
  unsubscribe-Holds history handler bus h = record {
    counted = h.counted;
    windowed = h.windowed;
    sized = h.sized;
  }

  pub run-Holds :
      (ops : List (Op E)) (history : List E) (bus : EventBus E)
      → Holds history bus
      → Holds (history ++ published ops) (run ops bus)
  unfolding run apply
  run-Holds [] history bus h = rw append-nil h
  run-Holds (publishes event ∷ ops) history bus h =
      rw (← append_assoc history (event ∷ []) (published ops)) (
        run-Holds ops (history ++ event ∷ []) (publish event bus).0
          (publish-Holds history event bus h))
  run-Holds (subscribes handler ∷ ops) history bus h =
      run-Holds ops history (subscribe handler bus) (subscribe-Holds history handler bus h)
  run-Holds (unsubscribes handler ∷ ops) history bus h =
      run-Holds ops history (unsubscribe handler bus) (unsubscribe-Holds history handler bus h)
