-- ===== src/SessionPool/Room.antt =====
-- Making room evicts the least recently acquired entries, and only as many as needed.
use clawndom.Common.{
  ℕ, zero, suc, ◌-◌, ◌≤◌, String, true, false, List, [], ◌∷◌, ◌≡◌, refl, ap, ◌∙◌, leb, arith, inl,
  inr, Bool-cases,
}
use clawndom.Common.Lists.{length, drop}
use clawndom.Common.Dict.{Dict}
use clawndom.SessionPool.State.{SessionPool, gracefully_close, write}
use clawndom.SessionPool.Acquire.{evict_front, evict_least_recently_used, make_room}

drop-none {ℓ} : {A : Type ℓ} (xs : List A) (n : ℕ) → n ≡ 0 → xs ≡ drop n xs
drop-none xs n h = rw h

drop-fewer :
    (rest : Dict ℕ) (entry : String × ℕ) {m n : ℕ}
    → m ≡ n
    → 1 ≤ n
    → leb n (suc (length rest)) ≡ true
    → drop (suc (length rest) - m) rest ≡ drop (suc (suc (length rest)) - n) (entry ∷ rest)
drop-fewer rest entry {m} {n} same positive room =
    ap (λ k. drop k (entry ∷ rest)) {x = suc (suc (length rest) - m)}
      (ground (arith, same, positive, room))

evict_front-active :
    (entry : String × ℕ) (rest : Dict ℕ) (pool : SessionPool)
    → (evict_front (entry ∷ rest) pool).active ≡ rest
unfolding evict_front gracefully_close write
evict_front-active entry rest pool = ground arith

pub evict_front-max_sessions :
    (entry : String × ℕ) (rest : Dict ℕ) (pool : SessionPool)
    → (evict_front (entry ∷ rest) pool).max_sessions ≡ pool.max_sessions
unfolding evict_front gracefully_close write
evict_front-max_sessions entry rest pool = ground arith

make_room-zero : (pool : SessionPool) → make_room zero pool ≡ pool
unfolding make_room
make_room-zero pool = refl

evict-active :
    (entry : String × ℕ) (rest : Dict ℕ) (pool : SessionPool)
    → pool.active ≡ entry ∷ rest
    → (evict_least_recently_used pool).active ≡ rest
unfolding evict_least_recently_used
evict-active entry rest pool h =
    ap (λ a. (evict_front a pool).active) h ∙ evict_front-active entry rest pool

evict-max_sessions :
    (entry : String × ℕ) (rest : Dict ℕ) (pool : SessionPool)
    → pool.active ≡ entry ∷ rest
    → (evict_least_recently_used pool).max_sessions ≡ pool.max_sessions
unfolding evict_least_recently_used
evict-max_sessions entry rest pool h =
    ap (λ a. (evict_front a pool).max_sessions) h ∙ evict_front-max_sessions entry rest pool

make_room-stop :
    (fuel : ℕ) (pool : SessionPool)
    → leb pool.max_sessions (length pool.active) ≡ false
    → make_room (suc fuel) pool ≡ pool
unfolding make_room
make_room-stop fuel pool h = rw h

make_room-evict :
    (fuel : ℕ) (pool : SessionPool)
    → leb pool.max_sessions (length pool.active) ≡ true
    → make_room (suc fuel) pool ≡ make_room fuel (evict_least_recently_used pool)
unfolding make_room
make_room-evict fuel pool h = rw h

-- The loop removes the oldest entries until there is room, and leaves the others in their order.
pub make_room-drop :
    (fuel : ℕ) (active : Dict ℕ) (pool : SessionPool)
    → pool.active ≡ active
    → length active ≤ fuel
    → 1 ≤ pool.max_sessions
    → (make_room fuel pool).active ≡ drop (suc (length active) - pool.max_sessions) active
make_room-drop zero [] pool h enough positive =
    ap (λ p. p.active) (make_room-zero pool) ∙ h ∙ drop-none [] _ (omega arith)
make_room-drop zero (entry ∷ rest) pool h enough positive = absurd (omega arith)
make_room-drop (suc fuel) [] pool h enough positive =
    ap (λ p. p.active)
      (make_room-stop fuel pool (ap (λ a. leb pool.max_sessions (length a)) h ∙ ground arith))
    ∙ h
    ∙ drop-none [] _ (omega arith)
make_room-drop (suc fuel) (entry ∷ rest) pool h enough positive =
    elim (Bool-cases (leb pool.max_sessions (suc (length rest)))) [
      | inl e ↦
          ap (λ p. p.active)
            (make_room-evict fuel pool (ap (λ a. leb pool.max_sessions (length a)) h ∙ e))
          ∙ make_room-drop fuel rest (evict_least_recently_used pool)
              (evict-active entry rest pool h) (omega arith)
              (rw (evict-max_sessions entry rest pool h) positive)
          ∙ drop-fewer rest entry (evict-max_sessions entry rest pool h) positive e
      | inr e ↦
          ap (λ p. p.active)
            (make_room-stop fuel pool (ap (λ a. leb pool.max_sessions (length a)) h ∙ e))
          ∙ h
          ∙ drop-none (entry ∷ rest) _ (ground (arith, e))
    ]
