-- ===== src/SessionPool/Capacity.antt =====
-- The number of warm sessions, under any interleaving of the calls.
use clawndom.Common.{
  ℕ, zero, suc, ◌+◌, ◌-◌, ◌≤◌, String, Bool, true, false, Option, none, some, [], ◌∷◌, ◌≡◌, refl,
  ap, ◌∙◌, leb, if◌then◌else◌, arith, inl, inr, Bool-cases, ◌==◌,
}
use clawndom.Common.Lists.{length, length-drop}
use clawndom.Common.Dict.{Dict, get, delete, length-set-le, length-delete-le}
use clawndom.SessionPool.State.{SessionPool}
use clawndom.SessionPool.Acquire.{
  SessionAcquireRequest, evict_front, evict_least_recently_used, make_room, Begun, refused,
  warm_hit, waiting, begin_cold, begin_found, begin_acquire,
}
use clawndom.SessionPool.Room.{make_room-drop, evict_front-max_sessions}

make_room-max_sessions :
    (fuel : ℕ) (pool : SessionPool) → (make_room fuel pool).max_sessions ≡ pool.max_sessions
unfolding make_room evict_front evict_least_recently_used
make_room-max_sessions zero pool = refl
make_room-max_sessions (suc fuel) pool =
    elim (Bool-cases (leb pool.max_sessions (length pool.active))) [
      | inl e ↦
          rw e (make_room-max_sessions fuel (evict_least_recently_used pool) ∙ evicted pool.active)
      | inr e ↦ rw e
    ]
  where
    evicted : (active : Dict ℕ) → (evict_front active pool).max_sessions ≡ pool.max_sessions
    evicted [] = refl
    evicted (entry ∷ rest) = evict_front-max_sessions entry rest pool

make_room-length :
    (pool : SessionPool)
    → 1 ≤ pool.max_sessions
    → length (make_room (length pool.active) pool).active + 1 ≤ pool.max_sessions
make_room-length pool positive = omega (
  arith,
  ap length (make_room-drop (length pool.active) pool.active pool refl (omega arith) positive),
  length-drop (suc (length pool.active) - pool.max_sessions) pool.active,
)

length-delete-lt :
    (k : String) (v : ℕ) (m : Dict ℕ) → get k m ≡ some v → length (delete k m) + 1 ≤ length m
unfolding get delete
length-delete-lt k v [] h = absurd (ground (arith, h))
length-delete-lt k v ((j, w) ∷ m) h = elim (Bool-cases (j == k)) [
  | inl e ↦ rw e (omega (arith, length-delete-le k m))
  | inr e ↦ rw e (omega (arith, length-delete-lt k v m (rw e at h)))
]

-- The pool after the first half of `acquire`: room for one more, or no more than before.
abbrev pub IsBounded : SessionPool → Begun → Type 0
IsBounded pool refused = Unit {0}
IsBounded pool (warm_hit ref next) =
    (next.max_sessions ≡ pool.max_sessions) × (length next.active ≤ length pool.active)
IsBounded pool (waiting next) =
    (next.max_sessions ≡ pool.max_sessions) × (length next.active + 1 ≤ pool.max_sessions)

begin_cold-IsBounded :
    (pool next : SessionPool)
    → 1 ≤ pool.max_sessions
    → next.max_sessions ≡ pool.max_sessions
    → IsBounded pool (begin_cold next)
unfolding begin_cold
begin_cold-IsBounded pool next positive same = (
  make_room-max_sessions (length next.active) next ∙ same,
  omega (arith, same, make_room-length next (omega (arith, same))),
)

begin_found-IsBounded :
    (key : String) (pool : SessionPool) (found : Option ℕ)
    → 1 ≤ pool.max_sessions
    → get key pool.active ≡ found
    → IsBounded pool (begin_found key pool found)
unfolding begin_found
begin_found-IsBounded key pool none positive h = begin_cold-IsBounded pool pool positive refl
begin_found-IsBounded key pool (some ref) positive h =
    elim (Bool-cases (pool.sessions ref).exited) [
      | inl e ↦ rw e (
          begin_cold-IsBounded pool (record pool { active = delete key pool.active }) positive refl)
      | inr e ↦ rw e (
        refl,
        omega (
          arith,
          length-set-le key ref (delete key pool.active),
          length-delete-lt key ref pool.active h,
        ),
      )
    ]

if-IsBounded :
    (pool : SessionPool) (b : Bool) (begun : Begun)
    → IsBounded pool begun
    → IsBounded pool (if b then refused else begun)
if-IsBounded pool true begun h = tt
if-IsBounded pool false begun h = h

pub begin_acquire-IsBounded :
    (request : SessionAcquireRequest) (pool : SessionPool)
    → 1 ≤ pool.max_sessions
    → IsBounded pool (begin_acquire request pool)
unfolding begin_acquire
begin_acquire-IsBounded request pool positive =
    if-IsBounded pool pool.shutting_down _ (begin_found-IsBounded _ pool _ positive refl)
