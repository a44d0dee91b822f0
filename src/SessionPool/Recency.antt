-- ===== src/SessionPool/Recency.antt =====
-- The order of the pool's keys is the order of their last acquire.
use clawndom.Common.{
  ℕ, zero, suc, ◌-◌, ◌≤◌, String, Bool, true, false, not, Option, none, some, List, [], ◌∷◌, ◌++◌,
  ◌≡◌, refl, sym, ap, ◌∙◌, filter, if◌then◌else◌, arith, inl, inr, Bool-cases, ◌==◌, eq_refl,
}
use clawndom.Common.Lists.{length, drop}
use clawndom.Common.Dict.{Dict, get, set, delete, keys, get-delete}
use clawndom.SessionPool.State.{SessionPool, build_composite_key, write}
use clawndom.SessionPool.Acquire.{
  SessionAcquireRequest, refused, warm_hit, waiting, Begun, make_room, begin_cold, begin_found,
  begin_acquire, finish_acquire, spawn_session,
}
use clawndom.SessionPool.Room.{make_room-drop}

abbrev pub remove : String → List String → List String
remove key ks = filter (λ k. not (k == key)) ks

-- An acquire that nothing interrupts: `none` is the refusal.
pub after_begin : SessionAcquireRequest → Option String → ℕ → Begun → Option SessionPool
after_begin request prior now refused = none
after_begin request prior now (warm_hit ref pool) = some pool
after_begin request prior now (waiting pool) = some (finish_acquire request prior now pool).1

pub acquire : SessionAcquireRequest → Option String → ℕ → SessionPool → Option SessionPool
unfolding after_begin
acquire request prior now pool = after_begin request prior now (begin_acquire request pool)

module _ {V : Type 0} where
  keys-delete : (key : String) (m : Dict V) → keys (delete key m) ≡ remove key (keys m)
  unfolding delete
  keys-delete key [] = refl
  keys-delete key ((k, v) ∷ m) = ground (arith, keys-delete key m)

  keys-set_new :
      (key : String) (v : V) (m : Dict V)
      → get key m ≡ none
      → keys (set key v m) ≡ keys m ++ key ∷ []
  unfolding get set
  keys-set_new key v [] h = refl
  keys-set_new key v ((k, w) ∷ m) h = elim (Bool-cases (k == key)) [
    | inl e ↦ absurd (ground (arith, rw e at h))
    | inr e ↦ rw e (ap (◌∷◌ k) (keys-set_new key v m (rw e at h)))
  ]

  keys-drop : (n : ℕ) (m : Dict V) → keys (drop n m) ≡ drop n (keys m)
  keys-drop zero m = refl
  keys-drop (suc n) [] = refl
  keys-drop (suc n) ((k, v) ∷ m) = keys-drop n m

  get-drop-none : (n : ℕ) (key : String) (m : Dict V) → get key m ≡ none → get key (drop n m) ≡ none
  unfolding get
  get-drop-none zero key m h = h
  get-drop-none (suc n) key [] h = h
  get-drop-none (suc n) key ((k, v) ∷ m) h = elim (Bool-cases (k == key)) [
    | inl e ↦ absurd (ground (arith, rw e at h))
    | inr e ↦ get-drop-none n key m (rw e at h)
  ]

  length-keys : (m : Dict V) → length (keys m) ≡ length m
  length-keys [] = refl
  length-keys ((k, v) ∷ m) = ap suc (length-keys m)

  delete_absent : (key : String) (m : Dict V) → get key m ≡ none → delete key m ≡ m
  unfolding get delete
  delete_absent key [] h = refl
  delete_absent key ((k, v) ∷ m) h = elim (Bool-cases (k == key)) [
    | inl e ↦ absurd (ground (arith, rw e at h))
    | inr e ↦ rw e (ap (◌∷◌ (k, v)) (delete_absent key m (rw e at h)))
  ]

  get-delete_same : (key : String) (m : Dict V) → get key (delete key m) ≡ none
  get-delete_same key m = get-delete key key m ∙ rw (eq_refl key)

if-false : (b : Bool) (x y : Begun) → b ≡ false → (if b then x else y) ≡ y
if-false b x y h = rw h

if-true : (b : Bool) (x y : Begun) → b ≡ true → (if b then x else y) ≡ x
if-true b x y h = rw h

begin_acquire-found :
    (request : SessionAcquireRequest) (pool : SessionPool)
    → pool.shutting_down ≡ false
    → begin_acquire request pool
      ≡ begin_found
          (build_composite_key request.provider_name request.key)
          pool
          (get (build_composite_key request.provider_name request.key) pool.active)
unfolding begin_acquire
begin_acquire-found request pool running = if-false pool.shutting_down _ _ running

finish_acquire-keys :
    (request : SessionAcquireRequest) (prior : Option String) (now : ℕ) (pool : SessionPool)
    → get (build_composite_key request.provider_name request.key) pool.active ≡ none
    → keys (finish_acquire request prior now pool).1.active
      ≡ keys pool.active ++ build_composite_key request.provider_name request.key ∷ []
unfolding finish_acquire spawn_session write
finish_acquire-keys request prior now pool absent =
    keys-set_new (build_composite_key request.provider_name request.key) pool.count pool.active
      absent

-- An acquire that finds no live session under its key.
cold-keys :
    (request : SessionAcquireRequest) (prior : Option String) (now : ℕ) (pool : SessionPool)
    → 1 ≤ pool.max_sessions
    → get (build_composite_key request.provider_name request.key) pool.active ≡ none
    → keys (finish_acquire request prior now (make_room (length pool.active) pool)).1.active
      ≡ drop (suc (length (keys pool.active)) - pool.max_sessions) (keys pool.active)
        ++ build_composite_key request.provider_name request.key ∷ []
cold-keys request prior now pool positive absent =
    let key = build_composite_key request.provider_name request.key in
    let n = suc (length pool.active) - pool.max_sessions in
    let room = make_room-drop (length pool.active) pool.active pool refl (omega arith) positive in
    finish_acquire-keys request prior now (make_room (length pool.active) pool)
      (ap (get key) room ∙ get-drop-none n key pool.active absent)
    ∙ ap (λ m. keys m ++ key ∷ []) room
    ∙ rw (keys-drop n pool.active, length-keys pool.active)

abbrev pub is_live : SessionPool → Option ℕ → Bool
is_live pool none = false
is_live pool (some ref) = not (pool.sessions ref).exited

-- The keys after an acquire: the other keys in their order, without the oldest when a session has to
-- be started and there is no room, and the acquired key last.
abbrev pub ordered : ℕ → String → List String → Bool → List String
ordered max_sessions key others true = others ++ key ∷ []
ordered max_sessions key others false = drop (suc (length others) - max_sessions) others ++ key ∷ []

abbrev HasKeys : Option SessionPool → List String → Type 0
HasKeys outcome ks = (next : SessionPool) × (outcome ≡ some next) × (keys next.active ≡ ks)

found-keys :
    (request : SessionAcquireRequest) (prior : Option String) (now : ℕ) (pool : SessionPool)
    (found : Option ℕ)
    → 1 ≤ pool.max_sessions
    → get (build_composite_key request.provider_name request.key) pool.active ≡ found
    → HasKeys
        (after_begin request prior now
          (begin_found (build_composite_key request.provider_name request.key) pool found))
        (ordered pool.max_sessions
          (build_composite_key request.provider_name request.key)
          (remove (build_composite_key request.provider_name request.key) (keys pool.active))
          (is_live pool found))
unfolding begin_found begin_cold after_begin
found-keys request prior now pool none positive h =
    let key = build_composite_key request.provider_name request.key in
    (
      _,
      refl,
      cold-keys request prior now pool positive h
          ∙ ap (λ ks. drop (suc (length ks) - pool.max_sessions) ks ++ key ∷ [])
              (sym (ap keys (delete_absent key pool.active h)) ∙ keys-delete key pool.active),
    )
found-keys request prior now pool (some ref) positive h =
    let key = build_composite_key request.provider_name request.key in
    let dropped = record pool { active = delete key pool.active } in
    elim (Bool-cases (pool.sessions ref).exited) [
      | inl e ↦ (
        (finish_acquire request prior now (make_room (length dropped.active) dropped)).1,
        ap (after_begin request prior now) (if-true (pool.sessions ref).exited _ _ e),
        cold-keys request prior now dropped positive (get-delete_same key pool.active)
            ∙ ap (λ ks. drop (suc (length ks) - pool.max_sessions) ks ++ key ∷ [])
                (keys-delete key pool.active)
            ∙ ap (ordered pool.max_sessions key (remove key (keys pool.active))) {x = false}
                (ap not (sym e)),
      )
      | inr e ↦ (
        record pool { active = set key ref (delete key pool.active) },
        ap (after_begin request prior now) (if-false (pool.sessions ref).exited _ _ e),
        keys-set_new key ref (delete key pool.active) (get-delete_same key pool.active)
            ∙ ap (λ ks. ks ++ key ∷ []) (keys-delete key pool.active)
            ∙ ap (ordered pool.max_sessions key (remove key (keys pool.active))) {x = true}
                (ap not (sym e)),
      )
    ]

-- An acquire on a pool that is not shutting down, and that nothing interrupts, succeeds; afterwards
-- its key is the last one of the order. With a live session the other keys stay as they were;
-- otherwise a stale entry is dropped and, if there is no room, the keys acquired longest ago go, and
-- no more of them than needed.
pub acquire-keys :
    (request : SessionAcquireRequest) (prior : Option String) (now : ℕ) (pool : SessionPool)
    → 1 ≤ pool.max_sessions
    → pool.shutting_down ≡ false
    → (next : SessionPool) × (acquire request prior now pool ≡ some next)
      × (keys next.active
          ≡ ordered pool.max_sessions
              (build_composite_key request.provider_name request.key)
              (remove (build_composite_key request.provider_name request.key) (keys pool.active))
              (is_live pool
                (get (build_composite_key request.provider_name request.key) pool.active)))
unfolding acquire
acquire-keys request prior now pool positive running =
    let (next, found, ks) = found-keys request prior now pool _ positive refl in
    (
      next,
      ap (after_begin request prior now) (begin_acquire-found request pool running) ∙ found,
      ks,
    )
