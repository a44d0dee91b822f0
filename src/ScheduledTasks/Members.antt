-- ===== src/ScheduledTasks/Members.antt =====
-- What the transactions of the store do to the membership in its sets, as one equation each.
use clawndom.Common.{
  String, Bool, true, false, not, ◌&&◌, ◌||◌, Option, none, some, List, [], ◌∷◌, ◌++◌, ◌==◌,
  if◌then◌else◌, filter, ◌≡◌, refl, ◌∙◌, arith, eq_iff, eq_refl, inl, inr, Bool-cases,
}
use clawndom.ScheduledTasks.Task.{ScheduledTask, ScheduledTaskCreatedBy, Codec, truthy}
use clawndom.ScheduledTasks.Store.{
  IndexKey, all_ids, by_created_by, by_agent, by_trace, same_creator, same_key, Sets, contains,
  sadd, srem, Store, sadd_trace, srem_trace, persist, remove_from_redis,
}

pub contains-append :
    (id : String) (xs ys : List String) → contains id (xs ++ ys) ≡ contains id xs || contains id ys
unfolding contains
contains-append id [] ys = refl
contains-append id (x ∷ xs) ys = ground (arith, contains-append id xs ys)

pub contains-filter :
    (p : String → Bool) (id : String) (xs : List String)
    → contains id (filter p xs) ≡ contains id xs && p id
unfolding contains
contains-filter p id [] = refl
contains-filter p id (x ∷ xs) = elim (Bool-cases (x == id)) [
  | inl e ↦ rw ((eq_iff x id).0 e) (elim (Bool-cases (p id)) [
    | inl h ↦ ground (arith, eq_refl id, contains-filter p id xs)
    | inr h ↦ ground (arith, eq_refl id, contains-filter p id xs)
  ])
  | inr e ↦ elim (Bool-cases (p x)) [
    | inl h ↦ ground (arith, contains-filter p id xs)
    | inr h ↦ ground (arith, contains-filter p id xs)
  ]
]

contains-one : (x id : String) → contains id (x ∷ []) ≡ (x == id)
unfolding contains
contains-one x id = ground arith

contains-add :
    (x : String) (xs : List String) (id : String)
    → contains id (if contains x xs then xs else xs ++ x ∷ []) ≡ (x == id) || contains id xs
contains-add x xs id = elim (Bool-cases (contains x xs)) [
  | inl h ↦ ground (arith, eq_iff x id, h)
  | inr h ↦ ground (arith, h, contains-append id xs (x ∷ []), contains-one x id)
]

if-key :
    (b : Bool) (xs ys : List String) (id : String)
    → contains id (if b then xs else ys) ≡ (if b then contains id xs else contains id ys)
if-key true xs ys id = refl
if-key false xs ys id = refl

contains-sadd :
    (key : IndexKey) (x : String) (sets : Sets) (k : IndexKey) (id : String)
    → contains id (sadd key x sets k) ≡ (same_key key k && x == id) || contains id (sets k)
unfolding sadd
contains-sadd key x sets k id =
    if-key (same_key key k) _ (sets k) id ∙ ground (arith, contains-add x (sets k) id)

contains-srem :
    (key : IndexKey) (x : String) (sets : Sets) (k : IndexKey) (id : String)
    → contains id (srem key x sets k) ≡ contains id (sets k) && not (same_key key k && x == id)
unfolding srem
contains-srem key x sets k id =
    if-key (same_key key k) _ (sets k) id
    ∙ ground (arith, contains-filter (λ y. not (y == x)) id (sets k), eq_iff x id, eq_iff id x)

-- Whether the set of a key is one that a task is listed in.
unfoldable pub traced : Option String → String → Bool
traced none trace = false
traced (some text) trace = truthy text && text == trace

unfoldable pub belongs : IndexKey → ScheduledTask → Bool
unfolding traced same_creator
belongs all_ids task = true
belongs (by_created_by c) task = same_creator task.created_by c
belongs (by_agent a) task = task.agent_id == a
belongs (by_trace trace) task = traced task.created_by_trace_id trace

on_trace : Option String → IndexKey → Bool
unfolding truthy
on_trace none k = false
on_trace (some trace) k = truthy trace && same_key (by_trace trace) k

contains-sadd_trace :
    (trace : Option String) (x : String) (sets : Sets) (k : IndexKey) (id : String)
    → contains id (sadd_trace trace x sets k)
      ≡ (on_trace trace k && x == id) || contains id (sets k)
unfolding sadd_trace on_trace
contains-sadd_trace none x sets k id = refl
contains-sadd_trace (some trace) x sets k id = elim (Bool-cases (truthy trace)) [
  | inl e ↦ rw e (contains-sadd (by_trace trace) x sets k id)
  | inr e ↦ rw e refl
]

contains-srem_trace :
    (trace : Option String) (x : String) (sets : Sets) (k : IndexKey) (id : String)
    → contains id (srem_trace trace x sets k)
      ≡ contains id (sets k) && not (on_trace trace k && x == id)
unfolding srem_trace on_trace
contains-srem_trace none x sets k id = ground arith
contains-srem_trace (some trace) x sets k id = elim (Bool-cases (truthy trace)) [
  | inl e ↦ rw e (contains-srem (by_trace trace) x sets k id)
  | inr e ↦ rw e (ground arith)
]

on_trace-all_ids : (trace : Option String) → on_trace trace all_ids ≡ false
unfolding on_trace same_key
on_trace-all_ids none = refl
on_trace-all_ids (some text) = ground arith

on_trace-by_created_by :
    (trace : Option String) (c : ScheduledTaskCreatedBy) → on_trace trace (by_created_by c) ≡ false
unfolding on_trace same_key
on_trace-by_created_by none c = refl
on_trace-by_created_by (some text) c = ground arith

on_trace-by_agent : (trace : Option String) (a : String) → on_trace trace (by_agent a) ≡ false
unfolding on_trace same_key
on_trace-by_agent none a = refl
on_trace-by_agent (some text) a = ground arith

on_trace-by_trace :
    (trace : Option String) (a : String) → on_trace trace (by_trace a) ≡ traced trace a
unfolding on_trace same_key traced
on_trace-by_trace none a = refl
on_trace-by_trace (some text) a = refl

-- The keys that a task is listed under, as the transactions go through them.
belongs-eq :
    (task : ScheduledTask) (k : IndexKey)
    → belongs k task
      ≡ on_trace task.created_by_trace_id k
        || same_key (by_agent task.agent_id) k
        || same_key (by_created_by task.created_by) k
        || same_key all_ids k
unfolding belongs same_key
belongs-eq task all_ids = ground (arith, on_trace-all_ids task.created_by_trace_id)
belongs-eq task (by_created_by c) =
    ground (arith, on_trace-by_created_by task.created_by_trace_id c)
belongs-eq task (by_agent a) = ground (arith, on_trace-by_agent task.created_by_trace_id a)
belongs-eq task (by_trace a) = ground (arith, on_trace-by_trace task.created_by_trace_id a)

pub contains-persist :
    (codec : Codec) (task : ScheduledTask) (store : Store) (k : IndexKey) (id : String)
    → contains id ((persist codec task store).sets k)
      ≡ (belongs k task && task.id == id) || contains id (store.sets k)
unfolding persist
contains-persist codec task store k id =
    let shared = sadd all_ids task.id store.sets in
    let created = sadd (by_created_by task.created_by) task.id shared in
    let owned = sadd (by_agent task.agent_id) task.id created in
    contains-sadd_trace task.created_by_trace_id task.id owned k id
    ∙ ground (
      arith,
      contains-sadd (by_agent task.agent_id) task.id created k id,
      contains-sadd (by_created_by task.created_by) task.id shared k id,
      contains-sadd all_ids task.id store.sets k id,
      belongs-eq task k,
    )

pub contains-remove :
    (task : ScheduledTask) (store : Store) (k : IndexKey) (id : String)
    → contains id ((remove_from_redis task store).sets k)
      ≡ contains id (store.sets k) && not (belongs k task && task.id == id)
unfolding remove_from_redis
contains-remove task store k id =
    let shared = srem all_ids task.id store.sets in
    let created = srem (by_created_by task.created_by) task.id shared in
    let owned = srem (by_agent task.agent_id) task.id created in
    contains-srem_trace task.created_by_trace_id task.id owned k id
    ∙ ground (
      arith,
      contains-srem (by_agent task.agent_id) task.id created k id,
      contains-srem (by_created_by task.created_by) task.id shared k id,
      contains-srem all_ids task.id store.sets k id,
      belongs-eq task k,
    )
