-- ===== src/ScheduledTasks/Lookups.antt =====
-- What the transactions of the store do to its records and scores, as one equation each.
use clawndom.Common.{
  ℕ, String, true, Option, none, some, [], ◌∷◌, ◌==◌, if◌then◌else◌, ◌≡◌, refl, ◌∙◌, arith, eq_iff,
  eq_refl, inl, inr, Bool-cases,
}
use clawndom.Common.Dict.{get-set, get-delete}
use clawndom.ScheduledTasks.Task.{ScheduledTask, Codec, is_valid, schema_parse, read_task}
use clawndom.ScheduledTasks.Store.{
  SortedSet, goes_before, insert, zrem, zadd, Store, get_by_id, set_next_fire, persist,
  remove_from_redis,
}

-- `ZSCORE`.
unfoldable pub score_of : String → SortedSet → Option ℕ
score_of id [] = none
score_of id ((s, x) ∷ rest) = if x == id then some s else score_of id rest

score_of-zrem :
    (x id : String) (scores : SortedSet)
    → score_of id (zrem x scores) ≡ (if x == id then none else score_of id scores)
unfolding score_of zrem
score_of-zrem x id [] = ground arith
score_of-zrem x id ((s, y) ∷ rest) =
    ground (arith, eq_iff x id, eq_iff y x, eq_iff y id, score_of-zrem x id rest)

score_of-insert :
    (time : ℕ) (x id : String) (scores : SortedSet)
    → score_of x scores ≡ none
    → score_of id (insert time x scores) ≡ (if x == id then some time else score_of id scores)
unfolding score_of insert
score_of-insert time x id [] h = refl
score_of-insert time x id ((s, y) ∷ rest) h = elim (Bool-cases (goes_before time x s y)) [
  | inl e ↦ rw e refl
  | inr e ↦
      rw e ground
        (arith, eq_iff x id, eq_iff y x, eq_iff y id, eq_refl x, score_of-insert time x id rest)
]

pub score_of-set_next_fire :
    (time : Option ℕ) (x id : String) (scores : SortedSet)
    → score_of id (set_next_fire time x scores) ≡ (if x == id then time else score_of id scores)
unfolding set_next_fire zadd
score_of-set_next_fire none x id scores = score_of-zrem x id scores
score_of-set_next_fire (some time) x id scores =
    score_of-insert time x id (zrem x scores) (score_of-zrem x x scores ∙ ground (arith, eq_refl x))
    ∙ ground (arith, score_of-zrem x id scores)

pub get_by_id-persist :
    (codec : Codec) (task : ScheduledTask) (store : Store) (id : String)
    → is_valid codec task ≡ true
    → get_by_id codec id (persist codec task store)
      ≡ (if task.id == id then some task else get_by_id codec id store)
unfolding get_by_id persist read_task schema_parse
get_by_id-persist codec task store id valid = elim (Bool-cases (task.id == id)) [
  | inl e ↦
      rw (get-set task.id id (codec.stringify task) store.records, e)
        (rw (codec.parse-stringify task) (rw valid refl))
  | inr e ↦ rw (get-set task.id id (codec.stringify task) store.records, e)
]

pub get_by_id-remove :
    (codec : Codec) (task : ScheduledTask) (store : Store) (id : String)
    → get_by_id codec id (remove_from_redis task store)
      ≡ (if task.id == id then none else get_by_id codec id store)
unfolding get_by_id remove_from_redis
get_by_id-remove codec task store id = elim (Bool-cases (task.id == id)) [
  | inl e ↦ rw (get-delete task.id id store.records, e)
  | inr e ↦ rw (get-delete task.id id store.records, e)
]

pub score_of-persist :
    (codec : Codec) (task : ScheduledTask) (store : Store) (id : String)
    → score_of id (persist codec task store).by_next_fire
      ≡ (if task.id == id then task.next_fire_at else score_of id store.by_next_fire)
unfolding persist
score_of-persist codec task store id =
    score_of-set_next_fire task.next_fire_at task.id id store.by_next_fire

pub score_of-remove :
    (task : ScheduledTask) (store : Store) (id : String)
    → score_of id (remove_from_redis task store).by_next_fire
      ≡ (if task.id == id then none else score_of id store.by_next_fire)
unfolding remove_from_redis
score_of-remove task store id = score_of-zrem task.id id store.by_next_fire
