-- ===== src/Entities/Integrity.antt =====
-- No relation has an end that is missing.
use clawndom.Common.{
  all-append, ℕ, String, Bool, true, not, Option, none, some, List, [], ◌∷◌, any, all, filter,
  is_some, ◌==◌, ◌&&◌, ◌≡◌, refl, ◌∙◌, arith, eq_iff, inl, inr, Bool-cases,
}
use clawndom.Common.Dict.{Dict, get, set, delete, get-set, get-delete}
use clawndom.Entities.Tables.{
  Properties, Entity, Relation, Database, WriteContext, get_raw, same_relation, insert_or_ignore,
  delete_relation, sever, write_audit,
}
use clawndom.Entities.Store.{
  EntityStoreOptions, UpsertInput, is_valid, find_existing, upsert, write_row, update_row,
  insert_row, new_id, relate, unrelate, purge, purge_found,
}
use clawndom.Entities.Changes.{Operation, upserting, relating, unrelating, purging, perform, run}

all-weaken {ℓ} :
    {A : Type ℓ} (p q : A → Bool) (xs : List A)
    → ((x : A) → p x ≡ true → q x ≡ true)
    → all p xs ≡ true
    → all q xs ≡ true
all-weaken p q [] h a = refl
all-weaken p q (x ∷ xs) h a = ground (arith, h x, all-weaken p q xs h, a)

all-filter {ℓ} :
    {A : Type ℓ} (keep p q : A → Bool) (xs : List A)
    → ((x : A) → keep x ≡ true → p x ≡ true → q x ≡ true)
    → all p xs ≡ true
    → all q (filter keep xs) ≡ true
all-filter keep p q [] h a = refl
all-filter keep p q (x ∷ xs) h a = ground (arith, h x, all-filter keep p q xs h, a)

unfoldable pub is_anchored : Dict Entity → Relation → Bool
is_anchored entities r = is_some (get r.from_id entities) && is_some (get r.to_id entities)

-- Both ends of each relation are entities.
unfoldable pub is_referential : Database → Bool
unfolding is_anchored
is_referential db = all (λ r. is_anchored db.entities r) db.relations

is_some-set :
    (k j : String) (v : Entity) (m : Dict Entity)
    → is_some (get j m) ≡ true
    → is_some (get j (set k v m)) ≡ true
is_some-set k j v m h = ground (arith, get-set k j v m, h)

set-anchored :
    (id : String) (entity : Entity) (entities : Dict Entity) (relations : List Relation)
    → all (λ r. is_anchored entities r) relations ≡ true
    → all (λ r. is_anchored (set id entity entities) r) relations ≡ true
unfolding is_anchored
set-anchored id entity entities relations h =
    all-weaken (λ r. is_anchored entities r) (λ r. is_anchored (set id entity entities) r) relations
      (λ r a. ground (
        arith,
        a,
        is_some-set id r.from_id entity entities,
        is_some-set id r.to_id entity entities,
      ))
      h

insert-anchored :
    (entities : Dict Entity) (r : Relation) (relations : List Relation)
    → is_anchored entities r ≡ true
    → all (λ s. is_anchored entities s) relations ≡ true
    → all (λ s. is_anchored entities s) (insert_or_ignore r relations) ≡ true
unfolding insert_or_ignore
insert-anchored entities r relations a h =
    elim (Bool-cases (any (λ s. same_relation r.from_id r.relation_type r.to_id s) relations)) [
      | inl e ↦ rw e h
      | inr e ↦
          rw e (all-append (λ s. is_anchored entities s) relations (r ∷ []) ∙ ground (arith, a, h))
    ]

sever-anchored :
    (id : String) (entities : Dict Entity) (relations : List Relation)
    → all (λ r. is_anchored entities r) relations ≡ true
    → all (λ r. is_anchored (delete id entities) r) (sever id relations) ≡ true
unfolding sever is_anchored
sever-anchored id entities relations h =
    all-filter (λ r. not (r.to_id == id)) (λ r. is_anchored entities r && not (r.from_id == id))
      (λ r. is_anchored (delete id entities) r) (filter (λ r. not (r.from_id == id)) relations)
      (λ r keep a. ground (
        arith,
        keep,
        a,
        eq_iff id r.from_id,
        eq_iff r.from_id id,
        eq_iff id r.to_id,
        eq_iff r.to_id id,
        get-delete id r.from_id entities,
        get-delete id r.to_id entities,
      ))
      (all-filter (λ r. not (r.from_id == id)) (λ r. is_anchored entities r)
        (λ r. is_anchored entities r && not (r.from_id == id)) relations
        (λ r keep a. ground (arith, keep, a)) h)

update_row-is_referential :
    (id : String) (input : UpsertInput) (now : ℕ) (existing : Option Entity) (db : Database)
    → is_referential db ≡ true
    → is_referential (update_row id input now existing db).0 ≡ true
unfolding update_row write_audit is_referential
update_row-is_referential id input now none db h = h
update_row-is_referential id input now (some before) db h =
    set-anchored id _ db.entities db.relations h

insert_row-is_referential :
    (id : String) (input : UpsertInput) (now : ℕ) (db : Database)
    → is_referential db ≡ true
    → is_referential (insert_row id input now db).0 ≡ true
unfolding insert_row write_audit is_referential
insert_row-is_referential id input now db h = elim (Bool-cases (is_some (get_raw id db))) [
  | inl e ↦ rw e h
  | inr e ↦ rw e (set-anchored id _ db.entities db.relations h)
]

write_row-is_referential :
    (options : EntityStoreOptions) (input : UpsertInput) (uuid : String) (now : ℕ)
    (existing : Option String) (db : Database)
    → is_referential db ≡ true
    → is_referential (write_row options input uuid now existing db).0 ≡ true
unfolding write_row
write_row-is_referential options input uuid now none db h =
    insert_row-is_referential (new_id options input uuid) input now db h
write_row-is_referential options input uuid now (some id) db h =
    update_row-is_referential id input now (get_raw id db) db h

upsert-is_referential :
    (options : EntityStoreOptions) (input : UpsertInput) (uuid : String) (now : ℕ) (db : Database)
    → is_referential db ≡ true
    → is_referential (upsert options input uuid now db).0 ≡ true
unfolding upsert
upsert-is_referential options input uuid now db h = elim (Bool-cases (input.kind == "")) [
  | inl e ↦ rw e h
  | inr e ↦ rw e (elim (Bool-cases (is_valid options input.kind input.properties)) [
    | inl v ↦
        rw v (write_row-is_referential options input uuid now (find_existing options input db) db h)
    | inr v ↦ rw v h
  ])
]

relate-is_referential :
    (from_id relation_type to_id : String) (properties : Option Properties) (context : WriteContext)
    (now : ℕ) (db : Database)
    → is_referential db ≡ true
    → is_referential (relate from_id relation_type to_id properties context now db).0 ≡ true
unfolding relate write_audit is_referential get_raw is_anchored
relate-is_referential from_id relation_type to_id properties context now db h =
    elim (Bool-cases (is_some (get_raw from_id db) && is_some (get_raw to_id db))) [
      | inl e ↦ rw e (insert-anchored db.entities _ db.relations e h)
      | inr e ↦ rw e h
    ]

unrelate-is_referential :
    (from_id relation_type to_id : String) (context : WriteContext) (now : ℕ) (db : Database)
    → is_referential db ≡ true
    → is_referential (unrelate from_id relation_type to_id context now db) ≡ true
unfolding unrelate write_audit is_referential delete_relation
unrelate-is_referential from_id relation_type to_id context now db h =
    let kept =
      all-filter (λ s. not (same_relation from_id relation_type to_id s))
        (λ r. is_anchored db.entities r) (λ r. is_anchored db.entities r) db.relations
        (λ r keep a. a) h in
    elim (Bool-cases (any (λ s. same_relation from_id relation_type to_id s) db.relations)) [
      | inl e ↦ rw e kept
      | inr e ↦ rw e kept
    ]

purge_found-is_referential :
    (id reason : String) (context : WriteContext) (now : ℕ) (entity : Option Entity) (db : Database)
    → is_referential db ≡ true
    → is_referential (purge_found id reason context now entity db).0 ≡ true
unfolding purge_found write_audit is_referential
purge_found-is_referential id reason context now none db h = h
purge_found-is_referential id reason context now (some entity) db h =
    sever-anchored id db.entities db.relations h

module _ (options : EntityStoreOptions) (is_blank : String → Bool) where
  purge-is_referential :
      (id reason : String) (context : WriteContext) (now : ℕ) (db : Database)
      → is_referential db ≡ true
      → is_referential (purge is_blank id reason context now db).0 ≡ true
  unfolding purge
  purge-is_referential id reason context now db h = elim (Bool-cases (is_blank reason)) [
    | inl e ↦ rw e h
    | inr e ↦ rw e (purge_found-is_referential id reason context now (get_raw id db) db h)
  ]

  perform-is_referential :
      (operation : Operation) (db : Database)
      → is_referential db ≡ true
      → is_referential (perform options is_blank operation db) ≡ true
  unfolding perform
  perform-is_referential (upserting input uuid now) db h =
      upsert-is_referential options input uuid now db h
  perform-is_referential (relating from_id relation_type to_id properties context now) db h =
      relate-is_referential from_id relation_type to_id properties context now db h
  perform-is_referential (unrelating from_id relation_type to_id context now) db h =
      unrelate-is_referential from_id relation_type to_id context now db h
  perform-is_referential (purging id reason context now) db h =
      purge-is_referential id reason context now db h

  -- Whatever operations run, failing ones among them, the two ends of every relation are entities of
  -- the store, if they were so before.
  pub run-is_referential :
      (operations : List Operation) (db : Database)
      → is_referential db ≡ true
      → is_referential (run options is_blank operations db) ≡ true
  unfolding run
  run-is_referential [] db h = h
  run-is_referential (operation ∷ operations) db h =
      run-is_referential operations (perform options is_blank operation db)
        (perform-is_referential operation db h)
