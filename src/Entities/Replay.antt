-- ===== src/Entities/Replay.antt =====
-- The audit log tells the whole story of the tables.
use clawndom.Common.{
  ℕ, String, Bool, false, Option, none, some, List, [], ◌∷◌, ◌++◌, any, is_some, ◌==◌, append-nil,
  append_assoc, ◌&&◌, ◌≡◌, refl, sym, ap, ◌∙◌, arith, inl, inr, Bool-cases,
}
use clawndom.Common.Dict.{Dict, set, delete}
use clawndom.Entities.Tables.{
  Properties, Entity, Relation, Diff, create, update, relate as relate_diff,
  unrelate as unrelate_diff, purge as purge_diff, AuditRecord, Database, WriteContext, get_raw,
  same_relation, insert_or_ignore, delete_relation, sever, write_audit,
}
use clawndom.Entities.Store.{
  EntityStoreOptions, UpsertInput, is_valid, find_existing, upsert, write_row, update_row,
  insert_row, new_id, relate, unrelate, purge, purge_found,
}
use clawndom.Entities.Changes.{Operation, upserting, relating, unrelating, purging, perform, run}

pub record Tables : Type 0 where
  pub entities : Dict Entity
  pub relations : List Relation

abbrev pub tables_of : Database → Tables
tables_of db = record { entities = db.entities; relations = db.relations }

-- What one audit record says was done, from the record alone.
pub redo : AuditRecord → Diff → Tables → Tables
redo r (create kind name properties) tables = record tables {
  entities =
      set r.entity_id
        (record {
          id = r.entity_id;
          kind = kind;
          name = name;
          properties = properties;
          created_at = r.ts;
          updated_at = r.ts;
        })
        tables.entities;
}
redo r (update before kind name properties) tables = record tables {
  entities =
      set r.entity_id
        (record {
          id = before.id;
          kind = kind;
          name = name;
          properties = properties;
          created_at = before.created_at;
          updated_at = r.ts;
        })
        tables.entities;
}
redo r (relate_diff relation_type to_id properties) tables = record tables {
  relations =
      insert_or_ignore
        (record {
          from_id = r.entity_id;
          relation_type = relation_type;
          to_id = to_id;
          properties = properties;
          created_at = r.ts;
        })
        tables.relations;
}
redo r (unrelate_diff relation_type to_id) tables = record tables {
  relations = delete_relation r.entity_id relation_type to_id tables.relations;
}
redo r (purge_diff reason entity outgoing incoming) tables = record {
  entities = delete r.entity_id tables.entities;
  relations = sever r.entity_id tables.relations;
}

pub replay : List AuditRecord → Tables → Tables
unfolding redo
replay [] tables = tables
replay (r ∷ records) tables = replay records (redo r r.diff tables)

-- An operation logs what it does to the tables, or does nothing to them.
data Logged (before after : Database) : Type 0 where
  silent : after.audit ≡ before.audit → tables_of after ≡ tables_of before → Logged before after
  logged :
      (r : AuditRecord)
      → after.audit ≡ before.audit ++ r ∷ []
      → tables_of after ≡ redo r r.diff (tables_of before)
      → Logged before after

update_row-Logged :
    (id : String) (input : UpsertInput) (now : ℕ) (existing : Option Entity) (db : Database)
    → Logged db (update_row id input now existing db).0
unfolding update_row write_audit redo
update_row-Logged id input now none db = silent refl refl
update_row-Logged id input now (some before) db = logged _ refl refl

insert_row-Logged :
    (id : String) (input : UpsertInput) (now : ℕ) (db : Database)
    → Logged db (insert_row id input now db).0
unfolding insert_row write_audit redo
insert_row-Logged id input now db = elim (Bool-cases (is_some (get_raw id db))) [
  | inl e ↦ rw e (silent refl refl)
  | inr e ↦ rw e (logged _ refl refl)
]

write_row-Logged :
    (options : EntityStoreOptions) (input : UpsertInput) (uuid : String) (now : ℕ)
    (existing : Option String) (db : Database)
    → Logged db (write_row options input uuid now existing db).0
unfolding write_row
write_row-Logged options input uuid now none db =
    insert_row-Logged (new_id options input uuid) input now db
write_row-Logged options input uuid now (some id) db =
    update_row-Logged id input now (get_raw id db) db

upsert-Logged :
    (options : EntityStoreOptions) (input : UpsertInput) (uuid : String) (now : ℕ) (db : Database)
    → Logged db (upsert options input uuid now db).0
unfolding upsert
upsert-Logged options input uuid now db = elim (Bool-cases (input.kind == "")) [
  | inl e ↦ rw e (silent refl refl)
  | inr e ↦ rw e (elim (Bool-cases (is_valid options input.kind input.properties)) [
    | inl v ↦ rw v (write_row-Logged options input uuid now (find_existing options input db) db)
    | inr v ↦ rw v (silent refl refl)
  ])
]

relate-Logged :
    (from_id relation_type to_id : String) (properties : Option Properties) (context : WriteContext)
    (now : ℕ) (db : Database)
    → Logged db (relate from_id relation_type to_id properties context now db).0
unfolding relate write_audit redo
relate-Logged from_id relation_type to_id properties context now db =
    elim (Bool-cases (is_some (get_raw from_id db) && is_some (get_raw to_id db))) [
      | inl e ↦ rw e (logged _ refl refl)
      | inr e ↦ rw e (silent refl refl)
    ]

delete_relation_absent :
    (from_id relation_type to_id : String) (relations : List Relation)
    → any (λ s. same_relation from_id relation_type to_id s) relations ≡ false
    → delete_relation from_id relation_type to_id relations ≡ relations
unfolding delete_relation
delete_relation_absent from_id relation_type to_id [] h = refl
delete_relation_absent from_id relation_type to_id (r ∷ relations) h =
    elim (Bool-cases (same_relation from_id relation_type to_id r)) [
      | inl e ↦ absurd (ground (arith, rw e at h))
      | inr e ↦
          rw e
            (ap (◌∷◌ r) (delete_relation_absent from_id relation_type to_id relations (rw e at h)))
    ]

unrelate-Logged :
    (from_id relation_type to_id : String) (context : WriteContext) (now : ℕ) (db : Database)
    → Logged db (unrelate from_id relation_type to_id context now db)
unfolding unrelate write_audit redo
unrelate-Logged from_id relation_type to_id context now db =
    elim (Bool-cases (any (λ s. same_relation from_id relation_type to_id s) db.relations)) [
      | inl e ↦ rw e (logged _ refl refl)
      | inr e ↦ rw e (
          silent refl (
            ap (λ rest. record (tables_of db) { relations = rest })
              (delete_relation_absent from_id relation_type to_id db.relations e)))
    ]

purge_found-Logged :
    (id reason : String) (context : WriteContext) (now : ℕ) (entity : Option Entity) (db : Database)
    → Logged db (purge_found id reason context now entity db).0
unfolding purge_found write_audit redo
purge_found-Logged id reason context now none db = silent refl refl
purge_found-Logged id reason context now (some entity) db = logged _ refl refl

module _ (options : EntityStoreOptions) (is_blank : String → Bool) where
  purge-Logged :
      (id reason : String) (context : WriteContext) (now : ℕ) (db : Database)
      → Logged db (purge is_blank id reason context now db).0
  unfolding purge
  purge-Logged id reason context now db = elim (Bool-cases (is_blank reason)) [
    | inl e ↦ rw e (silent refl refl)
    | inr e ↦ rw e (purge_found-Logged id reason context now (get_raw id db) db)
  ]

  perform-Logged :
      (operation : Operation) (db : Database) → Logged db (perform options is_blank operation db)
  unfolding perform
  perform-Logged (upserting input uuid now) db = upsert-Logged options input uuid now db
  perform-Logged (relating from_id relation_type to_id properties context now) db =
      relate-Logged from_id relation_type to_id properties context now db
  perform-Logged (unrelating from_id relation_type to_id context now) db =
      unrelate-Logged from_id relation_type to_id context now db
  perform-Logged (purging id reason context now) db = purge-Logged id reason context now db

  -- The audit log only grows, and it is complete: after any operations, failing ones among them, the
  -- log is the log before with further records, and redoing these one after the other, from what they
  -- say alone, turns the entities and relations before into those after.
  pub run-replay :
      (operations : List Operation) (db : Database)
      → (records : List AuditRecord) × ((run options is_blank operations db).audit
          ≡ db.audit ++ records)
        × (tables_of (run options is_blank operations db) ≡ replay records (tables_of db))
  unfolding run replay
  run-replay [] db = ([], sym (append-nil db.audit), refl)
  run-replay (operation ∷ operations) db =
      let (records, grown, same) = run-replay operations (perform options is_blank operation db) in
      elim (perform-Logged operation db) [
        | silent audit tables ↦
            (records, grown ∙ ap (λ a. a ++ records) audit, same ∙ ap (replay records) tables)
        | logged r audit tables ↦ (
          r ∷ records,
          grown ∙ ap (λ a. a ++ records) audit ∙ append_assoc db.audit (r ∷ []) records,
          same ∙ ap (replay records) tables,
        )
      ]
