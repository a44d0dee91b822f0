-- ===== src/Entities/NaturalKeys.antt =====
-- No two entities of a kind have the same natural key.
use clawndom.Common.{
  any, ℕ, ◌≤◌, String, Bool, true, false, Option, none, some, List, [], ◌∷◌, is_some, ◌==◌, ◌&&◌,
  ◌≡◌, refl, sym, ap, ◌∙◌, arith, eq_iff, inl, inr, Bool-cases, get_or,
}
use mathlib.Core.Path.{subst}
use clawndom.Common.Dict.{Dict, get, set}
use clawndom.Entities.Tables.{
  same_relation, Properties, Entity, Database, WriteContext, get_raw, write_audit,
}
use clawndom.Entities.Store.{
  EntityStoreOptions, UpsertInput, compute_natural_key, has_key, find_by_natural_key, is_valid,
  existing_id, find_existing, upsert, write_row, update_row, insert_row, new_id, changed,
  fresh_entity, relate, unrelate, purge, purge_found,
}
use clawndom.Entities.Changes.{Operation, upserting, relating, unrelating, purging, perform, run}
use clawndom.Entities.Sharing.{
  shares, one_if, count_sharing, HasDistinctIds, HasDistinctIds-set, HasDistinctIds-delete,
  count_sharing-set_new, count_sharing-set_found, count_sharing-delete, nothing-shares,
  found-shares,
}

module _ (options : EntityStoreOptions) where
  -- No id has two rows, and no two rows of a kind have the same natural key.
  pub record HasUniqueKeys (entities : Dict Entity) : Type 0 where
    pub distinct : HasDistinctIds options entities
    pub single : (kind key : String) → count_sharing options kind key entities ≤ 1

  has_key-some : (o : Option String) (key : String) → has_key o key ≡ true → o ≡ some key
  has_key-some none key h = absurd (cc h)
  has_key-some (some other) key h = ap (λ k. some k) ((eq_iff other key).0 h)

  missing_row : (o : Option Entity) → is_some o ≡ false → o ≡ none
  missing_row none h = refl
  missing_row (some e) h = absurd (cc h)

  no_match :
      (kind key : String) (o : Option String) (db : Database)
      → o ≡ some key
      → existing_id options kind none o db ≡ none
      → find_by_natural_key options kind key db.entities ≡ none
  unfolding existing_id
  no_match kind key none db e h = absurd (cc e)
  no_match kind key (some other) db e h =
      ap (λ o. find_by_natural_key options kind (get_or o key) db.entities) (sym e) ∙ h

  match_of :
      (kind id : String) (o : Option String) (db : Database)
      → existing_id options kind none o db ≡ some id
      → (key : String) × (o ≡ some key)
        × (find_by_natural_key options kind key db.entities ≡ some id)
  unfolding existing_id
  match_of kind id none db h = absurd (cc h)
  match_of kind id (some key) db h = (key, refl, h)

  -- The natural key of an input is the only one that its entity shares.
  shares-own :
      (kind key : String) (e : Entity)
      → shares options kind key e ≡ true
      → (e.kind ≡ kind) × (compute_natural_key options kind e.properties ≡ some key)
  unfolding shares
  shares-own kind key e h = (
    (eq_iff e.kind kind).0 (ground (arith, h)),
    has_key-some (compute_natural_key options kind e.properties) key (ground (arith, h)),
  )

  new_row-single :
      (kind key id : String) (input : UpsertInput) (now : ℕ) (db : Database)
      → existing_id options input.kind none
          (compute_natural_key options input.kind input.properties)
          db
        ≡ none
      → get id db.entities ≡ none
      → count_sharing options kind key db.entities ≤ 1
      → count_sharing options kind key (set id (fresh_entity id input now) db.entities) ≤ 1
  unfolding one_if
  new_row-single kind key id input now db missing absent single =
      let grown =
        count_sharing-set_new options kind key id (fresh_entity id input now) db.entities absent in
      elim (Bool-cases (shares options kind key (fresh_entity id input now))) [
        | inl s ↦
            let (same_kind, same_key) = shares-own kind key (fresh_entity id input now) s in
            let nobody = nothing-shares options kind key db.entities (
              no_match kind key _ db same_key (
                subst
                  (λ k.
                    existing_id options k none (compute_natural_key options k input.properties) db
                    ≡ none)
                  same_kind missing)) in
            ground (arith, grown, s, nobody)
        | inr s ↦ ground (arith, grown, s, single)
      ]

  insert_row-HasUniqueKeys :
      (id : String) (input : UpsertInput) (now : ℕ) (db : Database)
      → existing_id options input.kind none
          (compute_natural_key options input.kind input.properties)
          db
        ≡ none
      → HasUniqueKeys db.entities
      → HasUniqueKeys (insert_row id input now db).0.entities
  unfolding insert_row write_audit get_raw
  insert_row-HasUniqueKeys id input now db missing unique =
      elim (Bool-cases (is_some (get id db.entities))) [
        | inl e ↦ rw e unique
        | inr e ↦ rw e (record {
          distinct =
              HasDistinctIds-set options id (fresh_entity id input now) db.entities unique.distinct;
          single = λ kind key.
              new_row-single kind key id input now db missing (missing_row (get id db.entities) e)
                (unique.single kind key);
        })
      ]

  changed_row-single :
      (kind key id : String) (input : UpsertInput) (now : ℕ) (before : Entity) (db : Database)
      → HasUniqueKeys db.entities
      → existing_id options input.kind none
          (compute_natural_key options input.kind input.properties)
          db
        ≡ some id
      → get id db.entities ≡ some before
      → count_sharing options kind key (set id (changed before input now) db.entities) ≤ 1
  unfolding one_if
  changed_row-single kind key id input now before db unique found there =
      let after = changed before input now in
      let grown = count_sharing-set_found options kind key id after before db.entities there in
      elim (Bool-cases (shares options kind key after)) [
        | inl s ↦
            let (same_kind, same_key) = shares-own kind key after s in
            let (own, own_key, found_own) = match_of input.kind id _ db found in
            let (old, old_there, old_shares) =
              found-shares options input.kind own id db.entities unique.distinct found_own in
            let shared : shares options kind key before ≡ true =
              cc (old_shares, same_kind, own_key, same_key, old_there, there) in
            ground (arith, grown, s, shared, unique.single kind key)
        | inr s ↦ ground (arith, grown, s, unique.single kind key)
      ]

  update_row-HasUniqueKeys :
      (id : String) (input : UpsertInput) (now : ℕ) (existing : Option Entity) (db : Database)
      → existing_id options input.kind none
          (compute_natural_key options input.kind input.properties)
          db
        ≡ some id
      → get id db.entities ≡ existing
      → HasUniqueKeys db.entities
      → HasUniqueKeys (update_row id input now existing db).0.entities
  unfolding update_row write_audit
  update_row-HasUniqueKeys id input now none db found there unique = unique
  update_row-HasUniqueKeys id input now (some before) db found there unique = record {
    distinct = HasDistinctIds-set options id (changed before input now) db.entities unique.distinct;
    single = λ kind key. changed_row-single kind key id input now before db unique found there;
  }

  write_row-HasUniqueKeys :
      (input : UpsertInput) (uuid : String) (now : ℕ) (existing : Option String) (db : Database)
      → existing_id options input.kind none
          (compute_natural_key options input.kind input.properties)
          db
        ≡ existing
      → HasUniqueKeys db.entities
      → HasUniqueKeys (write_row options input uuid now existing db).0.entities
  unfolding write_row get_raw
  write_row-HasUniqueKeys input uuid now none db found unique =
      insert_row-HasUniqueKeys (new_id options input uuid) input now db found unique
  write_row-HasUniqueKeys input uuid now (some id) db found unique =
      update_row-HasUniqueKeys id input now (get id db.entities) db found refl unique

  upsert-HasUniqueKeys :
      (input : UpsertInput) (uuid : String) (now : ℕ) (db : Database)
      → input.id ≡ none
      → HasUniqueKeys db.entities
      → HasUniqueKeys (upsert options input uuid now db).0.entities
  unfolding upsert find_existing
  upsert-HasUniqueKeys input uuid now db unnamed unique = elim (Bool-cases (input.kind == "")) [
    | inl e ↦ rw e unique
    | inr e ↦ rw e (elim (Bool-cases (is_valid options input.kind input.properties)) [
      | inl v ↦ rw v (
          write_row-HasUniqueKeys input uuid now (find_existing options input db) db
            (ap
              (λ i.
                existing_id options input.kind i
                  (compute_natural_key options input.kind input.properties) db)
              (sym unnamed))
            unique)
      | inr v ↦ rw v unique
    ])
  ]

  purge_found-HasUniqueKeys :
      (id reason : String) (context : WriteContext) (now : ℕ) (entity : Option Entity)
      (db : Database)
      → HasUniqueKeys db.entities
      → HasUniqueKeys (purge_found id reason context now entity db).0.entities
  unfolding purge_found write_audit
  purge_found-HasUniqueKeys id reason context now none db unique = unique
  purge_found-HasUniqueKeys id reason context now (some entity) db unique = record {
    distinct = HasDistinctIds-delete options id db.entities unique.distinct;
    single = λ kind key.
        omega (arith, count_sharing-delete options kind key id db.entities, unique.single kind key);
  }

  purge-HasUniqueKeys :
      (is_blank : String → Bool) (id reason : String) (context : WriteContext) (now : ℕ)
      (db : Database)
      → HasUniqueKeys db.entities
      → HasUniqueKeys (purge is_blank id reason context now db).0.entities
  unfolding purge
  purge-HasUniqueKeys is_blank id reason context now db unique =
      elim (Bool-cases (is_blank reason)) [
        | inl e ↦ rw e unique
        | inr e ↦ rw e (purge_found-HasUniqueKeys id reason context now (get_raw id db) db unique)
      ]

  relate-entities :
      (from_id relation_type to_id : String) (properties : Option Properties)
      (context : WriteContext) (now : ℕ) (db : Database)
      → (relate from_id relation_type to_id properties context now db).0.entities ≡ db.entities
  unfolding relate write_audit
  relate-entities from_id relation_type to_id properties context now db =
      elim (Bool-cases (is_some (get_raw from_id db) && is_some (get_raw to_id db))) [
        | inl e ↦ rw e refl
        | inr e ↦ rw e refl
      ]

  unrelate-entities :
      (from_id relation_type to_id : String) (context : WriteContext) (now : ℕ) (db : Database)
      → (unrelate from_id relation_type to_id context now db).entities ≡ db.entities
  unfolding unrelate write_audit
  unrelate-entities from_id relation_type to_id context now db =
      elim (Bool-cases (any (λ s. same_relation from_id relation_type to_id s) db.relations)) [
        | inl e ↦ rw e refl
        | inr e ↦ rw e refl
      ]

  module _ (is_blank : String → Bool) where
    -- Every upsert leaves the id to the store.
    abbrev pub Unnamed : List Operation → Type 0
    Unnamed [] = Unit
    Unnamed (upserting input uuid now ∷ operations) = (input.id ≡ none) × Unnamed operations
    Unnamed (relating f t i properties context now ∷ operations) = Unnamed operations
    Unnamed (unrelating f t i context now ∷ operations) = Unnamed operations
    Unnamed (purging id reason context now ∷ operations) = Unnamed operations

    -- Whatever operations run, as long as no upsert supplies an id: no two entities of a kind have
    -- the same natural key, and no id has two rows, if it was so before.
    pub run-HasUniqueKeys :
        (operations : List Operation) (db : Database)
        → Unnamed operations
        → HasUniqueKeys db.entities
        → HasUniqueKeys (run options is_blank operations db).entities
    unfolding run perform
    run-HasUniqueKeys [] db unnamed unique = unique
    run-HasUniqueKeys (upserting input uuid now ∷ operations) db unnamed unique =
        run-HasUniqueKeys operations (upsert options input uuid now db).0 unnamed.1
          (upsert-HasUniqueKeys input uuid now db unnamed.0 unique)
    run-HasUniqueKeys (relating f t i properties context now ∷ operations) db unnamed unique =
        run-HasUniqueKeys operations (relate f t i properties context now db).0 unnamed
          (subst HasUniqueKeys (sym (relate-entities f t i properties context now db)) unique)
    run-HasUniqueKeys (unrelating f t i context now ∷ operations) db unnamed unique =
        run-HasUniqueKeys operations (unrelate f t i context now db) unnamed
          (subst HasUniqueKeys (sym (unrelate-entities f t i context now db)) unique)
    run-HasUniqueKeys (purging id reason context now ∷ operations) db unnamed unique =
        run-HasUniqueKeys operations (purge is_blank id reason context now db).0 unnamed
          (purge-HasUniqueKeys is_blank id reason context now db unique)
