-- ===== src/Entities/Store.antt =====
-- services/entities/entity-store.service.ts: the operations of the store. The validator, the
-- normalization of natural keys, `String(value)` and the random ids are parameters.
use clawndom.Common.{
  ◌⧺◌, ◌>>=◌, ℕ, String, Bool, true, false, ◌&&◌, Option, none, some, List, [], ◌∷◌, ◌==◌,
  if◌then◌else◌, any, is_some,
}
use clawndom.Common.Result.{Result, ok, err}
use clawndom.Common.Dict.{Dict, get, set, delete}
use clawndom.Routing.Json.{Json, null}
use clawndom.Entities.Tables.{
  Properties, Entity, Relation, create, update, relate as relate_diff, unrelate as unrelate_diff,
  purge as purge_diff, Database, WriteContext, get_raw, same_relation, insert_or_ignore,
  delete_relation, outgoing_of, incoming_of, sever, write_audit,
}

-- `normalize`: `none` is no function, and `String(value)` is used.
pub record NaturalKeySpecification : Type 0 where
  pub fields : List String
  pub normalize : Option (Json → Option String)

pub record EntityStoreOptions : Type 0 where
  pub natural_keys : Dict NaturalKeySpecification
  pub id_prefixes : Dict String
  pub validator : Option (String → Properties → Bool)
  pub to_text : Json → String

-- `constraint_failed` is the error of the database itself, when an id is taken.
pub data EntityStoreError : Type 0 where
  kind_required entity_not_found relation_target_missing purge_reason_required
        schema_validation_failed constraint_failed :
      EntityStoreError

abbrev default_id_prefixes : Dict String
default_id_prefixes =
    ("client", "c_") ∷ ("contact", "p_") ∷ ("memory", "m_") ∷ ("interaction", "i_") ∷ []

unfoldable pub is_valid : EntityStoreOptions → String → Properties → Bool
is_valid options kind properties = elim options.validator [
  | none ↦ true
  | some validate ↦ validate kind properties
]

abbrev pub normalized : EntityStoreOptions → Option (Json → Option String) → Json → Option String
normalized options none null = none
normalized options (some normalize) null = none
normalized options none value = some (options.to_text value)
normalized options (some normalize) value = normalize value

unfoldable pub key_parts :
    EntityStoreOptions → NaturalKeySpecification → List String → Properties → Option (List String)
key_parts options specification [] properties = some []
key_parts options specification (field ∷ fields) properties = do
  value ← get field properties
  part ← normalized options specification.normalize value
  parts ← key_parts options specification fields properties
  some (part ∷ parts)

-- `parts.join('|')`.
unfoldable pub join_parts : List String → String
join_parts [] = ""
join_parts (part ∷ []) = part
join_parts (part ∷ next ∷ parts) = part ⧺ "|" ⧺ join_parts (next ∷ parts)

unfoldable pub compute_natural_key : EntityStoreOptions → String → Properties → Option String
unfolding key_parts join_parts
compute_natural_key options kind properties = do
  specification ← get kind options.natural_keys
  parts ← key_parts options specification specification.fields properties
  some (join_parts parts)

abbrev pub has_key : Option String → String → Bool
has_key none key = false
has_key (some other) key = other == key

-- The first entity of the kind with the natural key.
unfoldable pub find_by_natural_key :
    EntityStoreOptions → String → String → Dict Entity → Option String
unfolding compute_natural_key
find_by_natural_key options kind key [] = none
find_by_natural_key options kind key ((id, entity) ∷ rows) =
    let later = find_by_natural_key options kind key rows in
    if entity.kind == kind && has_key (compute_natural_key options kind entity.properties) key
    then some id
    else later

unfoldable pub generate_id : EntityStoreOptions → String → String → String
generate_id options kind uuid = elim (get kind options.id_prefixes) [
  | some prefix ↦ prefix ⧺ uuid
  | none ↦ elim (get kind default_id_prefixes) [ some prefix ↦ prefix ⧺ uuid | none ↦ uuid ]
]

pub record UpsertInput : Type 0 where
  pub kind : String
  pub name : String
  pub properties : Properties
  pub id : Option String
  pub context : WriteContext

-- The id that an upsert updates: the supplied one, or the one that the natural key finds.
unfoldable pub existing_id :
    EntityStoreOptions → String → Option String → Option String → Database → Option String
unfolding get_raw find_by_natural_key
existing_id options kind (some supplied) key db =
    if is_some (get_raw supplied db) then some supplied else none
existing_id options kind none (some key) db = find_by_natural_key options kind key db.entities
existing_id options kind none none db = none

unfoldable pub find_existing : EntityStoreOptions → UpsertInput → Database → Option String
unfolding existing_id compute_natural_key
find_existing options input db =
    existing_id options input.kind input.id
      (compute_natural_key options input.kind input.properties) db

abbrev pub Outcome : Type 0
Outcome = Database × Result EntityStoreError Entity

abbrev pub changed : Entity → UpsertInput → ℕ → Entity
changed before input now = record {
  id = before.id;
  kind = input.kind;
  name = input.name;
  properties = input.properties;
  created_at = before.created_at;
  updated_at = now;
}

abbrev pub fresh_entity : String → UpsertInput → ℕ → Entity
fresh_entity id input now = record {
  id = id;
  kind = input.kind;
  name = input.name;
  properties = input.properties;
  created_at = now;
  updated_at = now;
}

-- The row is read back after the transaction: it is the one just written.
unfoldable pub update_row : String → UpsertInput → ℕ → Option Entity → Database → Outcome
unfolding write_audit
update_row id input now none db = (db, err entity_not_found)
update_row id input now (some before) db =
    let after = changed before input now in
    (
      write_audit now input.context id (update before input.kind input.name input.properties)
          (record db { entities = set id after db.entities }),
      ok after,
    )

unfoldable pub insert_row : String → UpsertInput → ℕ → Database → Outcome
unfolding write_audit get_raw
insert_row id input now db =
    let entity = fresh_entity id input now in
    if is_some (get_raw id db) then (db, err constraint_failed) else (
      write_audit now input.context id (create input.kind input.name input.properties)
          (record db { entities = set id entity db.entities }),
      ok entity,
    )

abbrev pub new_id : EntityStoreOptions → UpsertInput → String → String
new_id options input uuid = elim input.id [
  | some supplied ↦ supplied
  | none ↦ generate_id options input.kind uuid
]

unfoldable pub write_row :
    EntityStoreOptions → UpsertInput → String → ℕ → Option String → Database → Outcome
unfolding update_row insert_row get_raw generate_id
write_row options input uuid now (some existing_id) db =
    update_row existing_id input now (get_raw existing_id db) db
write_row options input uuid now none db = insert_row (new_id options input uuid) input now db

unfoldable pub upsert : EntityStoreOptions → UpsertInput → String → ℕ → Database → Outcome
unfolding is_valid find_existing write_row
upsert options input uuid now db =
    if input.kind == ""
    then (db, err kind_required)
    else if is_valid options input.kind input.properties
    then write_row options input uuid now (find_existing options input db) db
    else (db, err schema_validation_failed)

abbrev pub Done : Type 0
Done = Database × Result EntityStoreError Unit

unfoldable pub relate :
    String → String → String → Option Properties → WriteContext → ℕ → Database → Done
unfolding get_raw insert_or_ignore write_audit
relate from_id relation_type to_id properties context now db =
    let row : Relation = record {
      from_id = from_id;
      relation_type = relation_type;
      to_id = to_id;
      properties = properties;
      created_at = now;
    } in
    if is_some (get_raw from_id db) && is_some (get_raw to_id db)
    then (
      write_audit now context from_id (relate_diff relation_type to_id properties)
          (record db { relations = insert_or_ignore row db.relations }),
      ok tt,
    )
    else (db, err relation_target_missing)

unfoldable pub unrelate : String → String → String → WriteContext → ℕ → Database → Database
unfolding delete_relation write_audit same_relation
unrelate from_id relation_type to_id context now db =
    let rest = record db { relations = delete_relation from_id relation_type to_id db.relations } in
    if any (λ s. same_relation from_id relation_type to_id s) db.relations
    then write_audit now context from_id (unrelate_diff relation_type to_id) rest
    else rest

unfoldable pub purge_found : String → String → WriteContext → ℕ → Option Entity → Database → Done
unfolding sever write_audit outgoing_of incoming_of
purge_found id reason context now none db = (db, err entity_not_found)
purge_found id reason context now (some entity) db = (
  write_audit now context id
      (purge_diff reason entity (outgoing_of id db.relations) (incoming_of id db.relations))
      (record db { relations = sever id db.relations; entities = delete id db.entities }),
  ok tt,
)

-- `is_blank` is whether the reason is empty or only white space.
unfoldable pub purge : (String → Bool) → String → String → WriteContext → ℕ → Database → Done
unfolding purge_found get_raw
purge is_blank id reason context now db =
    if is_blank reason
    then (db, err purge_reason_required)
    else purge_found id reason context now (get_raw id db) db

pub record ExpandedEntity : Type 0 where
  pub entity : Entity
  pub outgoing : List Relation
  pub incoming : List Relation

unfoldable pub expand : String → Database → Option ExpandedEntity
unfolding get_raw outgoing_of incoming_of
expand id db = do
  entity ← get_raw id db
  some (record {
    entity = entity;
    outgoing = outgoing_of id db.relations;
    incoming = incoming_of id db.relations;
  })
