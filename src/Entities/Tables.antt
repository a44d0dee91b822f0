-- ===== src/Entities/Tables.antt =====
-- services/entities/entity-store.service.ts: the rows of the tables and the queries on them. A JSON
-- column is the value that it holds.
use clawndom.Common.{
  ℕ, ◌+◌, String, Bool, not, ◌&&◌, Option, List, [], ◌∷◌, ◌++◌, ◌==◌, if◌then◌else◌, any, filter,
}
use clawndom.Common.Dict.{Dict, get}
use clawndom.Routing.Json.{Json}

abbrev pub Properties : Type 0
Properties = Dict Json

pub record Entity : Type 0 where
  pub id : String
  pub kind : String
  pub name : String
  pub properties : Properties
  pub created_at : ℕ
  pub updated_at : ℕ

pub record Relation : Type 0 where
  pub from_id : String
  pub relation_type : String
  pub to_id : String
  pub properties : Option Properties
  pub created_at : ℕ

-- What an audit record says of the change: its operation with the difference.
pub data Diff : Type 0 where
  create : (kind name : String) → Properties → Diff
  update : (before : Entity) (kind name : String) → Properties → Diff
  relate : (relation_type to_id : String) → Option Properties → Diff
  unrelate : (relation_type to_id : String) → Diff
  purge :
      (reason : String) (purged_entity : Entity) (deleted_outgoing severed_incoming : List Relation)
      → Diff

pub record AuditRecord : Type 0 where
  pub id : ℕ
  pub ts : ℕ
  pub trace_id : Option String
  pub actor : Option String
  pub entity_id : String
  pub diff : Diff

-- The entities are under their ids, in the order of their row ids; `sequence` is the number that
-- the next audit record gets.
pub record Database : Type 0 where
  pub entities : Dict Entity
  pub relations : List Relation
  pub audit : List AuditRecord
  pub sequence : ℕ

pub record WriteContext : Type 0 where
  pub trace_id : Option String
  pub actor : Option String

unfoldable pub get_raw : String → Database → Option Entity
get_raw id db = get id db.entities

unfoldable pub same_relation : String → String → String → Relation → Bool
same_relation from_id relation_type to_id r =
    r.from_id == from_id && r.relation_type == relation_type && r.to_id == to_id

-- `INSERT OR IGNORE INTO relations`.
unfoldable pub insert_or_ignore : Relation → List Relation → List Relation
unfolding same_relation
insert_or_ignore r relations =
    if any (λ s. same_relation r.from_id r.relation_type r.to_id s) relations
    then relations
    else relations ++ r ∷ []

-- `DELETE FROM relations WHERE from_id = ? AND type = ? AND to_id = ?`.
unfoldable pub delete_relation : String → String → String → List Relation → List Relation
unfolding same_relation
delete_relation from_id relation_type to_id relations =
    filter (λ s. not (same_relation from_id relation_type to_id s)) relations

unfoldable pub outgoing_of : String → List Relation → List Relation
outgoing_of id relations = filter (λ r. r.from_id == id) relations

unfoldable pub incoming_of : String → List Relation → List Relation
incoming_of id relations = filter (λ r. r.to_id == id) relations

-- The two deletions of relations of a purge.
unfoldable pub sever : String → List Relation → List Relation
sever id relations =
    let without_outgoing = filter (λ r. not (r.from_id == id)) relations in
    filter (λ r. not (r.to_id == id)) without_outgoing

unfoldable pub write_audit : ℕ → WriteContext → String → Diff → Database → Database
write_audit ts context entity_id diff db = record db {
  audit =
      db.audit
      ++ record {
        id = db.sequence;
        ts = ts;
        trace_id = context.trace_id;
        actor = context.actor;
        entity_id = entity_id;
        diff = diff;
      }
        ∷ [];
  sequence = db.sequence + 1;
}
