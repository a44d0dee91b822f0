-- ===== src/Entities/Changes.antt =====
-- The operations of the store as one step, and sequences of them.
use clawndom.Common.{ℕ, String, Bool, Option, List, [], ◌∷◌}
use clawndom.Entities.Tables.{Properties, Database, WriteContext}
use clawndom.Entities.Store.{EntityStoreOptions, UpsertInput, upsert, relate, unrelate, purge}

pub data Operation : Type 0 where
  upserting : UpsertInput → (uuid : String) → (now : ℕ) → Operation
  relating :
      (from_id relation_type to_id : String)
      → Option Properties
      → WriteContext
      → (now : ℕ) → Operation
  unrelating : (from_id relation_type to_id : String) → WriteContext → (now : ℕ) → Operation
  purging : (id reason : String) → WriteContext → (now : ℕ) → Operation

abbrev pub empty : Database
empty = record { entities = []; relations = []; audit = []; sequence = 1 }

module _ (options : EntityStoreOptions) (is_blank : String → Bool) where
  unfoldable pub perform : Operation → Database → Database
  perform (upserting input uuid now) db = (upsert options input uuid now db).0
  perform (relating from_id relation_type to_id properties context now) db =
      (relate from_id relation_type to_id properties context now db).0
  perform (unrelating from_id relation_type to_id context now) db =
      unrelate from_id relation_type to_id context now db
  perform (purging id reason context now) db = (purge is_blank id reason context now db).0

  unfoldable pub run : List Operation → Database → Database
  unfolding perform
  run [] db = db
  run (operation ∷ operations) db = run operations (perform operation db)
