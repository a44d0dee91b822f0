-- ===== src/Entities/Tests.antt =====
-- The entity store on a few operations.
use clawndom.Common.{String, Bool, true, none, some, List, [], ◌∷◌, ◌++◌, ◌==◌, ◌≡◌, refl, arith}
use clawndom.Routing.Json.{str}
use clawndom.Entities.Tables.{AuditRecord, WriteContext}
use clawndom.Entities.Store.{EntityStoreOptions}
use clawndom.Entities.Changes.{Operation, upserting, relating, purging, empty, run}
use clawndom.Entities.Integrity.{is_referential, run-is_referential}
use clawndom.Entities.Replay.{tables_of, replay, run-replay}
use clawndom.Entities.Sharing.{count_sharing, HasDistinctIds}
use clawndom.Entities.NaturalKeys.{HasUniqueKeys, run-HasUniqueKeys}

-- Clients are told apart by their mail address.
abbrev options : EntityStoreOptions
options = record {
  natural_keys = ("client", record { fields = "email" ∷ []; normalize = none }) ∷ [];
  id_prefixes = [];
  validator = none;
  to_text = λ value. elim value [ str text ↦ text | _ ↦ "" ];
}

abbrev is_blank : String → Bool
is_blank reason = reason == ""

abbrev context : WriteContext
context = record { trace_id = some "t"; actor = none }

-- Two upserts of one client, a contact, a relation that is made twice, and the end of the client.
abbrev story : List Operation
story =
    upserting
      (record {
        kind = "client";
        name = "Ada";
        properties = ("email", str "ada@x") ∷ [];
        id = none;
        context = context;
      })
      "1" 10
    ∷ upserting
        (record {
          kind = "client";
          name = "Ada L.";
          properties = ("email", str "ada@x") ∷ [];
          id = none;
          context = context;
        })
        "2" 11
    ∷ upserting
        (record { kind = "contact"; name = "Bo"; properties = []; id = none; context = context })
        "3" 12
    ∷ relating "p_3" "works_for" "c_1" none context 13
    ∷ relating "p_3" "works_for" "c_1" none context 14
    ∷ relating "p_3" "works_for" "c_9" none context 15
    ∷ purging "c_1" "asked to" context 16
    ∷ []

run-is_referential_example : is_referential (run options is_blank story empty) ≡ true
unfolding is_referential
run-is_referential_example = run-is_referential options is_blank story empty refl

run-replay_example :
    (records : List AuditRecord) × ((run options is_blank story empty).audit
      ≡ empty.audit ++ records)
    × (tables_of (run options is_blank story empty) ≡ replay records (tables_of empty))
run-replay_example = run-replay options is_blank story empty

empty-HasUniqueKeys : HasUniqueKeys options empty.entities
unfolding HasDistinctIds count_sharing
empty-HasUniqueKeys = record { distinct = tt; single = λ kind key. omega arith }

run-HasUniqueKeys_example : HasUniqueKeys options (run options is_blank story empty).entities
run-HasUniqueKeys_example =
    run-HasUniqueKeys options is_blank story empty (refl, (refl, (refl, tt))) empty-HasUniqueKeys
