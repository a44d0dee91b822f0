-- ===== src/ScheduledTasks/ConfigId.antt =====
-- types/scheduled-task.ts: the id of a task of the configuration, a hash of what the configuration
-- says of it. SHA-256, the order of `localeCompare` and the printing of a number are parameters.
use clawndom.Common.{ℕ, String, Bool, none, some, if◌then◌else◌}
use clawndom.Routing.Json.{
  Json, null, bool, num, str, arr, obj, Items, nil, cons, Fields, end, field, stringify,
}
use clawndom.ScheduledTasks.Task.{ScheduledTaskWhen, cron, fire_at}
use clawndom.ScheduledTasks.TaskId.{slice_to}

-- `sha256_hex` is the digest in hexadecimal; `sorts_before a b` says that `a.localeCompare(b)` is
-- negative.
pub record Hashing : Type 0 where
  pub sha256_hex : String → String
  pub sorts_before : String → String → Bool
  pub print_number : ℕ → String

-- What the hash is taken of.
pub record Material : Type 0 where
  pub agent_id : String
  pub name : String
  pub when : ScheduledTaskWhen
  pub runner : String
  pub runner_config : Json

-- A field goes behind those that do not sort after it, so that equal keys keep their order.
unfoldable pub insert_field : (String → String → Bool) → String → Json → Fields → Fields
insert_field sorts_before key value end = field key value end
insert_field sorts_before key value (field k v rest) =
    let later = insert_field sorts_before key value rest in
    if sorts_before key k then field key value (field k v rest) else field k v later

-- `[...keys].sort(...)`, and the object rebuilt in that order.
unfoldable pub sort_onto : (String → String → Bool) → Fields → Fields → Fields
unfolding insert_field
sort_onto sorts_before end sorted = sorted
sort_onto sorts_before (field key value rest) sorted =
    sort_onto sorts_before rest (insert_field sorts_before key value sorted)

unfoldable mutual
  unfolding sort_onto

  pub sort_keys_deep : (String → String → Bool) → Json → Json
  sort_keys_deep sorts_before null = null
  sort_keys_deep sorts_before (bool b) = bool b
  sort_keys_deep sorts_before (num n) = num n
  sort_keys_deep sorts_before (str s) = str s
  sort_keys_deep sorts_before (arr vs) = arr (sort_items sorts_before vs)
  sort_keys_deep sorts_before (obj fs) =
      obj (sort_onto sorts_before (sort_values sorts_before fs) end)

  pub sort_items : (String → String → Bool) → Items → Items
  sort_items sorts_before nil = nil
  sort_items sorts_before (cons v vs) =
      cons (sort_keys_deep sorts_before v) (sort_items sorts_before vs)

  pub sort_values : (String → String → Bool) → Fields → Fields
  sort_values sorts_before end = end
  sort_values sorts_before (field key value rest) =
      field key (sort_keys_deep sorts_before value) (sort_values sorts_before rest)

unfoldable pub stable_stringify : Hashing → Json → String
unfolding sort_keys_deep stringify
stable_stringify hashing value = stringify (sort_keys_deep hashing.sorts_before value)

unfoldable pub when_json : Hashing → ScheduledTaskWhen → Json
when_json hashing (cron pattern none) = obj (field "cron" (str pattern) end)
when_json hashing (cron pattern (some timezone)) =
    obj (field "cron" (str pattern) (field "timezone" (str timezone) end))
when_json hashing (fire_at time) = obj (field "fireAt" (num (hashing.print_number time)) end)

unfoldable pub derive_config_task_id : Hashing → Material → String
unfolding stable_stringify when_json slice_to
derive_config_task_id hashing m = slice_to 16 (
    hashing.sha256_hex (
      stable_stringify hashing (
        obj (
          field "agentId" (str m.agent_id) (
            field "name" (str m.name) (
              field "when" (when_json hashing m.when)
                (field "runner" (str m.runner) (field "runnerConfig" m.runner_config end))))))))
