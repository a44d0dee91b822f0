-- ===== src/TaskWorker/Budget.antt =====
-- How often the worker runs an agent for a scheduled task, and what becomes of the bundles of tools.
use clawndom.Common.{ℕ, ◌+◌, ◌≤◌, String, Option, some, List, [], ◌∷◌}
use clawndom.Common.Dict.{Dict}
use clawndom.Routing.Json.{Json}
use clawndom.ScheduledTasks.Task.{ScheduledTask}
use clawndom.ScheduledTasks.Store.{get_by_id}
use clawndom.ScheduledTasks.Service.{Service}
use clawndom.ScheduledTasks.Exact.{IsExact}
use clawndom.ScheduledTasks.Runs.{HasLeft}
use clawndom.TaskWorker.{TaskAgent, Environment, World, JobMeta, process_scheduled_task}
use clawndom.TaskWorker.Counts.{count_runs, count_built, count_cleaned}
use clawndom.TaskWorker.Tidy.{unless_ready}

module _ (env : Environment) (agent : TaskAgent) (id rule : String) (context : Dict Json) where
  -- The deliveries of one scheduled task, one after the other.
  unfoldable pub process_deliveries : List JobMeta → World → World
  process_deliveries [] world = world
  process_deliveries (meta ∷ metas) world =
      process_deliveries metas
        (process_scheduled_task env agent (some id) rule context meta world).0

  abbrev pub found_in : World → Option ScheduledTask
  found_in world = get_by_id env.registry.codec id world.service.store

  record Step (left : ℕ) (before after : World) : Type 0 where
    rest : ℕ
    has : HasLeft env.registry id rest (found_in after)
    exact : IsExact env.registry.codec after.service.store
    runs : count_runs after.actions + rest ≤ count_runs before.actions + left
    own :
        count_built before.actions + count_cleaned after.actions
        ≤ count_built after.actions + count_cleaned before.actions
    bundles :
        count_built after.actions
          + count_cleaned before.actions
          + unless_ready (env.has_runner "claude-cli") rest
        ≤ count_built before.actions
          + count_cleaned after.actions
          + unless_ready (env.has_runner "claude-cli") left
