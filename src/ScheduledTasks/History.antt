-- ===== src/ScheduledTasks/History.antt =====
-- Requests to the registry, one after the other: its indexes stay exact.
use clawndom.Common.{ℕ, String, Bool, Option, List, [], ◌∷◌, refl}
use clawndom.ScheduledTasks.Task.{ScheduledTaskCancelledReason, CreateScheduledTaskInput}
use clawndom.ScheduledTasks.Store.{get_by_id}
use clawndom.ScheduledTasks.Service.{Service, Dependencies, Readings}
use clawndom.ScheduledTasks.Upsert.{upsert, task_id}
use clawndom.ScheduledTasks.Removal.{delete, reconcile_config}
use clawndom.ScheduledTasks.Firing.{FireInput, record_fire}
use clawndom.ScheduledTasks.Exact.{IsExact}
use clawndom.ScheduledTasks.Steps.{
  KeepsOwner, upsert-IsExact, delete-IsExact, reconcile_config-IsExact, fire_found-IsExact,
}

-- A request to the registry, with the readings of the clock, the random text of an id, and whether
-- the queue accepts the call.
pub data Request : Type 0 where
  upserting : CreateScheduledTaskInput → String → Readings → Bool → Request
  deleting : String → ScheduledTaskCancelledReason → Option String → ℕ → Request
  firing : FireInput → ℕ → Request
  reconciling : ℕ → List String → Request

module _ (deps : Dependencies) where
  unfoldable pub perform : Request → Service → Service
  perform (upserting input fresh clock accepted) service =
      (upsert deps input fresh clock accepted service).0
  perform (deleting id reason trace_id now) service = (delete deps id reason trace_id now service).0
  perform (firing input now) service = (record_fire deps input now service).0
  perform (reconciling now loaded_ids) service = (reconcile_config deps now loaded_ids service).0

  unfoldable pub run : List Request → Service → Service
  unfolding perform
  run [] service = service
  run (request ∷ requests) service = run requests (perform request service)

  abbrev pub Respects : Request → Service → Type 0
  Respects (upserting input fresh clock accepted) service =
      KeepsOwner (get_by_id deps.codec (task_id input fresh) service.store) input
  Respects (deleting id reason trace_id now) service = Unit
  Respects (firing input now) service = Unit
  Respects (reconciling now loaded_ids) service = Unit

  -- Each upsert of the history keeps the owner of the task that it finds.
  abbrev pub OwnersKept : List Request → Service → Type 0
  OwnersKept [] service = Unit
  OwnersKept (request ∷ requests) service =
      Respects request service × OwnersKept requests (perform request service)

  pub perform-IsExact :
      (request : Request) (service : Service)
      → Respects request service
      → IsExact deps.codec service.store
      → IsExact deps.codec (perform request service).store
  unfolding perform record_fire
  perform-IsExact (upserting input fresh clock accepted) service keeps exact =
      upsert-IsExact deps input fresh clock accepted service keeps exact
  perform-IsExact (deleting id reason trace_id now) service keeps exact =
      delete-IsExact deps id reason trace_id now service exact
  perform-IsExact (firing input now) service keeps exact =
      fire_found-IsExact deps input now (get_by_id deps.codec input.id service.store) service refl
        exact
  perform-IsExact (reconciling now loaded_ids) service keeps exact =
      reconcile_config-IsExact deps now loaded_ids service exact

  -- From a registry whose indexes are exact, after any requests one after the other, each of which
  -- keeps the creator, the agent and the trace of a task that it overwrites: the sets of all ids, of
  -- a creator, of an agent and of a trace hold exactly the ids of the tasks that are stored and have
  -- that creator, agent or (non-empty) trace; the sorted set gives each stored task its next time
  -- and nothing else; and every stored task is valid and is stored under its own id.
  pub run-IsExact :
      (requests : List Request) (service : Service)
      → OwnersKept requests service
      → IsExact deps.codec service.store
      → IsExact deps.codec (run requests service).store
  unfolding run
  run-IsExact [] service kept exact = exact
  run-IsExact (request ∷ requests) service kept exact =
      run-IsExact requests (perform request service) kept.1
        (perform-IsExact request service kept.0 exact)
