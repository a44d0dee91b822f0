-- ===== src/ScheduledTasks/Removal.antt =====
-- services/scheduled-tasks.service.ts: the removal of a task, and the pass that removes the tasks
-- of rules that the configuration no longer has.
use clawndom.Common.{
  ℕ, String, Bool, true, false, not, Option, none, some, List, [], ◌∷◌, ◌++◌, get_or, filter,
}
use clawndom.ScheduledTasks.Task.{
  config, ScheduledTask, ScheduledTaskCancelledReason, config_reconcile, ScheduledTaskEvent,
  cancelled,
}
use clawndom.ScheduledTasks.Store.{by_created_by, contains, get_by_id, remove_from_redis}
use clawndom.ScheduledTasks.Service.{Service, Dependencies, scheduled_task_key, remove_from_bullmq}

-- A task leaves the queue and the store. A queue that throws is logged and passed over.
unfoldable pub discard : ScheduledTask → ScheduledTaskEvent → Service → Service
unfolding remove_from_bullmq
discard task event service = record {
  store = remove_from_redis task service.store;
  calls = service.calls ++ remove_from_bullmq task task.when ∷ [];
  published = service.published ++ event ∷ [];
}

unfoldable pub delete_found :
    String
    → ScheduledTaskCancelledReason
    → Option String
    → ℕ
    → Option ScheduledTask
    → Service
    → Service × Bool
unfolding discard scheduled_task_key
delete_found id reason trace_id now none service = (service, false)
delete_found id reason trace_id now (some existing) service =
    let event = cancelled (record {
      timestamp = now;
      trace_id = get_or trace_id (scheduled_task_key id);
      task_id = id;
      agent_id = existing.agent_id;
      runner = existing.runner;
      reason = reason;
    }) in
    (discard existing event service, true)

unfoldable pub delete :
    Dependencies
    → String
    → ScheduledTaskCancelledReason
    → Option String
    → ℕ
    → Service
    → Service × Bool
unfolding delete_found
delete deps id reason trace_id now service =
    delete_found id reason trace_id now (get_by_id deps.codec id service.store) service

unfoldable pub delete_orphans : Dependencies → ℕ → List String → Service → Service
unfolding delete
delete_orphans deps now [] service = service
delete_orphans deps now (id ∷ ids) service =
    delete_orphans deps now ids (delete deps id config_reconcile none now service).0

unfoldable pub reconcile_config : Dependencies → ℕ → List String → Service → Service × List String
unfolding delete_orphans contains
reconcile_config deps now loaded_ids service =
    let all_config_ids = service.store.sets (by_created_by config) in
    let orphans = filter (λ id. not (contains id loaded_ids)) all_config_ids in
    (delete_orphans deps now orphans service, orphans)
