-- ===== src/ScheduledTasks/Steps.antt =====
-- Each operation of the registry leaves its indexes exact.
use mathlib.Core.Path.{subst}
use clawndom.Common.{
  ℕ, String, Bool, true, Option, none, some, List, [], ◌∷◌, filter, not, ◌≡◌, refl, sym, ap, ◌∙◌,
  inl, inr, Bool-cases,
}
use clawndom.ScheduledTasks.Task.{
  ScheduledTask, ScheduledTaskWhen, cron, fire_at, ScheduledTaskExpiredReason,
  ScheduledTaskCancelledReason, config, config_reconcile, CreateScheduledTaskInput, is_valid,
  schema_parse,
}
use clawndom.ScheduledTasks.Store.{
  IndexKey, all_ids, by_created_by, by_agent, by_trace, Store, contains, get_by_id, persist,
  remove_from_redis,
}
use clawndom.ScheduledTasks.Service.{Service, Dependencies, Readings, compute_next_fire}
use clawndom.ScheduledTasks.Upsert.{
  UpsertError, upsert, task_id, build_task, admit, store_task, gate,
}
use clawndom.ScheduledTasks.Removal.{
  discard, delete, delete_found, delete_orphans, reconcile_config,
}
use clawndom.ScheduledTasks.Firing.{
  FireInput, fire_found, fire_unless, advance, after_fire, check_expired,
}
use clawndom.ScheduledTasks.Members.{belongs}
use clawndom.ScheduledTasks.Exact.{IsExact, Covers, IsExact-persist, IsExact-remove}

-- An upsert of a task that is there names the creator, the agent and the trace that it has.
abbrev pub KeepsOwner : Option ScheduledTask → CreateScheduledTaskInput → Type 0
KeepsOwner none input = Unit
KeepsOwner (some task) input =
    (task.created_by ≡ input.created_by)
    × (task.agent_id ≡ input.agent_id)
    × (task.created_by_trace_id ≡ input.created_by_trace_id)

belongs-cong :
    (t u : ScheduledTask) (k : IndexKey)
    → t.created_by ≡ u.created_by
    → t.agent_id ≡ u.agent_id
    → t.created_by_trace_id ≡ u.created_by_trace_id
    → belongs k t ≡ belongs k u
unfolding belongs
belongs-cong t u all_ids c a r = refl
belongs-cong t u (by_created_by x) c a r = rw c
belongs-cong t u (by_agent x) c a r = rw a
belongs-cong t u (by_trace x) c a r = rw r

module _ (deps : Dependencies) where
  KeepsOwner-Covers :
      (input : CreateScheduledTaskInput) (id : String) (existing : Option ScheduledTask) (now : ℕ)
      → KeepsOwner existing input
      → Covers existing (build_task deps input id existing now)
  unfolding Covers build_task
  KeepsOwner-Covers input id none now keeps k h = absurd (cc h)
  KeepsOwner-Covers input id (some task) now keeps k h =
      sym (belongs-cong task (build_task deps input id (some task) now) k keeps.0 keeps.1 keeps.2)
      ∙ h

  unfoldable pub built :
      (input : CreateScheduledTaskInput) (fresh : String) (clock : Readings) (service : Service)
      → ScheduledTask
  built input fresh clock service =
      build_task deps input (task_id input fresh)
        (get_by_id deps.codec (task_id input fresh) service.store) clock.decided

  -- What an upsert leaves in the store.
  pub data Upserted (refusal : Option UpsertError) (task : ScheduledTask) (before : Store)
      (after : Store) : Type 0 where
    unchanged : after ≡ before → Upserted refusal task before after
    persisted :
        refusal ≡ none
        → is_valid deps.codec task ≡ true
        → after ≡ persist deps.codec task before
        → Upserted refusal task before after

  store_task-Upserted :
      (input : CreateScheduledTaskInput) (existing : Option ScheduledTask) (task : ScheduledTask)
      (clock : Readings) (accepted : Bool) (service : Service)
      → Upserted none task service.store
          (store_task deps input existing
            (schema_parse deps.codec task)
            clock
            accepted
            service).0.store
  unfolding store_task schema_parse
  store_task-Upserted input existing task clock accepted service =
      elim (Bool-cases (is_valid deps.codec task)) [
        | inl e ↦ elim (Bool-cases accepted) [
          | inl a ↦ persisted refl e (rw (e, a))
          | inr a ↦ persisted refl e (rw (e, a))
        ]
        | inr e ↦ unchanged (rw e refl)
      ]

  admit-Upserted :
      (input : CreateScheduledTaskInput) (id : String) (existing : Option ScheduledTask)
      (refusal : Option UpsertError) (clock : Readings) (accepted : Bool) (service : Service)
      → Upserted refusal
          (build_task deps input id existing clock.decided)
          service.store
          (admit deps input id existing refusal clock accepted service).0.store
  unfolding admit
  admit-Upserted input id existing none clock accepted service =
      store_task-Upserted input existing (build_task deps input id existing clock.decided) clock
        accepted service
  admit-Upserted input id existing (some e) clock accepted service = unchanged refl

  pub upsert-Upserted :
      (input : CreateScheduledTaskInput) (fresh : String) (clock : Readings) (accepted : Bool)
      (service : Service)
      → Upserted
          (gate deps input
            (get_by_id deps.codec (task_id input fresh) service.store)
            clock.decided
            service.store.sets)
          (built input fresh clock service)
          service.store
          (upsert deps input fresh clock accepted service).0.store
  unfolding upsert built
  upsert-Upserted input fresh clock accepted service =
      admit-Upserted input (task_id input fresh)
        (get_by_id deps.codec (task_id input fresh) service.store)
        (gate deps input (get_by_id deps.codec (task_id input fresh) service.store) clock.decided
          service.store.sets)
        clock accepted service

  Upserted-IsExact :
      (refusal : Option UpsertError) (task : ScheduledTask) (before after : Store)
      → Upserted refusal task before after
      → Covers (get_by_id deps.codec task.id before) task
      → IsExact deps.codec before
      → IsExact deps.codec after
  Upserted-IsExact refusal task before after (unchanged e) covers exact =
      subst (IsExact deps.codec) (sym e) exact
  Upserted-IsExact refusal task before after (persisted passed valid e) covers exact =
      subst (IsExact deps.codec) (sym e) (IsExact-persist deps.codec task before exact valid covers)

  pub upsert-IsExact :
      (input : CreateScheduledTaskInput) (fresh : String) (clock : Readings) (accepted : Bool)
      (service : Service)
      → KeepsOwner (get_by_id deps.codec (task_id input fresh) service.store) input
      → IsExact deps.codec service.store
      → IsExact deps.codec (upsert deps input fresh clock accepted service).0.store
  unfolding built task_id build_task
  upsert-IsExact input fresh clock accepted service keeps exact =
      Upserted-IsExact
        (gate deps input (get_by_id deps.codec (task_id input fresh) service.store) clock.decided
          service.store.sets)
        (built input fresh clock service) service.store _
        (upsert-Upserted input fresh clock accepted service)
        (KeepsOwner-Covers input (task_id input fresh) _ clock.decided keeps) exact

  -- A task that is found is stored under its own id.
  found-IsExact :
      (id : String) (task : ScheduledTask) (store : Store)
      → get_by_id deps.codec id store ≡ some task
      → IsExact deps.codec store
      → IsExact deps.codec (remove_from_redis task store)
  found-IsExact id task store h exact =
      IsExact-remove deps.codec task store exact
        (ap (λ i. get_by_id deps.codec i store) (exact.named id task h).0 ∙ h)

  delete_found-IsExact :
      (id : String) (reason : ScheduledTaskCancelledReason) (trace_id : Option String) (now : ℕ)
      (existing : Option ScheduledTask) (service : Service)
      → get_by_id deps.codec id service.store ≡ existing
      → IsExact deps.codec service.store
      → IsExact deps.codec (delete_found id reason trace_id now existing service).0.store
  unfolding delete_found discard
  delete_found-IsExact id reason trace_id now none service h exact = exact
  delete_found-IsExact id reason trace_id now (some task) service h exact =
      found-IsExact id task service.store h exact

  pub delete-IsExact :
      (id : String) (reason : ScheduledTaskCancelledReason) (trace_id : Option String) (now : ℕ)
      (service : Service)
      → IsExact deps.codec service.store
      → IsExact deps.codec (delete deps id reason trace_id now service).0.store
  unfolding delete
  delete-IsExact id reason trace_id now service exact =
      delete_found-IsExact id reason trace_id now (get_by_id deps.codec id service.store) service
        refl exact

  delete_orphans-IsExact :
      (now : ℕ) (ids : List String) (service : Service)
      → IsExact deps.codec service.store
      → IsExact deps.codec (delete_orphans deps now ids service).store
  unfolding delete_orphans
  delete_orphans-IsExact now [] service exact = exact
  delete_orphans-IsExact now (id ∷ ids) service exact =
      delete_orphans-IsExact now ids (delete deps id config_reconcile none now service).0
        (delete-IsExact id config_reconcile none now service exact)

  pub reconcile_config-IsExact :
      (now : ℕ) (loaded : List String) (service : Service)
      → IsExact deps.codec service.store
      → IsExact deps.codec (reconcile_config deps now loaded service).0.store
  unfolding reconcile_config
  reconcile_config-IsExact now loaded service exact =
      delete_orphans-IsExact now
        (filter (λ id. not (contains id loaded)) (service.store.sets (by_created_by config)))
        service exact

  fired-Covers : (task : ScheduledTask) (next : Option ℕ) → Covers (some task) (advance task next)
  unfolding Covers
  fired-Covers task next k h = sym (belongs-cong task (advance task next) k refl refl refl) ∙ h

  after_fire-IsExact :
      (id : String) (task : ScheduledTask) (when : ScheduledTaskWhen) (now : ℕ) (store : Store)
      → get_by_id deps.codec id store ≡ some task
      → IsExact deps.codec store
      → IsExact deps.codec (after_fire deps task when now store)
  unfolding after_fire is_valid
  after_fire-IsExact id task (fire_at time) now store h exact = found-IsExact id task store h exact
  after_fire-IsExact id task (cron pattern timezone) now store h exact =
      let held = ap (λ i. get_by_id deps.codec i store) (exact.named id task h).0 ∙ h in
      IsExact-persist deps.codec _ store exact (exact.named id task h).1 (
        subst (λ o. Covers o (advance task (compute_next_fire deps (cron pattern timezone) now)))
          (sym held) (fired-Covers task (compute_next_fire deps (cron pattern timezone) now)))

  fire_unless-IsExact :
      (input : FireInput) (task : ScheduledTask) (now : ℕ)
      (reason : Option ScheduledTaskExpiredReason) (service : Service)
      → get_by_id deps.codec input.id service.store ≡ some task
      → IsExact deps.codec service.store
      → IsExact deps.codec (fire_unless deps input task now reason service).0.store
  unfolding fire_unless discard
  fire_unless-IsExact input task now none service h exact =
      after_fire-IsExact input.id task task.when now service.store h exact
  fire_unless-IsExact input task now (some reason) service h exact =
      found-IsExact input.id task service.store h exact

  pub fire_found-IsExact :
      (input : FireInput) (now : ℕ) (existing : Option ScheduledTask) (service : Service)
      → get_by_id deps.codec input.id service.store ≡ existing
      → IsExact deps.codec service.store
      → IsExact deps.codec (fire_found deps input now existing service).0.store
  unfolding fire_found
  fire_found-IsExact input now none service h exact = exact
  fire_found-IsExact input now (some task) service h exact =
      fire_unless-IsExact input task now (check_expired task now) service h exact
