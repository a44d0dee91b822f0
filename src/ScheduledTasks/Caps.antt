-- ===== src/ScheduledTasks/Caps.antt =====
-- The cap on the tasks of a trace.
use clawndom.Common.{
  ℕ, ◌≤◌, ◌<◌, String, Bool, false, not, ◌&&◌, Option, none, some, List, [], ◌∷◌, ◌≡◌, refl, ap,
  ◌∙◌, arith, inl, inr, Bool-cases, filter,
}
use clawndom.ScheduledTasks.Task.{
  ScheduledTask, ScheduledTaskWhen, cron, fire_at, config, ScheduledTaskExpiredReason,
  ScheduledTaskCancelledReason, config_reconcile, ScheduledTaskCaps, CreateScheduledTaskInput,
}
use clawndom.ScheduledTasks.Store.{by_created_by, by_trace, contains, Store, get_by_id}
use clawndom.ScheduledTasks.Service.{Service, Dependencies, Readings, compute_next_fire}
use clawndom.ScheduledTasks.Upsert.{task_id, upsert, build_task}
use clawndom.ScheduledTasks.Removal.{
  discard, delete, delete_found, delete_orphans, reconcile_config,
}
use clawndom.ScheduledTasks.Firing.{
  FireInput, record_fire, fire_found, fire_unless, advance, after_fire, check_expired,
}
use clawndom.ScheduledTasks.Members.{traced, belongs}
use clawndom.ScheduledTasks.Exact.{IsExact, listed}
use clawndom.ScheduledTasks.Steps.{KeepsOwner, unchanged, persisted, built, upsert-Upserted}
use clawndom.ScheduledTasks.History.{
  Request, upserting, deleting, firing, reconciling, perform, run, Respects, OwnersKept,
  perform-IsExact,
}
use clawndom.ScheduledTasks.Load.{load, load-persist, load-remove, gate-passed}

module _ (deps : Dependencies) (trace : String) where
  -- No upsert of a task of the configuration names the trace.
  abbrev pub Untraced : List Request → Type 0
  Untraced [] = Unit
  Untraced (upserting input fresh clock accepted ∷ requests) =
      (input.created_by ≡ config → traced input.created_by_trace_id trace ≡ false)
      × Untraced requests
  Untraced (deleting i reason trace_id now ∷ requests) = Untraced requests
  Untraced (firing input now ∷ requests) = Untraced requests
  Untraced (reconciling now loaded_ids ∷ requests) = Untraced requests

  delete_found-load :
      (id : String) (reason : ScheduledTaskCancelledReason) (trace_id : Option String) (now : ℕ)
      (existing : Option ScheduledTask) (service : Service)
      → load trace (delete_found id reason trace_id now existing service).0.store
        ≤ load trace service.store
  unfolding delete_found discard
  delete_found-load id reason trace_id now none service = omega arith
  delete_found-load id reason trace_id now (some task) service =
      load-remove trace task service.store

  delete_orphans-load :
      (now : ℕ) (ids : List String) (service : Service)
      → load trace (delete_orphans deps now ids service).store ≤ load trace service.store
  unfolding delete_orphans delete
  delete_orphans-load now [] service = omega arith
  delete_orphans-load now (id ∷ ids) service = omega (
    arith,
    delete_orphans-load now ids (delete deps id config_reconcile none now service).0,
    delete_found-load id config_reconcile none now (get_by_id deps.codec id service.store) service,
  )

  -- A recurring task that fires is listed under its trace already.
  after_fire-load :
      (id : String) (task : ScheduledTask) (when : ScheduledTaskWhen) (now : ℕ) (store : Store)
      → get_by_id deps.codec id store ≡ some task
      → IsExact deps.codec store
      → load trace (after_fire deps task when now store) ≤ load trace store
  unfolding after_fire belongs
  after_fire-load id task (fire_at time) now store h exact = load-remove trace task store
  after_fire-load id task (cron pattern timezone) now store h exact =
      let next = advance task (compute_next_fire deps (cron pattern timezone) now) in
      let there : contains task.id (store.sets (by_trace trace))
          ≡ traced task.created_by_trace_id trace =
        ap (λ i. contains i (store.sets (by_trace trace))) (exact.named id task h).0
        ∙ exact.members (by_trace trace) id
        ∙ ap (listed (by_trace trace)) h in
      ground (arith, load-persist trace deps.codec next store, there)

  fire_unless-load :
      (input : FireInput) (task : ScheduledTask) (now : ℕ)
      (reason : Option ScheduledTaskExpiredReason) (service : Service)
      → get_by_id deps.codec input.id service.store ≡ some task
      → IsExact deps.codec service.store
      → load trace (fire_unless deps input task now reason service).0.store
        ≤ load trace service.store
  unfolding fire_unless discard
  fire_unless-load input task now (some reason) service h exact =
      load-remove trace task service.store
  fire_unless-load input task now none service h exact =
      after_fire-load input.id task task.when now service.store h exact

  fire_found-load :
      (input : FireInput) (now : ℕ) (existing : Option ScheduledTask) (service : Service)
      → get_by_id deps.codec input.id service.store ≡ existing
      → IsExact deps.codec service.store
      → load trace (fire_found deps input now existing service).0.store ≤ load trace service.store
  unfolding fire_found
  fire_found-load input now none service h exact = omega arith
  fire_found-load input now (some task) service h exact =
      fire_unless-load input task now (check_expired task now) service h exact

  upsert-load :
      (caps : ScheduledTaskCaps) (input : CreateScheduledTaskInput) (fresh : String)
      (clock : Readings) (accepted : Bool) (service : Service)
      → deps.caps ≡ some caps
      → 0 < caps.max_per_trace
      → KeepsOwner (get_by_id deps.codec (task_id input fresh) service.store) input
      → (input.created_by ≡ config → traced input.created_by_trace_id trace ≡ false)
      → IsExact deps.codec service.store
      → load trace service.store ≤ caps.max_per_trace
      → load trace (upsert deps input fresh clock accepted service).0.store ≤ caps.max_per_trace
  unfolding built build_task task_id
  upsert-load caps input fresh clock accepted service capped positive keeps untraced exact h =
      elim (upsert-Upserted deps input fresh clock accepted service) [
        | unchanged same ↦ omega (arith, ap (load trace) same, h)
        | persisted passed valid same ↦
            let task = built deps input fresh clock service in
            let there = exact.members (by_trace trace) task.id in
            let grows = load-persist trace deps.codec task service.store in
            elim (Bool-cases (
              traced input.created_by_trace_id trace
              && not (contains task.id (service.store.sets (by_trace trace))))) [
                | inl e ↦
                    let room =
                      gate-passed trace deps caps input _ clock.decided service.store.sets capped
                        positive keeps untraced (ground (arith, e)) (ground (arith, e, there))
                        passed in
                    ground (arith, ap (load trace) same, grows, e, room)
                | inr e ↦ ground (arith, ap (load trace) same, grows, e, h)
              ]
      ]

  perform-load :
      (caps : ScheduledTaskCaps) (request : Request) (rest : List Request) (service : Service)
      → deps.caps ≡ some caps
      → 0 < caps.max_per_trace
      → Respects deps request service
      → Untraced (request ∷ rest)
      → IsExact deps.codec service.store
      → load trace service.store ≤ caps.max_per_trace
      → load trace (perform deps request service).store ≤ caps.max_per_trace
  unfolding perform delete record_fire reconcile_config
  perform-load caps (upserting input fresh clock accepted) rest service capped positive keeps
        untraced exact h =
      upsert-load caps input fresh clock accepted service capped positive keeps untraced.0 exact h
  perform-load caps (deleting i reason trace_id now) rest service capped positive keeps untraced
        exact h =
      omega (
        arith,
        h,
        delete_found-load i reason trace_id now (get_by_id deps.codec i service.store) service,
      )
  perform-load caps (firing input now) rest service capped positive keeps untraced exact h = omega (
    arith,
    h,
    fire_found-load input now (get_by_id deps.codec input.id service.store) service refl exact,
  )
  perform-load caps (reconciling now loaded) rest service capped positive keeps untraced exact h =
      omega (
        arith,
        h,
        delete_orphans-load now
            (filter (λ id. not (contains id loaded)) (service.store.sets (by_created_by config)))
            service,
      )

  Untraced-tail :
      (request : Request) (rest : List Request) → Untraced (request ∷ rest) → Untraced rest
  Untraced-tail (upserting input fresh clock accepted) rest h = h.1
  Untraced-tail (deleting i reason trace_id now) rest h = h
  Untraced-tail (firing input now) rest h = h
  Untraced-tail (reconciling now loaded_ids) rest h = h

  -- With a cap of `max_per_trace` tasks per trace, not 0: requests one after the other from a registry
  -- with exact indexes, each keeping the owner of a task that it overwrites and no task of the
  -- configuration naming the trace, never leave more than `max_per_trace` tasks listed under the
  -- trace, if there were not more at the start.
  pub run-load :
      (caps : ScheduledTaskCaps) (requests : List Request) (service : Service)
      → deps.caps ≡ some caps
      → 0 < caps.max_per_trace
      → OwnersKept deps requests service
      → Untraced requests
      → IsExact deps.codec service.store
      → load trace service.store ≤ caps.max_per_trace
      → load trace (run deps requests service).store ≤ caps.max_per_trace
  unfolding run
  run-load caps [] service capped positive kept untraced exact h = h
  run-load caps (request ∷ rest) service capped positive kept untraced exact h =
      run-load caps rest (perform deps request service) capped positive kept.1
        (Untraced-tail request rest untraced) (perform-IsExact deps request service kept.0 exact)
        (perform-load caps request rest service capped positive kept.0 untraced exact h)
