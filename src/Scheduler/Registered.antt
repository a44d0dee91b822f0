-- ===== src/Scheduler/Registered.antt =====
-- After a registration the configured tasks of the registry are those of the rules.
use mathlib.Core.Path.{subst}
use mathlib.Core.List.{Memᴰ}
use mathlib.Core.List.Memᴰ
use clawndom.Common.{
  String, Bool, true, not, ◌&&◌, ◌||◌, Option, none, some, List, [], ◌∷◌, ◌++◌, ◌==◌, if◌then◌else◌,
  map, ◌≡◌, refl, ap, ◌∙◌, arith, eq_iff, inl, inr, Bool-cases,
}
use clawndom.Common.Result.{Result, ok, err}
use clawndom.ScheduledTasks.Task.{ScheduledTask, config}
use clawndom.ScheduledTasks.Store.{Store, by_created_by, contains, get_by_id}
use clawndom.ScheduledTasks.Service.{Service}
use clawndom.ScheduledTasks.Upsert.{UpsertError, task_id}
use clawndom.ScheduledTasks.Exact.{listed, IsExact}
use clawndom.ScheduledTasks.Outcome.{Reported, upsert-Reported}
use clawndom.ScheduledTasks.Reconcile.{get_by_id-reconcile_config}
use clawndom.ScheduledTasks.ConfigId.{Material}
use clawndom.Scheduler.{
  material, id_of, ScheduleRule, ScheduledAgent, RegisteredSchedule, ScheduleError, Environment,
  rule_input, remove_legacy_scheduler, schedule_of, push_schedule, Registration, check_rule,
  register_checked, register_rules, register_agents, reconciled, register_agent_schedules,
}
use clawndom.Scheduler.Owned.{
  TellsAgentsApart, IsConfigured, checked_materials, rules_materials, materials, Owned,
  OwnedBy-listed, upserted-Owned, upserted-listed, upserted-IsExact, found, upserted,
}

module _ (env : Environment) where
  -- The stored tasks of the configuration are those of the schedules returned.
  abbrev pub IsRegistered : Registration → Type 0
  IsRegistered (service, ok registered) =
      (id : String)
      → listed (by_created_by config) (get_by_id env.registry.codec id service.store)
        ≡ contains id (map (λ s. s.task_id) registered)
  IsRegistered (service, err e) = Unit

module _ (env : Environment) (Configured : Material → Type 0)
    (one_agent : TellsAgentsApart env Configured) where
  record IsReady (store : Store) : Type 0 where
    exact : IsExact env.registry.codec store
    owned : Owned env Configured store

  ids_of : List RegisteredSchedule → List String
  ids_of registered = map (λ s. s.task_id) registered

  -- The tasks of the schedules registered so far are tasks of the configuration.
  AreListed : List RegisteredSchedule → Store → Type 0
  AreListed registered store =
      (id : String)
      → contains id (ids_of registered) ≡ true
      → listed (by_created_by config) (found env Configured one_agent id store) ≡ true

  IsGood : Registration → Type 0
  IsGood (service, ok registered) = IsReady service.store × AreListed registered service.store
  IsGood (service, err e) = IsReady service.store

  contains-ids_of :
      (id : String) (registered : List RegisteredSchedule) (schedule : RegisteredSchedule)
      → contains id (ids_of (registered ++ schedule ∷ []))
        ≡ contains id (ids_of registered) || schedule.task_id == id
  unfolding contains ids_of
  contains-ids_of id [] schedule = ground arith
  contains-ids_of id (s ∷ registered) schedule =
      ground (arith, contains-ids_of id registered schedule)

  push_schedule-IsGood :
      (registered : List RegisteredSchedule) (schedule : RegisteredSchedule)
      (outcome : Service × Result UpsertError ScheduledTask)
      → IsReady outcome.0.store
      → AreListed registered outcome.0.store
      → ((task : ScheduledTask)
          → outcome.1 ≡ ok task
          → listed
              (by_created_by config)
              (found env Configured one_agent schedule.task_id outcome.0.store)
            ≡ true)
      → IsGood (push_schedule registered schedule outcome)
  unfolding IsGood AreListed
  push_schedule-IsGood registered schedule (service, err e) ready kept new = ready
  push_schedule-IsGood registered schedule (service, ok task) ready kept new = (
    ready,
    λ id h. elim (Bool-cases (contains id (ids_of registered))) [
      | inl there ↦ kept id there
      | inr missing ↦
          subst
            (λ i.
              listed (by_created_by config) (found env Configured one_agent i service.store) ≡ true)
            ((eq_iff schedule.task_id id).0
              (ground (arith, contains-ids_of id registered schedule, h, missing)))
            (new task refl)
    ],
  )

  -- A task that an upsert returns is stored.
  returned-found :
      (id : String) (existing : Option ScheduledTask) (before : Service)
      (outcome : Service × Result UpsertError ScheduledTask) (task : ScheduledTask)
      → Reported env.registry id existing before outcome
      → outcome.1 ≡ ok task
      → (t : ScheduledTask) × (found env Configured one_agent id outcome.0.store ≡ some t)
  unfolding Reported
  returned-found id existing before (after, ok t) task h e = (t, h.0)
  returned-found id existing before (after, err f) task h e = absurd (cc e)

  register_checked-IsGood :
      (agent : ScheduledAgent) (rule : ScheduleRule)
      (checked : Result ScheduleError (String × String)) (registered : List RegisteredSchedule)
      (service : Service)
      → IsReady service.store
      → AreListed registered service.store
      → ((m : Material) → Memᴰ m (checked_materials agent rule checked) → Configured m)
      → IsGood (register_checked env agent rule checked registered service)
  unfolding register_checked IsGood remove_legacy_scheduler AreListed rule_input material task_id
      schedule_of
  register_checked-IsGood agent rule (err e) registered service ready kept known = ready
  register_checked-IsGood agent rule (ok (name, pattern)) registered service ready kept known =
      let configured = known (material agent rule name pattern) (Memᴰ.head refl) in
      let started = remove_legacy_scheduler agent.name name service in
      let m = material agent rule name pattern in
      let input = rule_input env agent rule name pattern in
      let id = id_of env m in
      let owned =
        upserted-Owned env Configured one_agent agent rule name pattern started configured
          ready.owned in
      push_schedule-IsGood registered (schedule_of input rule name pattern)
        (upserted env Configured one_agent agent rule name pattern started)
        (record {
          exact =
              upserted-IsExact env Configured one_agent agent rule name pattern started configured
                ready.owned ready.exact;
          owned = owned;
        })
        (λ i h.
          upserted-listed env Configured one_agent agent rule name pattern started i (kept i h))
        λ task e.
          let (t, there) =
            returned-found id _ started
              (upserted env Configured one_agent agent rule name pattern started) task
              (upsert-Reported env.registry input "" (env.clock id) (env.accepted id) started) e in
          OwnedBy-listed env Configured one_agent _ agent.name t (owned m configured) there

  register_rules-IsGood :
      (agent : ScheduledAgent) (rules : List ScheduleRule) (state : Registration)
      → ((m : Material) → Memᴰ m (rules_materials agent rules) → Configured m)
      → IsGood state
      → IsGood (register_rules env agent rules state)
  unfolding register_rules IsGood rules_materials
  register_rules-IsGood agent [] state known good = good
  register_rules-IsGood agent (rule ∷ rules) (service, err e) known good = good
  register_rules-IsGood agent (rule ∷ rules) (service, ok registered) known good =
      register_rules-IsGood agent rules
        (register_checked env agent rule (check_rule rule) registered service)
        (λ m h. known m (Memᴰ.append_right (checked_materials agent rule (check_rule rule)) h))
        (register_checked-IsGood agent rule (check_rule rule) registered service good.0 good.1
          (λ m h. known m (Memᴰ.append_left (rules_materials agent rules) h)))

  register_agents-IsGood :
      (agents : List ScheduledAgent) (state : Registration)
      → ((m : Material) → Memᴰ m (materials agents) → Configured m)
      → IsGood state
      → IsGood (register_agents env agents state)
  unfolding register_agents materials
  register_agents-IsGood [] state known good = good
  register_agents-IsGood (agent ∷ agents) state known good =
      register_agents-IsGood agents (register_rules env agent agent.rules state)
        (λ m h. known m (Memᴰ.append_right (rules_materials agent agent.rules) h))
        (register_rules-IsGood agent agent.rules state
          (λ m h. known m (Memᴰ.append_left (materials agents) h)) good)

  nothing-IsGood :
      (service : Service)
      → IsExact env.registry.codec service.store
      → Owned env Configured service.store
      → IsGood (service, ok [])
  unfolding IsGood AreListed contains ids_of
  nothing-IsGood service exact owned =
      (record { exact = exact; owned = owned }, λ id h. absurd (ground (arith, h)))

  after_reconcile :
      (o : Option ScheduledTask) (loaded : Bool)
      → (loaded ≡ true → listed (by_created_by config) o ≡ true)
      → listed
          (by_created_by config)
          (if listed (by_created_by config) o && not loaded then none else o)
        ≡ loaded
  after_reconcile o loaded h = elim (Bool-cases (listed (by_created_by config) o && not loaded)) [
    | inl e ↦ rw e (ground (arith, e))
    | inr e ↦ rw e (ground (arith, e, h))
  ]

  reconciled-IsRegistered :
      (state : Registration) → IsGood state → IsRegistered env (reconciled env state)
  unfolding reconciled IsGood AreListed ids_of
  reconciled-IsRegistered (service, err e) good = tt
  reconciled-IsRegistered (service, ok registered) good = λ id.
      ap (listed (by_created_by config)) (
        get_by_id-reconcile_config env.registry env.reconciled_at (map (λ s. s.task_id) registered)
          service id good.0.exact)
      ∙ after_reconcile (found env Configured one_agent id service.store)
          (contains id (map (λ s. s.task_id) registered)) (good.1 id)

-- From a registry with exact indexes, and when no two schedules of different agents in the configuration
-- are hashed to the same id, nor a schedule to the id of a stored task that is not the
-- configuration's and of the same agent: a registration that does not fail leaves exactly the
-- returned schedules as the tasks of the configuration: each of them is stored, and no other task of
-- the configuration is.
pub register_agent_schedules-IsRegistered :
    (env : Environment) (agents : List ScheduledAgent) (service : Service)
    → TellsAgentsApart env (IsConfigured agents)
    → IsExact env.registry.codec service.store
    → Owned env (IsConfigured agents) service.store
    → IsRegistered env (register_agent_schedules env agents service)
unfolding register_agent_schedules
register_agent_schedules-IsRegistered env agents service one_agent exact owned =
    reconciled-IsRegistered env (IsConfigured agents) one_agent
      (register_agents env agents (service, ok []))
      (register_agents-IsGood env (IsConfigured agents) one_agent agents (service, ok []) (λ m h. h)
        (nothing-IsGood env (IsConfigured agents) one_agent service exact owned))
