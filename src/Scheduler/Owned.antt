-- ===== src/Scheduler/Owned.antt =====
-- The tasks of the configuration stay those of their agents.
use mathlib.Core.Path.{subst}
use mathlib.Core.List.{Memᴰ}
use clawndom.Common.{
  String, Bool, true, false, Option, none, some, List, [], ◌∷◌, ◌++◌, ◌==◌, if◌then◌else◌, ◌≡◌, ◌⊎◌,
  refl, sym, ap, ◌∙◌, eq_iff, inl, inr,
}
use clawndom.Common.Result.{Result, ok, err}
use clawndom.ScheduledTasks.Task.{ScheduledTask, config}
use clawndom.ScheduledTasks.Store.{Store, by_created_by, same_creator, get_by_id}
use clawndom.ScheduledTasks.Service.{Service}
use clawndom.ScheduledTasks.Upsert.{UpsertError, upsert, task_id, build_task}
use clawndom.ScheduledTasks.Members.{belongs}
use clawndom.ScheduledTasks.Lookups.{get_by_id-persist}
use clawndom.ScheduledTasks.Exact.{listed, IsExact}
use clawndom.ScheduledTasks.Steps.{
  KeepsOwner, Upserted, unchanged, persisted, built, upsert-Upserted, upsert-IsExact,
}
use clawndom.ScheduledTasks.ConfigId.{Material}
use clawndom.Scheduler.{
  ScheduleRule, ScheduledAgent, Environment, check_rule, rule_input, material, id_of, ScheduleError,
}

-- What the rules of the configuration are hashed by, as far as nothing is missing.
abbrev pub checked_materials :
    ScheduledAgent → ScheduleRule → Result ScheduleError (String × String) → List Material
checked_materials agent rule (err e) = []
checked_materials agent rule (ok (name, pattern)) = material agent rule name pattern ∷ []

unfoldable pub rules_materials : ScheduledAgent → List ScheduleRule → List Material
unfolding check_rule material
rules_materials agent [] = []
rules_materials agent (rule ∷ rules) =
    checked_materials agent rule (check_rule rule) ++ rules_materials agent rules

unfoldable pub materials : List ScheduledAgent → List Material
unfolding rules_materials
materials [] = []
materials (agent ∷ agents) = rules_materials agent agent.rules ++ materials agents

-- A material of the configuration.
abbrev pub IsConfigured : List ScheduledAgent → Material → Type 0
IsConfigured agents m = Memᴰ m (materials agents)

-- The tasks under the ids of the configuration are the configuration's own, of the same agent.
unfoldable pub OwnedBy : Option ScheduledTask → String → Type 0
OwnedBy none agent_id = Unit
OwnedBy (some task) agent_id =
    (task.created_by ≡ config) × (task.agent_id ≡ agent_id) × (task.created_by_trace_id ≡ none)

module _ (env : Environment) (Configured : Material → Type 0) where
  abbrev pub Owned : Store → Type 0
  Owned store =
      (m : Material)
      → Configured m
      → OwnedBy (get_by_id env.registry.codec (id_of env m) store) m.agent_id

  -- The materials that are hashed to the same id are of the same agent.
  abbrev pub TellsAgentsApart : Type 0
  TellsAgentsApart =
      (m n : Material)
      → Configured m
      → Configured n
      → id_of env m ≡ id_of env n
      → m.agent_id ≡ n.agent_id

  module _ (one_agent : TellsAgentsApart) where
    abbrev pub found : String → Store → Option ScheduledTask
    found id store = get_by_id env.registry.codec id store

    OwnedBy-KeepsOwner :
        (o : Option ScheduledTask) (agent : ScheduledAgent) (rule : ScheduleRule)
        (name pattern : String)
        → OwnedBy o agent.name
        → KeepsOwner o (rule_input env agent rule name pattern)
    unfolding OwnedBy rule_input material
    OwnedBy-KeepsOwner none agent rule name pattern h = tt
    OwnedBy-KeepsOwner (some task) agent rule name pattern h = h

    -- What an upsert of the configuration does to a lookup.
    found-Upserted :
        (refusal : Option UpsertError) (task : ScheduledTask) (before after : Store) (id : String)
        → Upserted env.registry refusal task before after
        → (found id after ≡ found id before)
          ⊎ (found id after ≡ (if task.id == id then some task else found id before))
    found-Upserted refusal task before after id (unchanged e) = inl (ap (found id) e)
    found-Upserted refusal task before after id (persisted passed valid e) =
        inr (ap (found id) e ∙ get_by_id-persist env.registry.codec task before id valid)

    OwnedBy-if :
        (b : Bool) (task : ScheduledTask) (o : Option ScheduledTask) (agent_id : String)
        → task.created_by ≡ config
        → task.created_by_trace_id ≡ none
        → (b ≡ true → task.agent_id ≡ agent_id)
        → OwnedBy o agent_id
        → OwnedBy (if b then some task else o) agent_id
    unfolding OwnedBy
    OwnedBy-if true task o agent_id c t same h = (c, same refl, t)
    OwnedBy-if false task o agent_id c t same h = h

    listed-if :
        (b : Bool) (task : ScheduledTask) (o : Option ScheduledTask)
        → task.created_by ≡ config
        → listed (by_created_by config) o ≡ true
        → listed (by_created_by config) (if b then some task else o) ≡ true
    unfolding belongs same_creator
    listed-if true task o c h = rw c refl
    listed-if false task o c h = h

    pub OwnedBy-listed :
        (o : Option ScheduledTask) (agent_id : String) (task : ScheduledTask)
        → OwnedBy o agent_id
        → o ≡ some task
        → listed (by_created_by config) o ≡ true
    unfolding OwnedBy belongs same_creator
    OwnedBy-listed none agent_id task h e = absurd (cc e)
    OwnedBy-listed (some t) agent_id task h e = rw h.0 refl

    abbrev pub upserted :
        ScheduledAgent
        → ScheduleRule
        → String
        → String
        → Service
        → Service × Result UpsertError ScheduledTask
    upserted agent rule name pattern service =
        upsert env.registry (rule_input env agent rule name pattern) ""
          (env.clock (id_of env (material agent rule name pattern)))
          (env.accepted (id_of env (material agent rule name pattern))) service

    pub upserted-Owned :
        (agent : ScheduledAgent) (rule : ScheduleRule) (name pattern : String) (service : Service)
        → Configured (material agent rule name pattern)
        → Owned service.store
        → Owned (upserted agent rule name pattern service).0.store
    unfolding built build_task rule_input task_id material
    upserted-Owned agent rule name pattern service configured owned m known =
        let input = rule_input env agent rule name pattern in
        let clock = env.clock (id_of env (material agent rule name pattern)) in
        let accepted = env.accepted (id_of env (material agent rule name pattern)) in
        let task = built env.registry input "" clock service in
        elim (found-Upserted _ task service.store (upserted agent rule name pattern service).0.store
          (id_of env m) (upsert-Upserted env.registry input "" clock accepted service)) [
            | inl e ↦ subst (λ o. OwnedBy o m.agent_id) (sym e) (owned m known)
            | inr e ↦
                subst (λ o. OwnedBy o m.agent_id) (sym e)
                  (OwnedBy-if (task.id == id_of env m) task _ m.agent_id refl refl
                    (λ same.
                      one_agent (material agent rule name pattern) m configured known
                        ((eq_iff task.id (id_of env m)).0 same))
                    (owned m known))
          ]

    pub upserted-listed :
        (agent : ScheduledAgent) (rule : ScheduleRule) (name pattern : String) (service : Service)
        (id : String)
        → listed (by_created_by config) (found id service.store) ≡ true
        → listed
            (by_created_by config)
            (found id (upserted agent rule name pattern service).0.store)
          ≡ true
    unfolding built build_task rule_input material
    upserted-listed agent rule name pattern service id h =
        let input = rule_input env agent rule name pattern in
        let clock = env.clock (id_of env (material agent rule name pattern)) in
        let accepted = env.accepted (id_of env (material agent rule name pattern)) in
        let task = built env.registry input "" clock service in
        elim (found-Upserted _ task service.store (upserted agent rule name pattern service).0.store
          id (upsert-Upserted env.registry input "" clock accepted service)) [
            | inl e ↦ ap (listed (by_created_by config)) e ∙ h
            | inr e ↦
                ap (listed (by_created_by config)) e
                ∙ listed-if (task.id == id) task (found id service.store) refl h
          ]

    pub upserted-IsExact :
        (agent : ScheduledAgent) (rule : ScheduleRule) (name pattern : String) (service : Service)
        → Configured (material agent rule name pattern)
        → Owned service.store
        → IsExact env.registry.codec service.store
        → IsExact env.registry.codec (upserted agent rule name pattern service).0.store
    unfolding rule_input task_id material
    upserted-IsExact agent rule name pattern service configured owned exact =
        upsert-IsExact env.registry (rule_input env agent rule name pattern) ""
          (env.clock (id_of env (material agent rule name pattern)))
          (env.accepted (id_of env (material agent rule name pattern))) service
          (OwnedBy-KeepsOwner _ agent rule name pattern
            (owned (material agent rule name pattern) configured))
          exact
