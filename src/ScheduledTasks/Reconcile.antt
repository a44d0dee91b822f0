-- ===== src/ScheduledTasks/Reconcile.antt =====
-- What the pass over the configuration removes, and what it keeps.
use mathlib.Core.Path.{subst}
use clawndom.Common.{
  ℕ, String, Bool, false, not, ◌&&◌, Option, none, some, List, [], ◌∷◌, ◌==◌, if◌then◌else◌, filter,
  ◌≡◌, refl, ◌∙◌, arith, eq_iff, eq_refl, inl, inr, Bool-cases,
}
use clawndom.ScheduledTasks.Task.{
  ScheduledTask, ScheduledTaskCancelledReason, config, config_reconcile,
}
use clawndom.ScheduledTasks.Store.{by_created_by, contains, get_by_id}
use clawndom.ScheduledTasks.Service.{Service, Dependencies}
use clawndom.ScheduledTasks.Removal.{
  discard, delete, delete_found, delete_orphans, reconcile_config,
}
use clawndom.ScheduledTasks.Members.{contains-filter}
use clawndom.ScheduledTasks.Lookups.{get_by_id-remove}
use clawndom.ScheduledTasks.Exact.{listed, IsExact}
use clawndom.ScheduledTasks.Steps.{delete-IsExact, reconcile_config-IsExact}

module _ (deps : Dependencies) where
  get_by_id-delete_found :
      (id : String) (reason : ScheduledTaskCancelledReason) (trace_id : Option String) (now : ℕ)
      (existing : Option ScheduledTask) (service : Service) (j : String)
      → get_by_id deps.codec id service.store ≡ existing
      → IsExact deps.codec service.store
      → get_by_id deps.codec j (delete_found id reason trace_id now existing service).0.store
        ≡ (if id == j then none else get_by_id deps.codec j service.store)
  unfolding delete_found discard
  get_by_id-delete_found id reason trace_id now none service j h exact =
      elim (Bool-cases (id == j)) [
        | inl e ↦
            rw e (subst (λ i. get_by_id deps.codec i service.store ≡ none) ((eq_iff id j).0 e) h)
        | inr e ↦ rw e refl
      ]
  get_by_id-delete_found id reason trace_id now (some task) service j h exact =
      get_by_id-remove deps.codec task service.store j ∙ rw (exact.named id task h).0 refl

  pub get_by_id-delete :
      (id : String) (reason : ScheduledTaskCancelledReason) (trace_id : Option String) (now : ℕ)
      (service : Service) (j : String)
      → IsExact deps.codec service.store
      → get_by_id deps.codec j (delete deps id reason trace_id now service).0.store
        ≡ (if id == j then none else get_by_id deps.codec j service.store)
  unfolding delete
  get_by_id-delete id reason trace_id now service j exact =
      get_by_id-delete_found id reason trace_id now (get_by_id deps.codec id service.store) service
        j refl exact

  get_by_id-delete_orphans :
      (now : ℕ) (ids : List String) (service : Service) (j : String)
      → IsExact deps.codec service.store
      → get_by_id deps.codec j (delete_orphans deps now ids service).store
        ≡ (if contains j ids then none else get_by_id deps.codec j service.store)
  unfolding delete_orphans contains
  get_by_id-delete_orphans now [] service j exact = refl
  get_by_id-delete_orphans now (id ∷ ids) service j exact =
      get_by_id-delete_orphans now ids (delete deps id config_reconcile none now service).0 j
        (delete-IsExact deps id config_reconcile none now service exact)
      ∙ ground (arith, get_by_id-delete id config_reconcile none now service j exact)

  nothing_contained : (ids : List String) → ((id : String) → contains id ids ≡ false) → ids ≡ []
  unfolding contains
  nothing_contained [] h = refl
  nothing_contained (id ∷ ids) h = absurd (ground (arith, h id, eq_refl id))

  abbrev pub is_orphan : List String → String → Service → Bool
  is_orphan loaded_ids id service =
      listed (by_created_by config) (get_by_id deps.codec id service.store)
      && not (contains id loaded_ids)

  contains-orphans :
      (now : ℕ) (loaded_ids : List String) (service : Service) (id : String)
      → IsExact deps.codec service.store
      → contains id (reconcile_config deps now loaded_ids service).1
        ≡ is_orphan loaded_ids id service
  unfolding reconcile_config
  contains-orphans now loaded_ids service id exact =
      contains-filter (λ j. not (contains j loaded_ids)) id
        (service.store.sets (by_created_by config))
      ∙ rw (exact.members (by_created_by config) id) refl

  reconciled-orphans :
      (now : ℕ) (loaded_ids : List String) (service : Service) (id : String)
      → IsExact deps.codec service.store
      → get_by_id deps.codec id (reconcile_config deps now loaded_ids service).0.store ≡ (
          if contains id (reconcile_config deps now loaded_ids service).1
          then none
          else get_by_id deps.codec id service.store)
  unfolding reconcile_config
  reconciled-orphans now loaded_ids service id exact =
      get_by_id-delete_orphans now
        (filter (λ j. not (contains j loaded_ids)) (service.store.sets (by_created_by config)))
        service id exact

  pub get_by_id-reconcile_config :
      (now : ℕ) (loaded_ids : List String) (service : Service) (id : String)
      → IsExact deps.codec service.store
      → get_by_id deps.codec id (reconcile_config deps now loaded_ids service).0.store
        ≡ (if is_orphan loaded_ids id service then none else get_by_id deps.codec id service.store)
  get_by_id-reconcile_config now loaded_ids service id exact =
      reconciled-orphans now loaded_ids service id exact
      ∙ rw (contains-orphans now loaded_ids service id exact)

  listed-removed :
      (o : Option ScheduledTask) (kept : Bool)
      → listed
            (by_created_by config)
            (if listed (by_created_by config) o && not kept then none else o)
          && not kept
        ≡ false
  listed-removed o kept = elim (Bool-cases (listed (by_created_by config) o && not kept)) [
    | inl e ↦ rw e refl
    | inr e ↦ rw e e
  ]

  -- With exact indexes, reconciling with the ids that the configuration has just produced removes
  -- the tasks that the configuration had created and no longer has; every other task, above all
  -- every task of an agent, is found afterwards as it was before. The ids returned are those
  -- removed, and a second pass with the same ids has nothing to remove.
  pub reconcile_config-get :
      (now : ℕ) (loaded_ids : List String) (service : Service)
      → IsExact deps.codec service.store
      → ((id : String)
          → (get_by_id deps.codec id (reconcile_config deps now loaded_ids service).0.store ≡ (
              if listed (by_created_by config) (get_by_id deps.codec id service.store)
                && not (contains id loaded_ids)
              then none
              else get_by_id deps.codec id service.store))
            × (contains id (reconcile_config deps now loaded_ids service).1
                ≡ listed (by_created_by config) (get_by_id deps.codec id service.store)
                  && not (contains id loaded_ids)))
        × ((later : ℕ)
            → (reconcile_config deps later loaded_ids
                (reconcile_config deps now loaded_ids service).0).1
              ≡ [])
  reconcile_config-get now loaded_ids service exact = (
    λ id. (
      get_by_id-reconcile_config now loaded_ids service id exact,
      contains-orphans now loaded_ids service id exact,
    ),
    λ later. nothing_contained _ λ id.
        contains-orphans later loaded_ids (reconcile_config deps now loaded_ids service).0 id
          (reconcile_config-IsExact deps now loaded_ids service exact)
        ∙ rw (get_by_id-reconcile_config now loaded_ids service id exact)
            (listed-removed (get_by_id deps.codec id service.store) (contains id loaded_ids)),
  )
