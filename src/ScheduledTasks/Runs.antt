-- ===== src/ScheduledTasks/Runs.antt =====
-- What one request does to a task with a limit on its runs.
use mathlib.Core.Path.{subst}
use clawndom.Common.{
  ℕ, ◌-◌, ◌≤◌, String, Bool, true, false, Option, none, some, ◌==◌, if◌then◌else◌, ◌≡◌, ◌⊎◌, refl,
  sym, ap, ◌∙◌, arith, eq_refl, inl, inr,
}
use clawndom.ScheduledTasks.Task.{
  ScheduledTask, ScheduledTaskWhen, cron, fire_at, ScheduledTaskExpiredReason,
  CreateScheduledTaskInput, is_valid,
}
use clawndom.ScheduledTasks.Store.{Store, get_by_id, persist, remove_from_redis}
use clawndom.ScheduledTasks.Service.{Service, Dependencies, Readings, compute_next_fire}
use clawndom.ScheduledTasks.Upsert.{UpsertError, task_id, upsert, build_task}
use clawndom.ScheduledTasks.Removal.{discard}
use clawndom.ScheduledTasks.Firing.{
  FireInput, FireResult, record_fire, fire_found, fire_unless, advance, after_fire, check_expired,
  check_max_runs,
}
use clawndom.ScheduledTasks.Lookups.{get_by_id-persist, get_by_id-remove}
use clawndom.ScheduledTasks.Exact.{IsExact}
use clawndom.ScheduledTasks.Steps.{Upserted, unchanged, persisted, built, upsert-Upserted}

module _ (deps : Dependencies) (id : String) where
  -- The task is gone, or has at most `left` runs left.
  unfoldable pub HasLeft : ℕ → Option ScheduledTask → Type 0
  HasLeft left none = Unit
  HasLeft left (some task) =
      (limit : ℕ) × (task.max_runs ≡ some limit) × (limit - task.run_count ≤ left)

  pub HasLeft-if :
      (left : ℕ) (b : Bool) (o : Option ScheduledTask)
      → HasLeft left o
      → HasLeft left (if b then none else o)
  unfolding HasLeft
  HasLeft-if left true o h = tt
  HasLeft-if left false o h = h

  abbrev pub found : Service → Option ScheduledTask
  found service = get_by_id deps.codec id service.store

  -- What a delivery comes to: the task fires and uses up a run, or it is gone.
  unfoldable pub Delivered : ℕ → Service × FireResult → Type 0
  Delivered left outcome =
      ((outcome.1.should_fire ≡ true) × (1 ≤ left) × HasLeft (left - 1) (found outcome.0))
      ⊎ ((outcome.1.should_fire ≡ false) × (found outcome.0 ≡ none))

  pub found-remove :
      (task : ScheduledTask) (store : Store)
      → task.id ≡ id
      → get_by_id deps.codec id (remove_from_redis task store) ≡ none
  found-remove task store e = get_by_id-remove deps.codec task store id ∙ rw (e, eq_refl id) refl

  found-persist :
      (task : ScheduledTask) (store : Store)
      → task.id ≡ id
      → is_valid deps.codec task ≡ true
      → get_by_id deps.codec id (persist deps.codec task store) ≡ some task
  found-persist task store e valid =
      get_by_id-persist deps.codec task store id valid ∙ rw (e, eq_refl id) refl

  after_fire-HasLeft :
      (task : ScheduledTask) (when : ScheduledTaskWhen) (now : ℕ) (store : Store) (left : ℕ)
      → task.id ≡ id
      → is_valid deps.codec task ≡ true
      → HasLeft left (some task)
      → HasLeft (left - 1) (get_by_id deps.codec id (after_fire deps task when now store))
  unfolding after_fire HasLeft is_valid
  after_fire-HasLeft task (fire_at time) now store left e valid has =
      subst (HasLeft (left - 1)) (sym (found-remove task store e)) tt
  after_fire-HasLeft task (cron pattern timezone) now store left e valid has =
      let next = advance task (compute_next_fire deps (cron pattern timezone) now) in
      let (limit, limited, fits) = has in
      subst (HasLeft (left - 1)) (sym (found-persist next store e valid))
        (limit, limited, omega arith)

  run_left :
      (limits : Option ℕ) (run_count limit left : ℕ)
      → limits ≡ some limit
      → check_max_runs limits run_count ≡ false
      → limit - run_count ≤ left
      → 1 ≤ left
  unfolding check_max_runs
  run_left none run_count limit left e h fits = absurd (cc e)
  run_left (some m) run_count limit left e h fits = ground (arith, e, h, fits)

  not_expired :
      (task : ScheduledTask) (now : ℕ)
      → check_expired task now ≡ none
      → check_max_runs task.max_runs task.run_count ≡ false
  unfolding check_expired
  not_expired task now h = ground (arith, h)

  fire_unless-Delivered :
      (input : FireInput) (task : ScheduledTask) (now left : ℕ)
      (reason : Option ScheduledTaskExpiredReason) (service : Service)
      → task.id ≡ id
      → is_valid deps.codec task ≡ true
      → check_expired task now ≡ reason
      → HasLeft left (some task)
      → Delivered left (fire_unless deps input task now reason service)
  unfolding fire_unless discard Delivered HasLeft
  fire_unless-Delivered input task now left (some reason) service e valid h has =
      inr (refl, found-remove task service.store e)
  fire_unless-Delivered input task now left none service e valid h has =
      let (limit, limited, fits) = has in
      inl (
        refl,
        run_left task.max_runs task.run_count limit left limited (not_expired task now h) fits,
        after_fire-HasLeft task task.when now service.store left e valid has,
      )

  fire_found-Delivered :
      (input : FireInput) (now left : ℕ) (existing : Option ScheduledTask) (service : Service)
      → found service ≡ existing
      → IsExact deps.codec service.store
      → HasLeft left existing
      → Delivered left (fire_found deps input now existing service)
  unfolding fire_found Delivered
  fire_found-Delivered input now left none service h exact has = inr (refl, h)
  fire_found-Delivered input now left (some task) service h exact has =
      fire_unless-Delivered input task now left (check_expired task now) service
        (exact.named id task h).0 (exact.named id task h).1 refl has

  pub record_fire-Delivered :
      (input : FireInput) (now left : ℕ) (service : Service)
      → input.id ≡ id
      → IsExact deps.codec service.store
      → HasLeft left (found service)
      → Delivered left (record_fire deps input now service)
  unfolding record_fire
  record_fire-Delivered input now left service e exact has =
      let same = ap (λ i. get_by_id deps.codec i service.store) e in
      fire_found-Delivered input now left (get_by_id deps.codec input.id service.store) service
        (sym same) exact (subst (HasLeft left) (sym same) has)

  -- The other requests leave the task as it is, or remove it.
  Upserted-same :
      (refusal : Option UpsertError) (task : ScheduledTask) (before after : Store)
      → (task.id == id) ≡ false
      → Upserted deps refusal task before after
      → get_by_id deps.codec id after ≡ get_by_id deps.codec id before
  Upserted-same refusal task before after e (unchanged same) = ap (get_by_id deps.codec id) same
  Upserted-same refusal task before after e (persisted passed valid same) =
      ap (get_by_id deps.codec id) same
      ∙ get_by_id-persist deps.codec task before id valid
      ∙ rw e refl

  pub upsert-same :
      (input : CreateScheduledTaskInput) (fresh : String) (clock : Readings) (accepted : Bool)
      (service : Service)
      → (task_id input fresh == id) ≡ false
      → found (upsert deps input fresh clock accepted service).0 ≡ found service
  unfolding built build_task
  upsert-same input fresh clock accepted service e =
      Upserted-same _ (built deps input fresh clock service) service.store _ e
        (upsert-Upserted deps input fresh clock accepted service)

  after_fire-same :
      (task : ScheduledTask) (when : ScheduledTaskWhen) (now : ℕ) (store : Store)
      → (task.id == id) ≡ false
      → is_valid deps.codec task ≡ true
      → get_by_id deps.codec id (after_fire deps task when now store)
        ≡ get_by_id deps.codec id store
  unfolding after_fire is_valid
  after_fire-same task (fire_at time) now store e valid =
      get_by_id-remove deps.codec task store id ∙ rw e refl
  after_fire-same task (cron pattern timezone) now store e valid =
      get_by_id-persist deps.codec
        (advance task (compute_next_fire deps (cron pattern timezone) now)) store id valid
      ∙ rw e refl

  fire_unless-same :
      (input : FireInput) (task : ScheduledTask) (now : ℕ)
      (reason : Option ScheduledTaskExpiredReason) (service : Service)
      → (task.id == id) ≡ false
      → is_valid deps.codec task ≡ true
      → found (fire_unless deps input task now reason service).0 ≡ found service
  unfolding fire_unless discard
  fire_unless-same input task now (some reason) service e valid =
      get_by_id-remove deps.codec task service.store id ∙ rw e refl
  fire_unless-same input task now none service e valid =
      after_fire-same task task.when now service.store e valid

  pub fire_found-same :
      (input : FireInput) (now : ℕ) (existing : Option ScheduledTask) (service : Service)
      → (input.id == id) ≡ false
      → get_by_id deps.codec input.id service.store ≡ existing
      → IsExact deps.codec service.store
      → found (fire_found deps input now existing service).0 ≡ found service
  unfolding fire_found
  fire_found-same input now none service e h exact = refl
  fire_found-same input now (some task) service e h exact =
      fire_unless-same input task now (check_expired task now) service
        (ap (λ i. i == id) (exact.named input.id task h).0 ∙ e) (exact.named input.id task h).1
