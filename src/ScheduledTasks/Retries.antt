-- ===== src/ScheduledTasks/Retries.antt =====
-- Upserts of a task whose first upsert the queue has failed.
use clawndom.Common.{
  String, Bool, true, Option, List, [], ◌∷◌, is_some, length, ◌≡◌, refl, sym, ap, ◌∙◌, arith,
}
use clawndom.Common.Result.{Result, ok, err}
use clawndom.ScheduledTasks.Task.{ScheduledTask, CreateScheduledTaskInput}
use clawndom.ScheduledTasks.Store.{get_by_id}
use clawndom.ScheduledTasks.Service.{Service, Dependencies, Readings}
use clawndom.ScheduledTasks.Upsert.{
  UpsertError, per_trace, future_window, invalid, queue_failed, task_id, upsert,
}
use clawndom.ScheduledTasks.Outcome.{Reported, upsert-Reported}

is_some-Reported :
    (deps : Dependencies) (id : String) (existing : Option ScheduledTask) (before : Service)
    (outcome : Service × Result UpsertError ScheduledTask)
    → Reported deps id existing before outcome
    → is_some existing ≡ true
    → length outcome.0.published ≡ length before.published
unfolding Reported
is_some-Reported deps id existing before (after, ok task) h there = ground (arith, h.2, there)
is_some-Reported deps id existing before (after, err queue_failed) h there = ap length h.1
is_some-Reported deps id existing before (after, err invalid) h there =
    ap (λ s. length s.published) h
is_some-Reported deps id existing before (after, err (per_trace limit observed)) h there =
    ap (λ s. length s.published) h
is_some-Reported deps id existing before (after, err (future_window limit observed)) h there =
    ap (λ s. length s.published) h

failed-Reported :
    (deps : Dependencies) (id : String) (existing : Option ScheduledTask) (before : Service)
    (outcome : Service × Result UpsertError ScheduledTask)
    → Reported deps id existing before outcome
    → outcome.1 ≡ err queue_failed
    → (is_some (get_by_id deps.codec id outcome.0.store) ≡ true)
      × (outcome.0.published ≡ before.published)
unfolding Reported
failed-Reported deps id existing before (after, ok task) h failed = absurd (cc failed)
failed-Reported deps id existing before (after, err queue_failed) h failed = h
failed-Reported deps id existing before (after, err invalid) h failed = absurd (cc failed)
failed-Reported deps id existing before (after, err (per_trace limit observed)) h failed =
    absurd (cc failed)
failed-Reported deps id existing before (after, err (future_window limit observed)) h failed =
    absurd (cc failed)

pub record Retry : Type 0 where
  pub input : CreateScheduledTaskInput
  pub fresh : String
  pub clock : Readings
  pub accepted : Bool

-- Upserts one after the other.
pub retry_all : Dependencies → List Retry → Service → Service
retry_all deps [] service = service
retry_all deps (retry ∷ retries) service =
    retry_all deps retries
      (upsert deps retry.input retry.fresh retry.clock retry.accepted service).0

-- Each of the upserts is of the task `id`.
abbrev pub AreOf : String → List Retry → Type 0
AreOf id [] = Unit
AreOf id (retry ∷ retries) = (task_id retry.input retry.fresh ≡ id) × AreOf id retries

-- A task that is stored stays so.
is_some-kept :
    (deps : Dependencies) (id : String) (existing : Option ScheduledTask) (before : Service)
    (outcome : Service × Result UpsertError ScheduledTask)
    → Reported deps id existing before outcome
    → is_some (get_by_id deps.codec id before.store) ≡ true
    → is_some (get_by_id deps.codec id outcome.0.store) ≡ true
unfolding Reported
is_some-kept deps id existing before (after, ok task) h there = ap is_some h.0
is_some-kept deps id existing before (after, err queue_failed) h there = h.0
is_some-kept deps id existing before (after, err invalid) h there =
    ap (λ s. is_some (get_by_id deps.codec id s.store)) h ∙ there
is_some-kept deps id existing before (after, err (per_trace limit observed)) h there =
    ap (λ s. is_some (get_by_id deps.codec id s.store)) h ∙ there
is_some-kept deps id existing before (after, err (future_window limit observed)) h there =
    ap (λ s. is_some (get_by_id deps.codec id s.store)) h ∙ there

retry_all-silent :
    (deps : Dependencies) (id : String) (retries : List Retry) (service : Service)
    → AreOf id retries
    → is_some (get_by_id deps.codec id service.store) ≡ true
    → length (retry_all deps retries service).published ≡ length service.published
unfolding retry_all
retry_all-silent deps id [] service same there = refl
retry_all-silent deps id (retry ∷ retries) service same there =
    let next = upsert deps retry.input retry.fresh retry.clock retry.accepted service in
    let here = ap (λ i. is_some (get_by_id deps.codec i service.store)) same.0 ∙ there in
    let reported =
      upsert-Reported deps retry.input retry.fresh retry.clock retry.accepted service in
    retry_all-silent deps id retries next.0 same.1 (
      ap (λ i. is_some (get_by_id deps.codec i next.0.store)) (sym same.0)
      ∙ is_some-kept deps (task_id retry.input retry.fresh) _ service next reported here)
    ∙ is_some-Reported deps (task_id retry.input retry.fresh) _ service next reported here

-- When the queue throws on an upsert, the task is stored and no event tells of it, and neither does any
-- of the upserts under the same id that follow, while nothing else is done in between: however many
-- they are and whatever their inputs and their outcomes, nothing is published.
pub upsert-queue_failed :
    (deps : Dependencies) (input : CreateScheduledTaskInput) (fresh : String) (clock : Readings)
    (accepted : Bool) (retries : List Retry) (service : Service)
    → (upsert deps input fresh clock accepted service).1 ≡ err queue_failed
    → AreOf (task_id input fresh) retries
    → let first = (upsert deps input fresh clock accepted service).0 in
      (is_some (get_by_id deps.codec (task_id input fresh) first.store) ≡ true)
      × (length (retry_all deps retries first).published ≡ length service.published)
upsert-queue_failed deps input fresh clock accepted retries service failed same =
    let first = upsert deps input fresh clock accepted service in
    let (there, silent) =
      failed-Reported deps (task_id input fresh) _ service first
        (upsert-Reported deps input fresh clock accepted service) failed in
    (
      there,
      retry_all-silent deps (task_id input fresh) retries first.0 same there ∙ ap length silent,
    )
