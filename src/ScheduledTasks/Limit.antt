-- ===== src/ScheduledTasks/Limit.antt =====
-- How often a task with a limit on its runs fires.
use mathlib.Core.Path.{subst}
use clawndom.Common.{
  ℕ, suc, ◌-◌, ◌≤◌, ◌<◌, String, Bool, true, false, ◌&&◌, none, List, [], ◌∷◌, ◌==◌, if◌then◌else◌,
  ◌≡◌, ◌⊎◌, refl, sym, ◌∙◌, arith, eq_iff, inl, inr, Bool-cases,
}
use clawndom.ScheduledTasks.Service.{Service, Dependencies}
use clawndom.ScheduledTasks.Upsert.{task_id}
use clawndom.ScheduledTasks.Removal.{reconcile_config}
use clawndom.ScheduledTasks.Firing.{FireInput, record_fire, fire_found}
use clawndom.ScheduledTasks.Exact.{IsExact}
use clawndom.ScheduledTasks.Reconcile.{get_by_id-delete, get_by_id-reconcile_config, is_orphan}
use clawndom.ScheduledTasks.History.{
  Request, upserting, deleting, firing, reconciling, perform, run, OwnersKept, perform-IsExact,
}
use clawndom.ScheduledTasks.Runs.{
  HasLeft, HasLeft-if, found, Delivered, record_fire-Delivered, upsert-same, fire_found-same,
}

module _ (deps : Dependencies) (id : String) where
  -- The request is a delivery of the task, and it fires.
  unfoldable pub fires : Request → Service → Bool
  fires (firing input now) service =
      input.id == id && (record_fire deps input now service).1.should_fire
  fires _ service = false

  unfoldable pub count_fires : List Request → Service → ℕ
  unfolding fires
  count_fires [] service = 0
  count_fires (request ∷ requests) service =
      let rest = count_fires requests (perform deps request service) in
      if fires request service then suc rest else rest

  unfoldable pub is_delivery : Request → Bool
  is_delivery (firing input now) = input.id == id
  is_delivery _ = false

  unfoldable pub count_deliveries : List Request → ℕ
  unfolding is_delivery
  count_deliveries [] = 0
  count_deliveries (request ∷ requests) =
      let rest = count_deliveries requests in if is_delivery request then suc rest else rest

  -- No request creates or overwrites the task.
  abbrev pub NotUpserted : List Request → Type 0
  NotUpserted [] = Unit
  NotUpserted (upserting input fresh clock accepted ∷ requests) =
      ((task_id input fresh == id) ≡ false) × NotUpserted requests
  NotUpserted (deleting i reason trace_id now ∷ requests) = NotUpserted requests
  NotUpserted (firing input now ∷ requests) = NotUpserted requests
  NotUpserted (reconciling now loaded_ids ∷ requests) = NotUpserted requests

  -- What a request does: it uses up as many runs as it fires, a delivery uses up a run or finds the
  -- task gone, and a task that is gone stays away.
  record Effect (left : ℕ) (request : Request) (service : Service) : Type 0 where
    after : ℕ
    has : HasLeft deps id after (found deps id (perform deps request service))
    paid : (if fires request service then suc after else after) ≤ left
    used :
        is_delivery request ≡ true
        → (found deps id (perform deps request service) ≡ none) ⊎ (after < left)
    away : found deps id service ≡ none → found deps id (perform deps request service) ≡ none

  delivered_away :
      (input : FireInput) (now : ℕ) (service : Service)
      → input.id ≡ id
      → IsExact deps.codec service.store
      → found deps id service ≡ none
      → found deps id (record_fire deps input now service).0 ≡ none
  unfolding Delivered HasLeft
  delivered_away input now service e exact missing =
      elim (record_fire-Delivered deps id input now 0 service e exact
        (subst (HasLeft deps id 0) (sym missing) tt)) [
          | inl (fired, positive, rest) ↦ absurd (omega arith)
          | inr (silent, gone) ↦ gone
        ]

  Delivered-Effect :
      (input : FireInput) (now left : ℕ) (service : Service)
      → (input.id == id) ≡ true
      → IsExact deps.codec service.store
      → HasLeft deps id left (found deps id service)
      → Effect left (firing input now) service
  unfolding Delivered fires is_delivery perform HasLeft
  Delivered-Effect input now left service e exact has =
      let same = (eq_iff input.id id).0 e in
      elim (record_fire-Delivered deps id input now left service same exact has) [
        | inl (fired, positive, rest) ↦ record {
          after = left - 1;
          has = rest;
          paid = ground (arith, fired, e, positive);
          used = λ _. inr (omega arith);
          away = delivered_away input now service same exact;
        }
        | inr (silent, gone) ↦ record {
          after = 0;
          has = subst (HasLeft deps id 0) (sym gone) tt;
          paid = ground (arith, silent, e);
          used = λ _. inl gone;
          away = λ _. gone;
        }
      ]

  Same-Effect :
      (request : Request) (left : ℕ) (service : Service)
      → is_delivery request ≡ false
      → fires request service ≡ false
      → found deps id (perform deps request service) ≡ found deps id service
      → HasLeft deps id left (found deps id service)
      → Effect left request service
  Same-Effect request left service other silent same has = record {
    after = left;
    has = subst (HasLeft deps id left) (sym same) has;
    paid = ground (arith, silent);
    used = λ h. absurd (cc (other, h));
    away = λ h. same ∙ h;
  }

  Removed-Effect :
      (request : Request) (left : ℕ) (b : Bool) (service : Service)
      → is_delivery request ≡ false
      → fires request service ≡ false
      → found deps id (perform deps request service) ≡ (if b then none else found deps id service)
      → HasLeft deps id left (found deps id service)
      → Effect left request service
  Removed-Effect request left b service other silent same has = record {
    after = left;
    has = subst (HasLeft deps id left) (sym same) (HasLeft-if deps id left b _ has);
    paid = ground (arith, silent);
    used = λ h. absurd (cc (other, h));
    away = λ h. same ∙ elim (Bool-cases b) [ inl e ↦ rw e refl | inr e ↦ rw e h ];
  }

  perform-Effect :
      (request : Request) (rest : List Request) (left : ℕ) (service : Service)
      → NotUpserted (request ∷ rest)
      → IsExact deps.codec service.store
      → HasLeft deps id left (found deps id service)
      → Effect left request service
  unfolding perform fires is_delivery reconcile_config record_fire fire_found
  perform-Effect (upserting input fresh clock accepted) rest left service fixed exact has =
      Same-Effect (upserting input fresh clock accepted) left service refl refl
        (upsert-same deps id input fresh clock accepted service fixed.0) has
  perform-Effect (deleting i reason trace_id now) rest left service fixed exact has =
      Removed-Effect (deleting i reason trace_id now) left (i == id) service refl refl
        (get_by_id-delete deps i reason trace_id now service id exact) has
  perform-Effect (firing input now) rest left service fixed exact has =
      elim (Bool-cases (input.id == id)) [
        | inl e ↦ Delivered-Effect input now left service e exact has
        | inr e ↦
            Same-Effect (firing input now) left service e (rw e refl)
              (fire_found-same deps id input now _ service e refl exact) has
      ]
  perform-Effect (reconciling now loaded_ids) rest left service fixed exact has =
      Removed-Effect (reconciling now loaded_ids) left (is_orphan deps loaded_ids id service)
        service refl refl (get_by_id-reconcile_config deps now loaded_ids service id exact) has

  NotUpserted-tail :
      (request : Request) (rest : List Request) → NotUpserted (request ∷ rest) → NotUpserted rest
  NotUpserted-tail (upserting input fresh clock accepted) rest h = h.1
  NotUpserted-tail (deleting i reason trace_id now) rest h = h
  NotUpserted-tail (firing input now) rest h = h
  NotUpserted-tail (reconciling now loaded_ids) rest h = h

  run_away :
      (requests : List Request) (service : Service)
      → NotUpserted requests
      → OwnersKept deps requests service
      → IsExact deps.codec service.store
      → found deps id service ≡ none
      → found deps id (run deps requests service) ≡ none
  unfolding run HasLeft
  run_away [] service fixed kept exact missing = missing
  run_away (request ∷ rest) service fixed kept exact missing =
      let effect =
        perform-Effect request rest 0 service fixed exact
          (subst (HasLeft deps id 0) (sym missing) tt) in
      run_away rest (perform deps request service) (NotUpserted-tail request rest fixed) kept.1
        (perform-IsExact deps request service kept.0 exact) (effect.away missing)

  -- Requests one after the other from a registry with exact indexes, each keeping the owner of a task
  -- that it overwrites and none of them an upsert of the task `id`, which is there with a limit on
  -- its runs or is not there: while it has `left` runs left, it fires at most `left` times, whatever
  -- the deliveries; and after more deliveries than that it is gone from the registry.
  pub run-HasLeft :
      (requests : List Request) (left : ℕ) (service : Service)
      → NotUpserted requests
      → OwnersKept deps requests service
      → IsExact deps.codec service.store
      → HasLeft deps id left (found deps id service)
      → (count_fires requests service ≤ left)
        × (left < count_deliveries requests → found deps id (run deps requests service) ≡ none)
  unfolding run count_fires count_deliveries
  run-HasLeft [] left service fixed kept exact has = (omega arith, λ more. absurd (omega arith))
  run-HasLeft (request ∷ rest) left service fixed kept exact has =
      let effect = perform-Effect request rest left service fixed exact has in
      let next = perform deps request service in
      let fixed_rest = NotUpserted-tail request rest fixed in
      let exact_next = perform-IsExact deps request service kept.0 exact in
      let (bounded, gone) =
        run-HasLeft rest effect.after next fixed_rest kept.1 exact_next effect.has in
      (
        ground (arith, effect.paid, bounded),
        λ more. elim (Bool-cases (is_delivery request)) [
          | inl e ↦ elim (effect.used e) [
            | inl missing ↦ run_away rest next fixed_rest kept.1 exact_next missing
            | inr less ↦ gone (ground (arith, e, more, less))
          ]
          | inr e ↦ gone (ground (arith, e, more, effect.paid))
        ],
      )
