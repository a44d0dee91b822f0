-- ===== src/ScheduledTasks/Load.antt =====
-- The number of the tasks of a trace, and what the cap lets pass.
use clawndom.Common.{
  ℕ, suc, ◌≤◌, ◌<◌, String, Bool, true, false, not, ◌&&◌, Option, none, some, List, [], ◌∷◌, ◌==◌,
  if◌then◌else◌, ◌≡◌, ◌⊎◌, refl, ap, arith, eq_iff, inl, inr, filter, length, length-append,
}
use clawndom.ScheduledTasks.Task.{
  ScheduledTask, ScheduledTaskCreatedBy, config, agent, ScheduledTaskCaps, CreateScheduledTaskInput,
  Codec,
}
use clawndom.ScheduledTasks.Store.{
  Sets, all_ids, by_created_by, by_agent, by_trace, same_key, contains, sadd, srem, sadd_trace,
  srem_trace, Store, persist, remove_from_redis,
}
use clawndom.ScheduledTasks.Service.{Dependencies}
use clawndom.ScheduledTasks.Upsert.{UpsertError, gate, enforce_caps, check_per_trace, first_error}
use clawndom.ScheduledTasks.Members.{traced, belongs}
use clawndom.ScheduledTasks.Exact.{listed}
use clawndom.ScheduledTasks.Steps.{KeepsOwner}

length-filter {ℓ} : {A : Type ℓ} (p : A → Bool) (xs : List A) → length (filter p xs) ≤ length xs
length-filter p [] = omega arith
length-filter p (x ∷ xs) = ground (arith, length-filter p xs)

pub creator-cases : (c : ScheduledTaskCreatedBy) → (c ≡ config) ⊎ (c ≡ agent)
creator-cases config = inl refl
creator-cases agent = inr refl

module _ (trace : String) where
  abbrev pub load : Store → ℕ
  load store = length (store.sets (by_trace trace))

  sadd_trace-length :
      (text : Option String) (id : String) (sets : Sets)
      → length (sadd_trace text id sets (by_trace trace)) ≤ (
          if traced text trace && not (contains id (sets (by_trace trace)))
          then suc (length (sets (by_trace trace)))
          else length (sets (by_trace trace)))
  unfolding sadd_trace traced sadd same_key
  sadd_trace-length none id sets = omega arith
  sadd_trace-length (some text) id sets =
      ground (arith, length-append (sets (by_trace trace)) (id ∷ []))

  srem_trace-length :
      (text : Option String) (id : String) (sets : Sets)
      → length (srem_trace text id sets (by_trace trace)) ≤ length (sets (by_trace trace))
  unfolding srem_trace srem same_key
  srem_trace-length none id sets = omega arith
  srem_trace-length (some text) id sets =
      ground (arith, length-filter (λ x. not (x == id)) (sets (by_trace trace)))

  pub load-persist :
      (codec : Codec) (task : ScheduledTask) (store : Store)
      → load (persist codec task store) ≤ (
          if traced task.created_by_trace_id trace
            && not (contains task.id (store.sets (by_trace trace)))
          then suc (load store)
          else load store)
  unfolding persist sadd same_key
  load-persist codec task store =
      let shared = sadd all_ids task.id store.sets in
      let created = sadd (by_created_by task.created_by) task.id shared in
      let owned = sadd (by_agent task.agent_id) task.id created in
      sadd_trace-length task.created_by_trace_id task.id owned

  pub load-remove :
      (task : ScheduledTask) (store : Store) → load (remove_from_redis task store) ≤ load store
  unfolding remove_from_redis srem same_key
  load-remove task store =
      let shared = srem all_ids task.id store.sets in
      let created = srem (by_created_by task.created_by) task.id shared in
      let owned = srem (by_agent task.agent_id) task.id created in
      srem_trace-length task.created_by_trace_id task.id owned

  -- What the cap lets pass.
  check_per_trace-passed :
      (caps : ScheduledTaskCaps) (text : Option String) (sets : Sets)
      → 0 < caps.max_per_trace
      → traced text trace ≡ true
      → check_per_trace caps text sets ≡ none
      → length (sets (by_trace trace)) < caps.max_per_trace
  unfolding check_per_trace traced
  check_per_trace-passed caps none sets positive named passed = absurd (cc named)
  check_per_trace-passed caps (some text) sets positive named passed =
      ground (arith, eq_iff text trace, named, passed, positive)

  first_passed : (o later : Option UpsertError) → first_error o later ≡ none → o ≡ none
  first_passed none later h = refl
  first_passed (some e) later h = absurd (cc h)

  pub gate-passed :
      (deps : Dependencies) (caps : ScheduledTaskCaps) (input : CreateScheduledTaskInput)
      (existing : Option ScheduledTask) (now : ℕ) (sets : Sets)
      → deps.caps ≡ some caps
      → 0 < caps.max_per_trace
      → KeepsOwner existing input
      → (input.created_by ≡ config → traced input.created_by_trace_id trace ≡ false)
      → traced input.created_by_trace_id trace ≡ true
      → listed (by_trace trace) existing ≡ false
      → gate deps input existing now sets ≡ none
      → length (sets (by_trace trace)) < caps.max_per_trace
  unfolding gate enforce_caps belongs
  gate-passed deps caps input (some task) now sets capped positive keeps untraced named fresh
        passed =
      absurd (cc (ap (λ o. traced o trace) keeps.2, named, fresh))
  gate-passed deps caps input none now sets capped positive keeps untraced named fresh passed =
      elim (creator-cases input.created_by) [
        | inl e ↦ absurd (cc (untraced e, named))
        | inr e ↦
            check_per_trace-passed caps input.created_by_trace_id sets positive named
              (first_passed _ _ (rw (e, capped) at passed))
      ]
