-- ===== src/ScheduledTasks/Exact.antt =====
-- The indexes of the store list exactly the tasks that it holds.
use clawndom.Common.{
  [], ℕ, String, Bool, true, false, ◌&&◌, ◌||◌, Option, none, some, ◌==◌, if◌then◌else◌, ◌≡◌, refl,
  sym, ap, ◌∙◌, arith, eq_iff, inl, inr, Bool-cases, get_or,
}
use mathlib.Core.Path.{subst}
use clawndom.Common.Dict.{get}
use clawndom.ScheduledTasks.Task.{ScheduledTask, Codec, is_valid}
use clawndom.ScheduledTasks.Store.{IndexKey, contains, Store, get_by_id, persist, remove_from_redis}
use clawndom.ScheduledTasks.Members.{belongs, contains-persist, contains-remove}
use clawndom.ScheduledTasks.Lookups.{
  score_of, get_by_id-persist, get_by_id-remove, score_of-persist, score_of-remove,
}

-- What the indexes should say of an id, by the task that the store has under it.
abbrev pub listed : IndexKey → Option ScheduledTask → Bool
listed k none = false
listed k (some task) = belongs k task

abbrev pub fire_time : Option ScheduledTask → Option ℕ
fire_time none = none
fire_time (some task) = task.next_fire_at

pub record IsExact (codec : Codec) (store : Store) : Type 0 where
  pub members :
      (k : IndexKey) (id : String)
      → contains id (store.sets k) ≡ listed k (get_by_id codec id store)
  pub scores : (id : String) → score_of id store.by_next_fire ≡ fire_time (get_by_id codec id store)
  pub named :
      (id : String) (task : ScheduledTask)
      → get_by_id codec id store ≡ some task
      → (task.id ≡ id) × (is_valid codec task ≡ true)

-- The task that takes the place of another is in the indexes of that one.
unfoldable pub Covers : Option ScheduledTask → ScheduledTask → Type 0
Covers existing task = (k : IndexKey) → listed k existing ≡ true → belongs k task ≡ true

covered : (b c l : Bool) → c ≡ l → (l ≡ true → b ≡ true) → b && true || c ≡ b
covered true c l h covers = refl
covered false c true h covers = h ∙ sym (covers refl)
covered false c false h covers = h

some_injective : (a b : ScheduledTask) → some a ≡ some b → a ≡ b
some_injective a b h = ap (λ o. get_or o a) h

choose {ℓ} :
    {P : Type ℓ} (b : Bool) (taken rest : Option ScheduledTask) (found : ScheduledTask)
    → (if b then taken else rest) ≡ some found
    → (b ≡ true → taken ≡ some found → P)
    → (b ≡ false → rest ≡ some found → P)
    → P
choose true taken rest found h here there = here refl h
choose false taken rest found h here there = there refl h

module _ (codec : Codec) (task : ScheduledTask) (store : Store) (exact : IsExact codec store) where
  pub IsExact-persist :
      is_valid codec task ≡ true
      → Covers (get_by_id codec task.id store) task
      → IsExact codec (persist codec task store)
  unfolding Covers
  IsExact-persist valid covers = record {
    members = λ k id. elim (Bool-cases (task.id == id)) [
      | inl e ↦
          contains-persist codec task store k id
          ∙ rw (get_by_id-persist codec task store id valid, e)
              (covered (belongs k task) (contains id (store.sets k))
                (listed k (get_by_id codec id store)) (exact.members k id)
                (subst (λ i. listed k (get_by_id codec i store) ≡ true → belongs k task ≡ true)
                  ((eq_iff task.id id).0 e) (covers k)))
      | inr e ↦
          contains-persist codec task store k id
          ∙ rw (get_by_id-persist codec task store id valid, e) (ground (arith, exact.members k id))
    ];
    scores = λ id. elim (Bool-cases (task.id == id)) [
      | inl e ↦
          score_of-persist codec task store id ∙ rw (get_by_id-persist codec task store id valid, e)
      | inr e ↦
          score_of-persist codec task store id
          ∙ rw (get_by_id-persist codec task store id valid, e) (exact.scores id)
    ];
    named = λ id found h.
        choose (task.id == id) (some task) (get_by_id codec id store) found
          (sym (get_by_id-persist codec task store id valid) ∙ h)
          (λ e here.
            subst (λ t. (t.id ≡ id) × (is_valid codec t ≡ true)) (some_injective task found here)
              ((eq_iff task.id id).0 e, valid))
          (λ e there. exact.named id found there);
  }

  pub IsExact-remove :
      get_by_id codec task.id store ≡ some task → IsExact codec (remove_from_redis task store)
  IsExact-remove held = record {
    members = λ k id. elim (Bool-cases (task.id == id)) [
      | inl e ↦
          contains-remove task store k id
          ∙ rw (get_by_id-remove codec task store id, e)
              (ground (arith, exact.members k task.id, held, (eq_iff task.id id).0 e))
      | inr e ↦
          contains-remove task store k id
          ∙ rw (get_by_id-remove codec task store id, e) (ground (arith, exact.members k id))
    ];
    scores = λ id. elim (Bool-cases (task.id == id)) [
      | inl e ↦ score_of-remove task store id ∙ rw (get_by_id-remove codec task store id, e)
      | inr e ↦
          score_of-remove task store id
          ∙ rw (get_by_id-remove codec task store id, e) (exact.scores id)
    ];
    named = λ id found h.
        choose (task.id == id) none (get_by_id codec id store) found
          (sym (get_by_id-remove codec task store id) ∙ h) (λ e here. absurd (cc here))
          (λ e there. exact.named id found there);
  }

-- A registry that starts with an empty Redis.
abbrev pub empty_store : Store
empty_store = record { records = []; sets = λ key. []; by_next_fire = [] }

pub empty_store-IsExact : (codec : Codec) → IsExact codec empty_store
unfolding get_by_id contains score_of get
empty_store-IsExact codec = record {
  members = λ k id. refl;
  scores = λ id. refl;
  named = λ id task h. absurd (cc h);
}
