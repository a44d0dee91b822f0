-- ===== src/ScheduledTasks/Filters.antt =====
-- The list of tasks has the tasks that pass the filters.
use clawndom.Common.{
  all-append, String, Bool, true, false, not, ◌&&◌, ◌||◌, Option, none, some, List, [], ◌∷◌, ◌++◌,
  is_some, if◌then◌else◌, filter, all, ◌==◌, ◌≡◌, refl, ◌∙◌, arith,
}
use clawndom.ScheduledTasks.Task.{ScheduledTask, ScheduledTaskCreatedBy, Codec, truthy}
use clawndom.ScheduledTasks.Store.{
  Store, Sets, IndexKey, all_ids, by_agent, by_trace, same_creator, contains, zrange, get_by_id,
  SortedSet,
}
use clawndom.ScheduledTasks.Listing.{
  ScheduledTaskListFilters, active_filter_keys, candidate_ids, is_candidate, collect_filtered_ids,
  creator_keys, text_keys,
}
use clawndom.ScheduledTasks.Members.{belongs, traced, contains-append, contains-filter}
use clawndom.ScheduledTasks.Lookups.{score_of}
use clawndom.ScheduledTasks.Exact.{listed, fire_time, IsExact}

-- What each filter asks of a task; an empty text is no filter.
abbrev accepts_creator : Option ScheduledTaskCreatedBy → ScheduledTaskCreatedBy → Bool
accepts_creator none c = true
accepts_creator (some wanted) c = same_creator c wanted

abbrev accepts_text : (String → Bool) → Option String → Bool
accepts_text test none = true
accepts_text test (some text) = if truthy text then test text else true

pub passes : ScheduledTaskListFilters → Option ScheduledTask → Bool
passes filters none = false
passes filters (some task) =
    accepts_creator filters.created_by task.created_by
    && accepts_text (λ text. task.agent_id == text) filters.agent_id
    && accepts_text (λ text. traced task.created_by_trace_id text) filters.created_by_trace_id

all-cong :
    (p q : IndexKey → Bool) (xs : List IndexKey)
    → ((k : IndexKey) → p k ≡ q k)
    → all p xs ≡ all q xs
all-cong p q [] h = refl
all-cong p q (x ∷ xs) h = ground (arith, h x, all-cong p q xs h)

is_candidate-all :
    (keys : List IndexKey) (sets : Sets) (id : String)
    → is_candidate (candidate_ids keys sets) id ≡ all (λ k. contains id (sets k)) keys
unfolding is_candidate candidate_ids
is_candidate-all [] sets id = refl
is_candidate-all (k ∷ keys) sets id =
    contains-filter (λ x. all (λ other. contains x (sets other)) keys) id (sets k)

all-creator_keys :
    (wanted : Option ScheduledTaskCreatedBy) (task : ScheduledTask)
    → all (λ k. belongs k task) (creator_keys wanted) ≡ accepts_creator wanted task.created_by
unfolding belongs
all-creator_keys none task = refl
all-creator_keys (some c) task = ground arith

all-text_keys :
    (key : String → IndexKey) (wanted : Option String) (task : ScheduledTask)
    → all (λ k. belongs k task) (text_keys key wanted)
      ≡ accepts_text (λ text. belongs (key text) task) wanted
all-text_keys key none task = refl
all-text_keys key (some text) task = ground arith

all-active_filter_keys :
    (filters : ScheduledTaskListFilters) (task : ScheduledTask)
    → all (λ k. belongs k task) (active_filter_keys filters) ≡ passes filters (some task)
unfolding active_filter_keys passes belongs
all-active_filter_keys filters task =
    all-append (λ k. belongs k task)
      (creator_keys filters.created_by ++ text_keys by_agent filters.agent_id)
      (text_keys by_trace filters.created_by_trace_id)
    ∙ ground (
      arith,
      all-append (λ k. belongs k task) (creator_keys filters.created_by)
          (text_keys by_agent filters.agent_id),
      all-creator_keys filters.created_by task,
      all-text_keys by_agent filters.agent_id task,
      all-text_keys by_trace filters.created_by_trace_id task,
    )

contains-zrange :
    (id : String) (scores : SortedSet) → contains id (zrange scores) ≡ is_some (score_of id scores)
unfolding contains zrange score_of
contains-zrange id [] = refl
contains-zrange id ((s, x) ∷ rest) = ground (arith, contains-zrange id rest)

contains-collect :
    (zr all_of : List String) (candidate : Option (List String)) (id : String)
    → contains id (
        filter (λ x. is_candidate candidate x) zr
        ++ filter
            (λ x.
              not (contains x (filter (λ y. is_candidate candidate y) zr))
              && is_candidate candidate x)
            all_of)
      ≡ (contains id zr || contains id all_of) && is_candidate candidate id
contains-collect zr all_of candidate id =
    let ordered = filter (λ x. is_candidate candidate x) zr in
    contains-append id ordered _
    ∙ ground (
      arith,
      contains-filter (λ x. is_candidate candidate x) id zr,
      contains-filter (λ x. not (contains x ordered) && is_candidate candidate x) id all_of,
    )

selected :
    (filters : ScheduledTaskListFilters) (o : Option ScheduledTask)
    → (is_some (fire_time o) || listed all_ids o)
        && all (λ k. listed k o) (active_filter_keys filters)
      ≡ passes filters o
unfolding passes belongs
selected filters none = refl
selected filters (some task) = ground (arith, all-active_filter_keys filters task)

-- With exact indexes, the ids that a list with filters has are those of the stored tasks that pass
-- all of the filters: the creator, the agent and the trace, where each is given (an empty agent or
-- trace counts as not given).
pub contains-collect_filtered_ids :
    (codec : Codec) (filters : ScheduledTaskListFilters) (store : Store) (id : String)
    → IsExact codec store
    → contains id (collect_filtered_ids filters store) ≡ passes filters (get_by_id codec id store)
unfolding collect_filtered_ids
contains-collect_filtered_ids codec filters store id exact =
    let candidate = candidate_ids (active_filter_keys filters) store.sets in
    contains-collect (zrange store.by_next_fire) (store.sets all_ids) candidate id
    ∙ ground (
      arith,
      contains-zrange id store.by_next_fire,
      exact.scores id,
      exact.members all_ids id,
      is_candidate-all (active_filter_keys filters) store.sets id,
      all-cong (λ k. contains id (store.sets k)) (λ k. listed k (get_by_id codec id store))
          (active_filter_keys filters) (λ k. exact.members k id),
      selected filters (get_by_id codec id store),
    )
