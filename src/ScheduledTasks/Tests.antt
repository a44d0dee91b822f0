-- ===== src/ScheduledTasks/Tests.antt =====
-- The registry of scheduled tasks on a few requests.
use Prim.Native.Char.{Char}
use text.Mathlib.TextLemmas.{cons≢nil}
use clawndom.Common.{
  ◌==◌, eq_iff, inl, inr, Bool-cases, ℕ, ◌+◌, ◌≤◌, ◌<◌, String, true, false, none, some, List, [],
  ◌∷◌, ◌≡◌, refl, ap, arith, length, if◌then◌else◌, pos,
}
use clawndom.ScheduledTasks.Task.{
  read_task, schema_parse, is_valid, truthy, non_empty_or_absent, positive_or_absent, is_valid_when,
}
use clawndom.ScheduledTasks.Store.{
  persist, remove_from_redis, sadd, srem, sadd_trace, srem_trace, set_next_fire, zadd, zrem, insert,
  goes_before, same_key, same_creator, zrange,
}
use clawndom.ScheduledTasks.Upsert.{
  admit, store_task, gate, enforce_caps, check_per_trace, check_future_window, build_task,
  kept_run_count, kept_created_at, publish_created, created_event, default_created_reason,
}
use clawndom.ScheduledTasks.Service.{
  compute_next_fire, scheduled_task_key, schedule_in_bullmq, truthy_or_absent,
}
use clawndom.ScheduledTasks.TaskId.{slice_to, is_id_char, make_agent_task_id}
use clawndom.ScheduledTasks.Removal.{discard, delete, delete_found, delete_orphans}
use clawndom.ScheduledTasks.Firing.{
  record_fire, fire_found, fire_unless, check_expired, check_ttl, check_max_runs, after_fire,
}
use clawndom.ScheduledTasks.Listing.{active_filter_keys, candidate_ids, is_candidate}
use clawndom.ScheduledTasks.Members.{belongs, traced}
use clawndom.ScheduledTasks.History.{perform}
use clawndom.ScheduledTasks.Wire.{
  write_when, when_of, write_creator, creator_of, to_pieces, from_pieces,
}
use clawndom.Common.Pieces.{
  write_all, write, read, cons_char, unary, count, count-unary, mark, unmark, mark_number,
  unmark_number,
}
use clawndom.Common.Dict
use clawndom.Common.Result.{err}
use clawndom.ScheduledTasks.Task.{cron, agent, CreateScheduledTaskInput}
use clawndom.ScheduledTasks.Store.{contains, get_by_id}
use clawndom.ScheduledTasks.Service.{Service, Dependencies, Readings}
use clawndom.ScheduledTasks.Upsert.{upsert, task_id, queue_failed}
use clawndom.ScheduledTasks.Removal.{reconcile_config}
use clawndom.ScheduledTasks.TaskId.{sanitize}
use clawndom.ScheduledTasks.Listing.{
  ScheduledTaskListFilters, collect_filtered_ids, load_many, CursorTexts, Limit, finite,
}
use clawndom.ScheduledTasks.Exact.{IsExact, empty_store, empty_store-IsExact}
use clawndom.ScheduledTasks.History.{
  Request, upserting, firing, reconciling, run, OwnersKept, run-IsExact,
}
use clawndom.ScheduledTasks.Reconcile.{is_orphan, reconcile_config-get}
use clawndom.ScheduledTasks.Runs.{HasLeft, found}
use clawndom.ScheduledTasks.Limit.{count_fires, count_deliveries, fires, is_delivery, run-HasLeft}
use clawndom.ScheduledTasks.Load.{load}
use clawndom.ScheduledTasks.Caps.{run-load}
use clawndom.ScheduledTasks.Outcome.{Reported, upsert-Reported}
use clawndom.ScheduledTasks.Retries.{Retry, retry_all, upsert-queue_failed}
use clawndom.Common.{is_some}
use clawndom.ScheduledTasks.Filters.{passes, contains-collect_filtered_ids}
use clawndom.ScheduledTasks.Lookups.{score_of}
use clawndom.ScheduledTasks.Wire.{codec}

unfoldable pub tasks_code : Unit {0}
unfolding Dict.get Dict.set Dict.delete get_by_id read_task schema_parse is_valid truthy
    non_empty_or_absent positive_or_absent is_valid_when persist remove_from_redis sadd srem
    sadd_trace srem_trace set_next_fire zadd zrem insert goes_before same_key same_creator contains
    codec write_all write read cons_char unary count mark unmark mark_number unmark_number to_pieces
    from_pieces write_when when_of write_creator creator_of task_id upsert admit store_task gate
    enforce_caps check_per_trace check_future_window build_task compute_next_fire kept_run_count
    kept_created_at publish_created created_event scheduled_task_key schedule_in_bullmq
    truthy_or_absent default_created_reason sanitize slice_to is_id_char make_agent_task_id run
    perform record_fire fire_found fire_unless check_expired check_ttl check_max_runs after_fire
    discard delete delete_found delete_orphans reconcile_config zrange score_of collect_filtered_ids
    active_filter_keys candidate_ids is_candidate load_many belongs traced
tasks_code = tt

-- A cron that fires every minute, and two tasks per trace.
abbrev pub deps : Dependencies
deps = record {
  codec = codec;
  next_fire_from_cron = some (λ pattern timezone now. some (now + 60));
  caps = some (record { max_per_trace = 2; max_future_window_ms = 0 });
}

abbrev pub init : Service
init = record { store = empty_store; calls = []; published = [] }

init-IsExact : IsExact codec init.store
init-IsExact = empty_store-IsExact codec

-- A reminder of the agent "ada", twice at most.
abbrev reminder : CreateScheduledTaskInput
reminder = record {
  id = some "r";
  agent_id = "ada";
  name = none;
  when = cron "* * * * *" none;
  runner = "claude-cli";
  runner_config = "{}";
  payload = none;
  created_by = agent;
  created_by_trace_id = some "t";
  ttl = none;
  max_runs = some 2;
  trace_id = none;
  reason = none;
}

abbrev clock : Readings
clock = record { decided = 5; queued = 6; announced = 7 }

abbrev day : List Request
day =
    upserting reminder "" clock true
    ∷ firing (record { id = "r"; job_id = "1"; trace_id = none }) 60
    ∷ firing (record { id = "r"; job_id = "2"; trace_id = none }) 120
    ∷ firing (record { id = "r"; job_id = "3"; trace_id = none }) 180
    ∷ reconciling 200 []
    ∷ []

day_kept : OwnersKept deps day init
unfolding get_by_id task_id Dict.get
day_kept = (tt, (tt, (tt, (tt, (tt, tt)))))

run-IsExact_example : IsExact codec (run deps day init).store
run-IsExact_example = run-IsExact deps day init day_kept init-IsExact

run-load_example : load "t" (run deps day init).store ≤ 2
run-load_example =
    run-load deps "t" (record { max_per_trace = 2; max_future_window_ms = 0 }) day init refl
      (omega arith) day_kept (λ e. absurd (cc e), tt) init-IsExact (omega arith)

-- The task is there for two runs, and the third delivery finds it used up.
abbrev pub stocked : Service
stocked = (upsert deps reminder "" clock true init).0

abbrev deliveries : List Request
deliveries =
    firing (record { id = "r"; job_id = "1"; trace_id = none }) 60
    ∷ firing (record { id = "r"; job_id = "2"; trace_id = none }) 120
    ∷ firing (record { id = "r"; job_id = "3"; trace_id = none }) 180
    ∷ []

pub stocked_left : HasLeft deps "r" 2 (found deps "r" stocked)
unfolding tasks_code HasLeft
stocked_left = (2, refl, omega arith)

day_kept_first : OwnersKept deps (upserting reminder "" clock true ∷ []) init
unfolding get_by_id task_id Dict.get
day_kept_first = (tt, tt)

pub stocked-IsExact : IsExact codec stocked.store
unfolding run perform
stocked-IsExact =
    run-IsExact deps (upserting reminder "" clock true ∷ []) init day_kept_first init-IsExact

run-HasLeft_example :
    (count_fires deps "r" deliveries stocked ≤ 2)
    × (2 < count_deliveries deps "r" deliveries
        → found deps "r" (run deps deliveries stocked) ≡ none)
run-HasLeft_example =
    run-HasLeft deps "r" deliveries 2 stocked (tt) (tt, (tt, (tt, tt))) stocked-IsExact stocked_left

three_deliveries :
    (count_fires deps "r" deliveries stocked ≡ 2)
    × (count_deliveries deps "r" deliveries ≡ 3)
    × (length (run deps deliveries stocked).published ≡ 4)
unfolding tasks_code count_fires count_deliveries fires is_delivery
three_deliveries = (refl, refl, refl)

reconcile_config-get_example :
    ((id : String)
      → (get_by_id codec id (reconcile_config deps 9 [] stocked).0.store
          ≡ (if is_orphan deps [] id stocked then none else get_by_id codec id stocked.store))
        × (contains id (reconcile_config deps 9 [] stocked).1 ≡ is_orphan deps [] id stocked))
    × ((later : ℕ) → (reconcile_config deps later [] (reconcile_config deps 9 [] stocked).0).1 ≡ [])
reconcile_config-get_example = reconcile_config-get deps 9 [] stocked stocked-IsExact

upsert-Reported_example :
    Reported deps "r"
      (get_by_id codec "r" stocked.store)
      stocked
      (upsert deps reminder "" clock true stocked)
unfolding task_id
upsert-Reported_example = upsert-Reported deps reminder "" clock true stocked

queue_down : (upsert deps reminder "" clock false init).1 ≡ err queue_failed
unfolding tasks_code
queue_down = refl

-- Two retries, of which the second is accepted.
abbrev retries : List Retry
retries =
    record { input = reminder; fresh = ""; clock = clock; accepted = false }
    ∷ record { input = reminder; fresh = ""; clock = clock; accepted = true }
    ∷ []

upsert-queue_failed_example :
    let first = (upsert deps reminder "" clock false init).0 in
    (is_some (get_by_id codec "r" first.store) ≡ true)
    × (length (retry_all deps retries first).published ≡ 0)
unfolding task_id
upsert-queue_failed_example =
    upsert-queue_failed deps reminder "" clock false retries init queue_down (refl, (refl, tt))

-- Two tasks of an agent with a name of 32 letters, at different times and with different bytes.
abbrev nameless : CreateScheduledTaskInput
nameless = record reminder { id = none; agent_id = "customer-success-weekly-reporter" }

abbrev of_ada : ScheduledTaskListFilters
of_ada = record { created_by = some agent; agent_id = some "ada"; created_by_trace_id = none }

contains-collect_filtered_ids_example :
    contains "r" (collect_filtered_ids of_ada stocked.store)
    ≡ passes of_ada (get_by_id codec "r" stocked.store)
contains-collect_filtered_ids_example =
    contains-collect_filtered_ids codec of_ada stocked.store "r" stocked-IsExact

truthy-cons : (c : Char) (text : String) → truthy (String.◌∷◌ c text) ≡ true
unfolding truthy
truthy-cons c text = elim (Bool-cases (String.◌∷◌ c text == "")) [
  | inl e ↦ absurd (cons≢nil ((eq_iff (String.◌∷◌ c text) "").0 e))
  | inr e ↦ rw e refl
]

-- Offsets as strokes.
abbrev texts : CursorTexts
unfolding unary count truthy
texts = record {
  pack = λ offset. String.◌∷◌ "o" (unary offset);
  unpack = λ text. some (some (pos (elim text [ String.[] ↦ 0 | String.◌∷◌ c s ↦ count s ])));
  unpack-pack = λ offset. ap (λ n. some (some (pos n))) (count-unary offset);
  truthy-pack = λ offset. truthy-cons "o" (unary offset);
}

abbrev one : Limit
one = finite (pos 1) true
