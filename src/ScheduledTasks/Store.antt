-- ===== src/ScheduledTasks/Store.antt =====
-- services/scheduled-tasks.service.ts: what the registry keeps in Redis, and the two transactions
-- that change it. The keys of the sets are told apart by their prefix and what follows it.
use Prim.Native.String
use text.Mathlib.Text.{is_lt}
use clawndom.Common.{
  ℕ, String, Bool, true, false, not, ◌&&◌, ◌||◌, Option, none, some, List, [], ◌∷◌, ◌++◌, ltb, eqb,
  ◌==◌, ◌>>=◌, if◌then◌else◌, any, filter,
}
use clawndom.Common.Dict.{Dict, get, set, delete}
use clawndom.ScheduledTasks.Task.{
  ScheduledTask, ScheduledTaskCreatedBy, config, agent, Codec, truthy, read_task,
}

pub data IndexKey : Type 0 where
  all_ids : IndexKey
  by_created_by : ScheduledTaskCreatedBy → IndexKey
  by_agent : String → IndexKey
  by_trace : String → IndexKey

unfoldable pub same_creator : ScheduledTaskCreatedBy → ScheduledTaskCreatedBy → Bool
same_creator config config = true
same_creator agent agent = true
same_creator _ _ = false

unfoldable pub same_key : IndexKey → IndexKey → Bool
unfolding same_creator
same_key all_ids all_ids = true
same_key (by_created_by c) (by_created_by d) = same_creator c d
same_key (by_agent a) (by_agent b) = a == b
same_key (by_trace a) (by_trace b) = a == b
same_key _ _ = false

abbrev pub Sets : Type 0
Sets = IndexKey → List String

unfoldable pub contains : String → List String → Bool
contains id ids = any (λ other. other == id) ids

unfoldable pub sadd : IndexKey → String → Sets → Sets
unfolding contains
sadd key id sets other =
    if same_key key other
    then if contains id (sets other) then sets other else sets other ++ id ∷ []
    else sets other

unfoldable pub srem : IndexKey → String → Sets → Sets
srem key id sets other =
    if same_key key other then filter (λ x. not (x == id)) (sets other) else sets other

-- A sorted set: the scores with their members, the lowest score first and a text order between
-- members of one score.
abbrev pub SortedSet : Type 0
SortedSet = List (ℕ × String)

unfoldable pub goes_before : ℕ → String → ℕ → String → Bool
goes_before score id other_score other =
    ltb score other_score || (eqb score other_score && is_lt (String.compare id other))

unfoldable pub insert : ℕ → String → SortedSet → SortedSet
insert score id [] = (score, id) ∷ []
insert score id ((s, x) ∷ rest) =
    if goes_before score id s x then (score, id) ∷ (s, x) ∷ rest else (s, x) ∷ insert score id rest

unfoldable pub zrem : String → SortedSet → SortedSet
zrem id [] = []
zrem id ((s, x) ∷ rest) = if x == id then zrem id rest else (s, x) ∷ zrem id rest

unfoldable pub zadd : ℕ → String → SortedSet → SortedSet
zadd score id scores = insert score id (zrem id scores)

-- `ZRANGE key 0 -1`.
unfoldable pub zrange : SortedSet → List String
zrange [] = []
zrange ((s, x) ∷ rest) = x ∷ zrange rest

-- The records are under their ids.
pub record Store : Type 0 where
  pub records : Dict String
  pub sets : Sets
  pub by_next_fire : SortedSet

unfoldable pub get_by_id : Codec → String → Store → Option ScheduledTask
get_by_id codec id store = do raw ← get id store.records; read_task codec raw

unfoldable pub sadd_trace : Option String → String → Sets → Sets
unfolding truthy
sadd_trace none id sets = sets
sadd_trace (some trace) id sets = if truthy trace then sadd (by_trace trace) id sets else sets

unfoldable pub srem_trace : Option String → String → Sets → Sets
unfolding truthy
srem_trace none id sets = sets
srem_trace (some trace) id sets = if truthy trace then srem (by_trace trace) id sets else sets

unfoldable pub set_next_fire : Option ℕ → String → SortedSet → SortedSet
set_next_fire none id scores = zrem id scores
set_next_fire (some time) id scores = zadd time id scores

unfoldable pub persist : Codec → ScheduledTask → Store → Store
unfolding sadd_trace set_next_fire
persist codec task store =
    let shared = sadd all_ids task.id store.sets in
    let created = sadd (by_created_by task.created_by) task.id shared in
    let owned = sadd (by_agent task.agent_id) task.id created in
    record {
      records = set task.id (codec.stringify task) store.records;
      sets = sadd_trace task.created_by_trace_id task.id owned;
      by_next_fire = set_next_fire task.next_fire_at task.id store.by_next_fire;
    }

unfoldable pub remove_from_redis : ScheduledTask → Store → Store
unfolding srem_trace
remove_from_redis task store =
    let shared = srem all_ids task.id store.sets in
    let created = srem (by_created_by task.created_by) task.id shared in
    let owned = srem (by_agent task.agent_id) task.id created in
    record {
      records = delete task.id store.records;
      sets = srem_trace task.created_by_trace_id task.id owned;
      by_next_fire = zrem task.id store.by_next_fire;
    }
