-- ===== src/ScheduledTasks/Listing.antt =====
-- services/scheduled-tasks.service.ts: the list of tasks, filtered and cut into pages. A cursor is
-- an opaque text that stands for an offset.
use clawndom.Common.{
  ℕ, ◌+◌, String, Bool, true, not, ◌&&◌, Option, none, some, List, [], ◌∷◌, ◌++◌, ltb, eqb, min,
  if◌then◌else◌, all, filter, length, take, drop, ℤ, pos, negsuc, ◌≡◌,
}
use clawndom.ScheduledTasks.Task.{ScheduledTask, ScheduledTaskCreatedBy, Codec, truthy}
use clawndom.ScheduledTasks.Store.{
  Store, Sets, IndexKey, all_ids, by_created_by, by_agent, by_trace, contains, zrange, get_by_id,
}

abbrev pub default_page_size : ℕ
default_page_size = 50

abbrev pub max_page_size : ℕ
max_page_size = 200

pub record ScheduledTaskListFilters : Type 0 where
  pub created_by : Option ScheduledTaskCreatedBy
  pub agent_id : Option String
  pub created_by_trace_id : Option String

pub record ScheduledTaskListPage : Type 0 where
  pub tasks : List ScheduledTask
  pub next_cursor : Option String

-- A number as a limit: infinite or NaN, or finite, by the integer below it and whether it is that
-- integer.
pub data Limit : Type 0 where
  not_finite : Limit
  finite : (floor : ℤ) (is_whole : Bool) → Limit

-- `none` is no limit given; a limit of 0 and a negative one count as none.
unfoldable pub clamp_limit : Option Limit → ℕ
clamp_limit none = default_page_size
clamp_limit (some not_finite) = default_page_size
clamp_limit (some (finite (negsuc n) is_whole)) = default_page_size
clamp_limit (some (finite (pos n) is_whole)) =
    if eqb n 0 && is_whole then default_page_size else min n max_page_size

abbrev pub creator_keys : Option ScheduledTaskCreatedBy → List IndexKey
creator_keys none = []
creator_keys (some c) = by_created_by c ∷ []

abbrev pub text_keys : (String → IndexKey) → Option String → List IndexKey
text_keys key none = []
text_keys key (some text) = if truthy text then key text ∷ [] else []

unfoldable pub active_filter_keys : ScheduledTaskListFilters → List IndexKey
unfolding truthy
active_filter_keys filters =
    creator_keys filters.created_by
    ++ text_keys by_agent filters.agent_id
    ++ text_keys by_trace filters.created_by_trace_id

-- `SINTERSTORE` of the sets, or the only one; `none` is no filter.
unfoldable pub candidate_ids : List IndexKey → Sets → Option (List String)
unfolding contains
candidate_ids [] sets = none
candidate_ids (key ∷ keys) sets =
    some (filter (λ id. all (λ other. contains id (sets other)) keys) (sets key))

unfoldable pub is_candidate : Option (List String) → String → Bool
unfolding contains
is_candidate none id = true
is_candidate (some ids) id = contains id ids

unfoldable pub collect_filtered_ids : ScheduledTaskListFilters → Store → List String
unfolding active_filter_keys candidate_ids is_candidate zrange contains
collect_filtered_ids filters store =
    let candidate = candidate_ids (active_filter_keys filters) store.sets in
    let ordered = filter (λ id. is_candidate candidate id) (zrange store.by_next_fire) in
    ordered
    ++ filter (λ id. not (contains id ordered) && is_candidate candidate id) (store.sets all_ids)

abbrev pub keep_found : Option ScheduledTask → List ScheduledTask → List ScheduledTask
keep_found none tasks = tasks
keep_found (some task) tasks = task ∷ tasks

unfoldable pub load_many : Codec → List String → Store → List ScheduledTask
load_many codec [] store = []
load_many codec (id ∷ ids) store = keep_found (get_by_id codec id store) (load_many codec ids store)

-- An offset as a text, `JSON.stringify({ o: offset })` in base64, and back: the outer `none` is a text
-- that cannot be read, the inner one an object whose `o` is no finite number.
pub record CursorTexts : Type 0 where
  pub pack : ℕ → String
  pub unpack : String → Option (Option ℤ)
  pub unpack-pack : (offset : ℕ) → unpack (pack offset) ≡ some (some (pos offset))
  pub truthy-pack : (offset : ℕ) → truthy (pack offset) ≡ true

abbrev pub encode_cursor : CursorTexts → ℕ → String
encode_cursor texts offset = texts.pack offset

abbrev offset_of : Option (Option ℤ) → ℕ
offset_of none = 0
offset_of (some none) = 0
offset_of (some (some (negsuc n))) = 0
offset_of (some (some (pos n))) = n

unfoldable pub decode_cursor : CursorTexts → Option String → ℕ
unfolding truthy
decode_cursor texts none = 0
decode_cursor texts (some text) = if truthy text then offset_of (texts.unpack text) else 0

unfoldable pub next_cursor : CursorTexts → ℕ → ℕ → Option String
next_cursor texts next_offset total =
    if ltb next_offset total then some (encode_cursor texts next_offset) else none

unfoldable pub list_tasks :
    Codec
    → CursorTexts
    → ScheduledTaskListFilters
    → Option String
    → Option Limit
    → Store
    → ScheduledTaskListPage
unfolding clamp_limit decode_cursor collect_filtered_ids load_many next_cursor
list_tasks codec texts filters cursor limit store =
    let offset = decode_cursor texts cursor in
    let ids = collect_filtered_ids filters store in
    let slice = take (clamp_limit limit) (drop offset ids) in
    record {
      tasks = load_many codec slice store;
      next_cursor = next_cursor texts (offset + length slice) (length ids);
    }
