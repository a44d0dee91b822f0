-- ===== src/ScheduledTasks/Pages.antt =====
-- The list of tasks has the tasks that pass the filters, and the pages give all of it.
use clawndom.Common.{
  ℕ, zero, suc, String, false, Option, none, some, List, [], ◌++◌, not, ◌&&◌, Bool, eqb, take, drop,
  pos, negsuc,
}
use clawndom.ScheduledTasks.Task.{ScheduledTask, Codec}
use clawndom.ScheduledTasks.Store.{Store}
use clawndom.ScheduledTasks.Listing.{
  ScheduledTaskListFilters, Limit, not_finite, finite, clamp_limit, collect_filtered_ids,
  CursorTexts, next_cursor, list_tasks,
}

abbrev if_more : Option String → (Option String → List ScheduledTask) → List ScheduledTask
if_more none next = []
if_more (some cursor) next = next (some cursor)

-- A limit that is more than 0 and less than 1.
abbrev pub is_below_one : Option Limit → Bool
is_below_one none = false
is_below_one (some not_finite) = false
is_below_one (some (finite (negsuc n) is_whole)) = false
is_below_one (some (finite (pos n) is_whole)) = eqb n 0 && not is_whole

module _ (codec : Codec) (texts : CursorTexts) (filters : ScheduledTaskListFilters)
    (limit : Option Limit) (store : Store) where
  -- The pages that a client gets that follows the cursors, `n` of them at most.
  pub read_pages : ℕ → Option String → List ScheduledTask
  read_pages zero cursor = []
  read_pages (suc n) cursor =
      let page = list_tasks codec texts filters cursor limit store in
      page.tasks ++ if_more page.next_cursor (read_pages n)

  abbrev ids : List String
  ids = collect_filtered_ids filters store

  abbrev size : ℕ
  size = clamp_limit limit

  abbrev slice : ℕ → List String
  slice offset = take size (drop offset ids)
