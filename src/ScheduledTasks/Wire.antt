-- ===== src/ScheduledTasks/Wire.antt =====
-- A codec of tasks for the tests.
use clawndom.Common.{
  String, true, false, Option, none, some, List, [], ◌∷◌, ◌==◌, if◌then◌else◌, ◌≡◌, refl, ap, ◌∙◌,
}
use clawndom.Common.Pieces.{
  write_all, read, read-write_all, unary, count, count-unary, mark, unmark, unmark-mark,
  mark_number, unmark_number, unmark_number-mark_number,
}
use clawndom.ScheduledTasks.Task.{
  ScheduledTaskWhen, cron, fire_at, ScheduledTaskCreatedBy, config, agent, ScheduledTask, Codec,
}

unfoldable pub write_when : ScheduledTaskWhen → String
write_when (cron pattern timezone) = write_all (pattern ∷ mark timezone ∷ [])
write_when (fire_at time) = write_all (unary time ∷ [])

unfoldable pub when_of : List String → ScheduledTaskWhen
when_of (pattern ∷ timezone ∷ rest) = cron pattern (unmark timezone)
when_of (time ∷ []) = fire_at (count time)
when_of [] = fire_at 0

when_of-write_when : (when : ScheduledTaskWhen) → when_of (read false (write_when when)) ≡ when
unfolding when_of write_when
when_of-write_when (cron pattern timezone) =
    ap when_of (read-write_all (pattern ∷ mark timezone ∷ []))
    ∙ ap (cron pattern) (unmark-mark timezone)
when_of-write_when (fire_at time) =
    ap when_of (read-write_all (unary time ∷ [])) ∙ ap fire_at (count-unary time)

unfoldable pub write_creator : ScheduledTaskCreatedBy → String
write_creator config = ""
write_creator agent = "a"

unfoldable pub creator_of : String → ScheduledTaskCreatedBy
creator_of text = if text == "" then config else agent

creator_of-write_creator : (c : ScheduledTaskCreatedBy) → creator_of (write_creator c) ≡ c
unfolding creator_of write_creator
creator_of-write_creator config = refl
creator_of-write_creator agent = refl

unfoldable pub to_pieces : ScheduledTask → List String
unfolding write_when write_creator
to_pieces t =
    t.id
    ∷ t.agent_id
    ∷ mark t.name
    ∷ write_when t.when
    ∷ t.runner
    ∷ t.runner_config
    ∷ mark t.payload
    ∷ write_creator t.created_by
    ∷ mark t.created_by_trace_id
    ∷ mark_number t.ttl
    ∷ mark_number t.max_runs
    ∷ unary t.run_count
    ∷ unary t.created_at
    ∷ mark_number t.next_fire_at
    ∷ []

unfoldable pub from_pieces : List String → Option ScheduledTask
unfolding when_of creator_of
from_pieces
      (id ∷ agent_id ∷ name ∷ when ∷ runner ∷ runner_config ∷ payload ∷ created_by ∷ trace ∷ ttl
        ∷ max_runs ∷ run_count ∷ created_at ∷ next_fire_at ∷ rest) =
    some (record {
      id = id;
      agent_id = agent_id;
      name = unmark name;
      when = when_of (read false when);
      runner = runner;
      runner_config = runner_config;
      payload = unmark payload;
      created_by = creator_of created_by;
      created_by_trace_id = unmark trace;
      ttl = unmark_number ttl;
      max_runs = unmark_number max_runs;
      run_count = count run_count;
      created_at = count created_at;
      next_fire_at = unmark_number next_fire_at;
    })
from_pieces pieces = none

pub parse-stringify :
    (t : ScheduledTask) → from_pieces (read false (write_all (to_pieces t))) ≡ some t
unfolding to_pieces from_pieces
parse-stringify t =
    ap from_pieces (read-write_all (to_pieces t))
    ∙ rw
        (
          unmark-mark t.name,
          when_of-write_when t.when,
          unmark-mark t.payload,
          creator_of-write_creator t.created_by,
          unmark-mark t.created_by_trace_id,
          unmark_number-mark_number t.ttl,
          unmark_number-mark_number t.max_runs,
          count-unary t.run_count,
          count-unary t.created_at,
          unmark_number-mark_number t.next_fire_at,
        )
        refl

unfoldable pub codec : Codec
unfolding to_pieces from_pieces
codec = record {
  stringify = λ t. write_all (to_pieces t);
  parse = λ text. from_pieces (read false text);
  is_runner_config = λ text. true;
  parse-stringify = parse-stringify;
}
