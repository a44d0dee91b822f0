-- ===== src/ScheduledTasks/TaskId.antt =====
-- services/scheduled-tasks.service.ts: the id of a task that an agent or the API creates.
use Prim.Native.Char.{code}
use clawndom.Common.{◌⧺◌, ℕ, zero, suc, String, Bool, ◌&&◌, ◌||◌, leb, eqb, if◌then◌else◌}

unfoldable pub is_id_char : ℕ → Bool
is_id_char c =
    (leb 48 c && leb c 57) || (leb 65 c && leb c 90) || (leb 97 c && leb c 122) || eqb c 45

-- `replaceAll(/[^a-zA-Z0-9-]/g, '-')`: the pattern sees a character above U+FFFF as two.
unfoldable pub sanitize : String → String
sanitize String.[] = String.[]
sanitize (String.◌∷◌ c text) =
    let rest = sanitize text in
    if is_id_char (code c)
    then String.◌∷◌ c rest
    else if leb 65536 (code c)
    then "--" ⧺ rest
    else "-" ⧺ rest

-- `slice(0, n)`, of a text whose characters are single code units.
unfoldable pub slice_to : ℕ → String → String
slice_to zero text = String.[]
slice_to (suc n) String.[] = String.[]
slice_to (suc n) (String.◌∷◌ c text) = String.◌∷◌ c (slice_to n text)

-- `fresh` is the clock in base 36, a dash, and four random bytes.
unfoldable pub make_agent_task_id : String → String → String
unfolding sanitize slice_to
make_agent_task_id agent_id fresh = slice_to 32 (sanitize (agent_id ⧺ "-" ⧺ fresh))
