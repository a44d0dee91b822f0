-- ===== src/TaskWorker/Tidy.antt =====
-- What the processing of one job may do to the log and to the registry.
use clawndom.Common.{
  ℕ, ◌+◌, ◌≤◌, String, Bool, true, false, Option, none, some, [], ◌∷◌, ◌++◌, if◌then◌else◌, is_some,
  ◌≡◌, refl, ◌∙◌, arith, inl, inr, Bool-cases,
}
use clawndom.Common.Result.{Result, ok, err}
use clawndom.Common.Dict.{Dict}
use clawndom.Routing.Json.{Json}
use clawndom.TaskWorker.{
  TaskRule, TaskAgent, RunRequest, TaskError, built, ran, cleaned, Environment, World,
  run_and_clean, run_with_tools, run_direct_prompt, run_if, run_bundled, run_prompted, run_named,
  read_scheduled_tools, run_rule, find_named, run_scheduled,
}
use clawndom.TaskWorker.Counts.{
  count_runs, count_built, count_cleaned, count_runs-append, count_built-append,
  count_cleaned-append,
}

-- What a runner that is not registered leaves behind for each of `n` bundles.
abbrev pub unless_ready : Bool → ℕ → ℕ
unless_ready true n = 0
unless_ready false n = n

-- What a part of the processing may do: run once at most, clean up nothing but what it builds and all
-- of that but `over` bundles, and leave the registry alone.
pub record IsTidy (over : ℕ) (before after : World) : Type 0 where
  pub runs : count_runs after.actions ≤ count_runs before.actions + 1
  pub own :
      count_built before.actions + count_cleaned after.actions
      ≤ count_built after.actions + count_cleaned before.actions
  pub bundles :
      count_built after.actions + count_cleaned before.actions
      ≤ count_built before.actions + count_cleaned after.actions + over
  pub same : after.service ≡ before.service

IsTidy-refl : (over : ℕ) (world : World) → IsTidy over world world
IsTidy-refl over world = record {
  runs = omega arith;
  own = omega arith;
  bundles = omega arith;
  same = refl;
}

IsTidy-weaken : (over : ℕ) {before after : World} → IsTidy 0 before after → IsTidy over before after
IsTidy-weaken over tidy = record {
  runs = tidy.runs;
  own = tidy.own;
  bundles = omega (arith, tidy.bundles);
  same = tidy.same;
}

run_and_clean-service :
    (env : Environment) (request : RunRequest) (world : World)
    → (run_and_clean env request world).0.service ≡ world.service
unfolding run_and_clean
run_and_clean-service env request world = refl

run_and_clean-counts :
    (env : Environment) (request : RunRequest) (world : World)
    → (count_runs (run_and_clean env request world).0.actions ≡ count_runs world.actions + 1)
      × (count_built (run_and_clean env request world).0.actions ≡ count_built world.actions)
      × (count_cleaned (run_and_clean env request world).0.actions
          ≡ count_cleaned world.actions + (if is_some request.bundle then 1 else 0))
unfolding run_and_clean count_runs count_built count_cleaned
run_and_clean-counts env request world = elim (Bool-cases (is_some request.bundle)) [
  | inl e ↦ rw e (
    count_runs-append world.actions (ran request ∷ cleaned request ∷ []),
    count_built-append world.actions (ran request ∷ cleaned request ∷ []) ∙ omega arith,
    count_cleaned-append world.actions (ran request ∷ cleaned request ∷ []),
  )
  | inr e ↦ rw e (
    count_runs-append world.actions (ran request ∷ []),
    count_built-append world.actions (ran request ∷ []) ∙ omega arith,
    count_cleaned-append world.actions (ran request ∷ []),
  )
]

run_if-IsTidy :
    (env : Environment) (ready : Bool) (request : RunRequest) (world : World)
    → request.bundle ≡ none
    → IsTidy (unless_ready ready 1) world (run_if ready env request world).0
unfolding run_if
run_if-IsTidy env false request world bare = IsTidy-refl 1 world
run_if-IsTidy env true request world bare =
    let (runs, builds, cleans) = run_and_clean-counts env request world in
    record {
      runs = omega (arith, runs);
      own = ground (arith, builds, cleans, bare);
      bundles = ground (arith, builds, cleans, bare);
      same = run_and_clean-service env request world;
    }

bundled-IsTidy :
    (env : Environment) (ready : Bool) (bundle : String) (request : RunRequest) (world : World)
    → IsTidy
        (unless_ready ready 1)
        world
        (run_if ready env
          (record request { bundle = some bundle })
          (record world {
            actions = world.actions ++ built (record request { bundle = some bundle }) ∷ [];
          })).0
unfolding run_if count_runs count_built count_cleaned
bundled-IsTidy env false bundle request world =
    let bundled = record request { bundle = some bundle } in
    record {
      runs = omega (arith, count_runs-append world.actions (built bundled ∷ []));
      own = omega (
        arith,
        count_built-append world.actions (built bundled ∷ []),
        count_cleaned-append world.actions (built bundled ∷ []),
      );
      bundles = omega (
        arith,
        count_built-append world.actions (built bundled ∷ []),
        count_cleaned-append world.actions (built bundled ∷ []),
      );
      same = refl;
    }
bundled-IsTidy env true bundle request world =
    let bundled = record request { bundle = some bundle } in
    let opened = record world { actions = world.actions ++ built bundled ∷ [] } in
    let (runs, builds, cleans) = run_and_clean-counts env bundled opened in
    let balanced : (count_built (run_and_clean env bundled opened).0.actions
          ≡ count_built world.actions + 1)
        × (count_cleaned (run_and_clean env bundled opened).0.actions
            ≡ count_cleaned world.actions + 1) =
      (
        omega (arith, builds, count_built-append world.actions (built bundled ∷ [])),
        omega (arith, cleans, count_cleaned-append world.actions (built bundled ∷ [])),
      ) in
    record {
      runs = omega (arith, runs, count_runs-append world.actions (built bundled ∷ []));
      own = omega (arith, balanced.0, balanced.1);
      bundles = omega (arith, balanced.0, balanced.1);
      same = run_and_clean-service env bundled opened;
    }

run_bundled-IsTidy :
    (env : Environment) (ready : Bool) (request : RunRequest) (bundle : Option (Option String))
    (world : World)
    → request.bundle ≡ none
    → IsTidy (unless_ready ready 1) world (run_bundled env ready request bundle world).0
unfolding run_bundled
run_bundled-IsTidy env ready request none world bare = IsTidy-refl (unless_ready ready 1) world
run_bundled-IsTidy env ready request (some none) world bare =
    run_if-IsTidy env ready request world bare
run_bundled-IsTidy env ready request (some (some bundle)) world bare =
    bundled-IsTidy env ready bundle request world

run_with_tools-IsTidy :
    (env : Environment) (agent : TaskAgent) (tools : Option String) (route_id : String)
    (ready : Bool) (request : RunRequest) (world : World)
    → request.bundle ≡ none
    → IsTidy
        (unless_ready ready 1)
        world
        (run_with_tools env agent tools route_id ready request world).0
unfolding run_with_tools
run_with_tools-IsTidy env agent none route_id ready request world bare =
    run_if-IsTidy env ready request world bare
run_with_tools-IsTidy env agent (some tools) route_id ready request world bare =
    run_bundled-IsTidy env ready request
      (env.build_bundle tools agent.dir route_id request.trace_id) world bare

run_prompted-IsTidy :
    (env : Environment) (agent : TaskAgent) (rule : TaskRule)
    (prompts : Result TaskError (String × String)) (prefix session_key trace_id : String)
    (world : World)
    → IsTidy 0 world (run_prompted env agent rule prompts prefix session_key trace_id world).0
unfolding run_prompted
run_prompted-IsTidy env agent rule (err e) prefix session_key trace_id world = IsTidy-refl 0 world
run_prompted-IsTidy env agent rule (ok (prompt, system_prompt)) prefix session_key trace_id world =
    run_with_tools-IsTidy env agent rule.tools _ true _ world refl

run_named-IsTidy :
    (env : Environment) (agent : TaskAgent) (rule : String) (context : Dict Json)
    (trace_id : String) (matched : Option TaskRule) (world : World)
    → IsTidy 0 world (run_named env agent rule context trace_id matched world).0
unfolding run_named run_rule
run_named-IsTidy env agent rule context trace_id none world = IsTidy-refl 0 world
run_named-IsTidy env agent rule context trace_id (some matched) world =
    run_prompted-IsTidy env agent matched _ "schedule" _ trace_id world

pub run_scheduled-IsTidy :
    (env : Environment) (agent : TaskAgent) (task_id : Option String) (rule : String)
    (context : Dict Json) (trace_id : String) (prompt : Option String) (world : World)
    → IsTidy
        (unless_ready (env.has_runner "claude-cli") 1)
        world
        (run_scheduled env agent task_id rule context trace_id prompt world).0
unfolding run_scheduled run_direct_prompt
run_scheduled-IsTidy env agent task_id rule context trace_id (some prompt) world =
    run_with_tools-IsTidy env agent (read_scheduled_tools env context) _ _ _ world refl
run_scheduled-IsTidy env agent task_id rule context trace_id none world =
    IsTidy-weaken (unless_ready (env.has_runner "claude-cli") 1) (
      run_named-IsTidy env agent rule context trace_id (find_named rule agent.schedule_rules) world)
