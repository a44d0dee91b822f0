-- ===== src/Scheduler/Tests.antt =====
-- Two agents with one schedule each.
use Prim.Native.String.{compare}
use Prim.Native.Nat.{lt, eq, gt}
use mathlib.Core.List.{Memᴰ}
use clawndom.Common.{
  ◌+◌, true, false, none, some, List, [], ◌∷◌, ◌≡◌, ◌≢◌, refl, sym, ap, ◌∙◌, arith, eq_iff,
}
use clawndom.Routing.Json.{stringify, quote, escape, escape_char}
use clawndom.ScheduledTasks.TaskId.{slice_to}
use clawndom.ScheduledTasks.ConfigId.{
  Material, derive_config_task_id, stable_stringify, sort_keys_deep, sort_onto, insert_field,
  when_json,
}
use clawndom.ScheduledTasks.Store.{get_by_id}
use clawndom.Common.Dict.{get}
use clawndom.ScheduledTasks.Service.{Service, Dependencies, truthy_or_absent}
use clawndom.ScheduledTasks.Exact.{empty_store, empty_store-IsExact}
use clawndom.ScheduledTasks.Wire.{codec}
use clawndom.Scheduler.{
  Environment, ScheduledAgent, ScheduleRule, material, resolve_runner_config, build_when, id_of,
  check_rule, register_agent_schedules,
}
use clawndom.Scheduler.Owned.{
  OwnedBy, Owned, IsConfigured, TellsAgentsApart, materials, rules_materials,
}
use clawndom.Scheduler.Registered.{IsRegistered, register_agent_schedules-IsRegistered}

abbrev registry : Dependencies
registry = record {
  codec = codec;
  next_fire_from_cron = some (λ pattern timezone now. some (now + 60));
  caps = none;
}

-- The digest is the text itself, of which the first 16 characters show a short name of an agent.
abbrev env : Environment
env = record {
  registry = registry;
  hashing = record {
    sha256_hex = λ text. text;
    sorts_before = λ a b. elim (compare a b) [ lt ↦ true | eq ↦ false | gt ↦ false ];
    print_number = λ n. "0";
  };
  clock = λ id. record { decided = 1; queued = 1; announced = 1 };
  accepted = λ id. true;
  reconciled_at = 2;
}

abbrev hourly : ScheduleRule
hourly = record {
  name = some "hourly";
  pattern = some "0 * * * *";
  timezone = none;
  message_template = some "hourly.md";
  runner = none;
  context = none;
}

abbrev ada : ScheduledAgent
ada = record { name = "ada"; dir = "/a"; rules = hourly ∷ [] }

abbrev bo : ScheduledAgent
bo = record { name = "bo"; dir = "/b"; rules = hourly ∷ [] }

abbrev agents : List ScheduledAgent
agents = ada ∷ bo ∷ []

abbrev started : Service
started = record { store = empty_store; calls = []; published = [] }

abbrev hourly_of : ScheduledAgent → Material
hourly_of agent = material agent hourly "hourly" "0 * * * *"

ids :
    (id_of env (hourly_of ada) ≡ "{\"agentId\":\"ada\"")
    × (id_of env (hourly_of bo) ≡ "{\"agentId\":\"bo\",")
unfolding derive_config_task_id stable_stringify sort_keys_deep sort_onto insert_field when_json
    slice_to stringify quote escape escape_char material resolve_runner_config build_when
    truthy_or_absent
ids = (refl, refl)

different : id_of env (hourly_of ada) ≢ id_of env (hourly_of bo)
different e =
    absurd (ground (arith, eq_iff "{\"agentId\":\"ada\"" "{\"agentId\":\"bo\",", ids.0, ids.1, e))

started-Owned : Owned env (IsConfigured agents) started.store
unfolding get_by_id get OwnedBy
started-Owned m known = tt

apart :
    (m n : Material)
    → Memᴰ m (hourly_of ada ∷ hourly_of bo ∷ [])
    → Memᴰ n (hourly_of ada ∷ hourly_of bo ∷ [])
    → id_of env m ≡ id_of env n
    → m.agent_id ≡ n.agent_id
apart m n (Memᴰ.head p) (Memᴰ.head q) e = ap (λ k. k.agent_id) (p ∙ sym q)
apart m n (Memᴰ.head p) (Memᴰ.tail (Memᴰ.head q)) e =
    absurd (different (ap (id_of env) (sym p) ∙ e ∙ ap (id_of env) q))
apart m n (Memᴰ.tail (Memᴰ.head p)) (Memᴰ.head q) e =
    absurd (different (ap (id_of env) (sym q) ∙ sym e ∙ ap (id_of env) p))
apart m n (Memᴰ.tail (Memᴰ.head p)) (Memᴰ.tail (Memᴰ.head q)) e = ap (λ k. k.agent_id) (p ∙ sym q)
apart m n (Memᴰ.head p) (Memᴰ.tail (Memᴰ.tail h)) e = elim h [ ]
apart m n (Memᴰ.tail (Memᴰ.head p)) (Memᴰ.tail (Memᴰ.tail h)) e = elim h [ ]
apart m n (Memᴰ.tail (Memᴰ.tail h)) known e = elim h [ ]

agents-apart : TellsAgentsApart env (IsConfigured agents)
unfolding materials rules_materials check_rule
agents-apart = apart

register_agent_schedules-IsRegistered_example :
    IsRegistered env (register_agent_schedules env agents started)
register_agent_schedules-IsRegistered_example =
    register_agent_schedules-IsRegistered env agents started agents-apart
      (empty_store-IsExact codec) started-Owned
