-- ===== src/SessionPool/State.antt =====
-- services/session-pool.service.ts: the pool, its sessions and the small operations on them. A
-- session is an object that the pool and its handles share: the pool holds it by reference.
use clawndom.Common.{
  ℕ, String, Bool, true, false, Option, none, some, List, [], ◌∷◌, ◌++◌, eqb, ◌⧺◌, if◌then◌else◌,
}
use clawndom.Common.Lists.{length}
use clawndom.Common.Dict.{Dict, values}

-- A line of the subprocess: the init event with its `session_id` when that is a string, a result,
-- or another event of the turn.
pub data StreamEvent : Type 0 where
  init : Option String → StreamEvent
  result : String → StreamEvent
  turn : String → StreamEvent

-- `exited` is `child.exitCode !== null`, `idle_timer` says that the timer is armed, `pending_turn`
-- that a caller waits for the result. The request's provider and key are kept with it.
pub record Session : Type 0 where
  pub provider_name : String
  pub key : String
  pub exited : Bool
  pub session_id : Option String
  pub last_activity : ℕ
  pub idle_timer : Bool
  pub pending_turn : Bool
  pub idle_timeout_ms : ℕ
  pub ready : Bool
  pub expected_session_id : Option String
  pub turn_events : List StreamEvent

pub data PoolEvent : Type 0 where
  evicted : (provider key : String) → (active_after : ℕ) → PoolEvent
  closed : (provider key : String) → PoolEvent
  stale : (provider key prior_session_id : String) → PoolEvent
  spawned : (provider key session_id : String) → PoolEvent
  resumed : (provider key session_id : String) → PoolEvent
  reaped : (provider key : String) → (idle_for_ms : ℕ) → PoolEvent

-- The answer of a turn: its events, or an error.
pub data TurnOutcome : Type 0 where
  resolved : ℕ → List StreamEvent → TurnOutcome
  rejected : ℕ → TurnOutcome

-- `count` references have been handed out. `redis` holds the session ids, `published`, `closing`
-- (the calls of `gracefullyClose` on a live child) and `turns` are logs, oldest first.
pub record SessionPool : Type 0 where
  pub active : Dict ℕ
  pub sessions : ℕ → Session
  pub count : ℕ
  pub max_sessions : ℕ
  pub shutting_down : Bool
  pub redis : Dict String
  pub published : List PoolEvent
  pub closing : List ℕ
  pub turns : List TurnOutcome

abbrev pub no_session : Session
no_session = record {
  provider_name = "";
  key = "";
  exited = true;
  session_id = none;
  last_activity = 0;
  idle_timer = false;
  pending_turn = false;
  idle_timeout_ms = 0;
  ready = false;
  expected_session_id = none;
  turn_events = [];
}

-- The constructor; absent options are 8 sessions.
abbrev pub create : Option ℕ → Dict String → SessionPool
create max_sessions redis = record {
  active = [];
  sessions = λ ref. no_session;
  count = 0;
  max_sessions = elim max_sessions [ none ↦ 8 | some n ↦ n ];
  shutting_down = false;
  redis = redis;
  published = [];
  closing = [];
  turns = [];
}

unfoldable pub build_composite_key : String → String → String
build_composite_key provider_name key = provider_name ⧺ ":" ⧺ key

unfoldable pub build_redis_key : String → String → String
build_redis_key provider_name key = "session:" ⧺ provider_name ⧺ ":" ⧺ key

unfoldable pub write : ℕ → Session → SessionPool → SessionPool
write ref session pool = record pool {
  sessions = λ other. if eqb ref other then session else pool.sessions other;
}

abbrev pub publish : PoolEvent → SessionPool → SessionPool
publish event pool = record pool { published = pool.published ++ event ∷ [] }

unfoldable pub gracefully_close : ℕ → SessionPool → SessionPool
gracefully_close ref pool =
    if (pool.sessions ref).exited then pool else record pool { closing = pool.closing ++ ref ∷ [] }

unfoldable pub close_all : List ℕ → SessionPool → SessionPool
unfolding gracefully_close
close_all [] pool = pool
close_all (ref ∷ refs) pool = close_all refs (gracefully_close ref pool)

unfoldable pub shutdown : SessionPool → SessionPool
unfolding close_all
shutdown pool = close_all (values pool.active) (record pool { shutting_down = true; active = [] })

pub size : SessionPool → ℕ
size pool = length pool.active

-- `buildCliArgs`.
unfoldable pub build_cli_args : Option String → Option String → List String
build_cli_args resume model =
    "--print"
    ∷ "--input-format"
    ∷ "stream-json"
    ∷ "--output-format"
    ∷ "stream-json"
    ∷ "--verbose"
    ∷ "--dangerously-skip-permissions"
    ∷ (flag "--resume" resume ++ flag "--model" model)
  where
    flag : String → Option String → List String
    flag name none = []
    flag name (some value) = name ∷ value ∷ []
