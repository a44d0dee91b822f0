-- ===== src/Lib.antt =====
-- clawndom is a webhook gateway: it accepts webhooks, routes each to an agent by rules over its
-- payload, queues a job for it and runs the agent, and it publishes what happens on an in-process
-- event bus. Registries that subscribe to the bus keep what the dashboard shows and what survives a
-- restart. The files here model these parts, each from its source in the repository:
--
--   Common        Boolean tests, lists, JavaScript maps in insertion order (Dict), bounded
--                 newest-first rings (Ring) and results that may be errors (Result).
--   Event         src/types/clawndom-event.ts: the events of webhooks and jobs.
--   EventBus      src/services/event-bus.service.ts: `publish`, `replaySince`, `subscribe`,
--                 `subscribeSince`. A subscriber is a name, and a call answers with what the
--                 emitter hands to each.
--   Registry      src/services/active-jobs.service.ts (Active), recent-completions.service.ts
--                 (Recent) and skipped-webhooks.service.ts (Skipped): `handleEvent` of each, as a
--                 function of the event and the state.
--   Routing       src/strategies/routing: field-path.ts (FieldPath), condition.ts (Condition) and
--                 resolve.ts (Resolve) over JSON values (Json). The built-in RegExp and the
--                 inherited members of values are parameters (Condition.Runtime).
--   SenderGate    src/system-agents/builder/sender-gate.ts, with the schema of the payload as a parameter.
--   Ingest        src/services/event-ingest.service.ts: routing, deduplication and `queue.add` of a
--                 delivery. The extracted context and the queue's answer are parameters.
--   Worker        src/services/worker.service.ts and worker-failure-handler.ts: the envelope of a
--                 job (Envelope), `resolveModel` (Model), `processJob` (Process), the pause for a
--                 quota (Quota) and the `failed` listener (Failure). The queue, the clock, the
--                 codec of the envelope, the preparation of the prompt and the run of the agent
--                 are parameters; Wire is a codec for the tests.
--   Inflight      src/services/inflight-registry.service.ts, with its Redis hashes as maps of texts,
--                 and orphan-reaper.service.ts (Reaper). `String(n)`, `Number(text)`, the scanned
--                 keys and the states of the queue's jobs are parameters.
--   ScheduledTasks  src/services/scheduled-tasks.service.ts and types/scheduled-task.ts: the tasks
--                 (Task), the records and indexes in Redis (Store), the queue and the next time
--                 (Service), `upsert` with the caps (Upsert, TaskId), `delete` and `reconcileConfig`
--                 (Removal), `recordFire` (Firing), `list` (Listing), and the hashed ids of configured
--                 tasks (ConfigId). SHA-256, `localeCompare`, JSON, the schema of the runners,
--                 the cron parser and base64 are parameters; Wire is a codec for the tests.
--                 Operations run one after the other, History.run.
--   Scheduler     src/services/scheduler.service.ts: `registerAgentSchedules` over ScheduledTasks. The
--                 ids of the rules' tasks are hashes (ScheduledTasks.ConfigId).
--   TaskWorker    src/services/task-worker.service.ts: `processTask` on a parsed envelope; a scheduled
--                 job asks ScheduledTasks whether it fires. Runners, templates, the search of the
--                 memory and the bundles of tools are parameters, and the worker's calls of the
--                 runners and the bundles are a log.
--   Entities      src/services/entities/entity-store.service.ts: the rows and queries (Tables) and the
--                 operations `upsert`, `relate`, `unrelate`, `purge` and `get` (Store); Changes runs
--                 them one after the other. A transaction is one step. The validator, the
--                 normalization of natural keys, `String(value)` and the random ids are parameters.
--   SessionPool   src/services/session-pool.service.ts: the pool and its shared session objects
--                 (State), `acquire` and the eviction (Acquire), the listeners of a subprocess, the
--                 idle timer and the start of a turn (Stream).
--
-- The parts meet in the events and in the queue: Ingest queues what Worker picks up, Worker
-- publishes events, and Worker.Settled follows them into the
-- registry of active jobs; Worker.Failure reads the records of Inflight; Worker.Process routes with
-- Routing and asks the registry for a pending context; Scheduler fills the registry of scheduled
-- tasks through its `upsert` and `reconcileConfig`.
--
-- State is passed explicitly, and an operation is a function from the state before to the state
-- after. Where calls interleave at an `await`, the operation is cut there: `acquire` of the session
-- pool is `begin_acquire` and `finish_acquire`, and SessionPool.Interleavings is the relation of all
-- pools that some interleaving reaches. Times and counts are natural numbers. The loop that makes
-- room in the session pool runs on fuel, the size of the map: each turn removes an entry.
--
-- Not modelled: HTTP controllers and routes, signature checks, OIDC and the Slack transport, the
-- runners and their subprocesses, templates, secrets, memory with its embeddings and vector stores,
-- the search over entities, tools and MCP bundles, the agent loader and the configuration, the
-- audit and graph commands, logging: most of this is I/O around the parts above. TTLs of Redis
-- keys, timers and the grace periods of closing subprocesses are not modelled either.
pub mod Common
pub mod Entities
pub mod Event
pub mod EventBus
pub mod Inflight
pub mod Ingest
pub mod Registry
pub mod Routing
pub mod ScheduledTasks
pub mod Scheduler
pub mod SenderGate
pub mod SessionPool
pub mod TaskWorker
pub mod Worker
