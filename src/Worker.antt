-- ===== src/Worker.antt =====
-- services/worker.service.ts and services/worker-failure-handler.ts: the envelope of a queued job
-- and what the worker does with it. The queue, the clock, the runner and the JSON codec of the
-- envelope are parameters.
pub mod Envelope
pub mod Model
pub mod Failure
pub mod Quota
pub mod Process
pub mod Backoff
pub mod Lineage
pub mod Retries
pub mod Settled
pub mod Wire
pub mod Tests
