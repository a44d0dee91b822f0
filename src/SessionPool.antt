-- ===== src/SessionPool.antt =====
-- services/session-pool.service.ts: the warm subprocesses, one for each session key.
pub mod State
pub mod Acquire
pub mod Stream
pub mod Room
pub mod Capacity
pub mod Interleavings
pub mod Turns
pub mod Recency
pub mod Tests
