-- ===== src/ScheduledTasks.antt =====
-- services/scheduled-tasks.service.ts and types/scheduled-task.ts: the registry of scheduled tasks
-- in Redis, the calls it makes to the queue of an agent, and the events it publishes.
pub mod Task
pub mod Store
pub mod Service
pub mod Upsert
pub mod Removal
pub mod Firing
pub mod Listing
pub mod TaskId
pub mod ConfigId
pub mod Members
pub mod Lookups
pub mod Exact
pub mod Steps
pub mod History
pub mod Reconcile
pub mod Runs
pub mod Limit
pub mod Outcome
pub mod Retries
pub mod Collisions
pub mod Filters
pub mod Pages
mod Load
pub mod Caps
pub mod Wire
pub mod Tests
