-- ===== src/Entities.antt =====
-- services/entities/entity-store.service.ts: the entities, their relations and the audit log of the
-- SQLite database, and the operations on them.
pub mod Tables
pub mod Store
pub mod Changes
pub mod Integrity
pub mod Replay
pub mod Sharing
pub mod NaturalKeys
mod Tests
