-- ===== src/Registry.antt =====
-- The in-process registries that subscribe to the bus and seed the dashboard.
pub mod Active
pub mod Recent
pub mod Skipped
mod Tests
