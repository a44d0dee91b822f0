-- ===== src/Routing.antt =====
-- strategies/routing: which agent rule an inbound payload goes to.
pub mod Json
pub mod FieldPath
pub mod Condition
pub mod Resolve
mod Tests
