-- ===== src/EventStore.antt =====
-- The event store, practice-core/src/modules/event-store.
pub mod Events
pub mod Log
pub mod Replay
mod Tests
