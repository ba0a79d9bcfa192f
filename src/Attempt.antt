-- ===== src/Attempt.antt =====
-- The attempt module, practice-core/src/modules/attempt.
pub mod Eligibility
pub mod Service
pub mod Lifecycle
pub mod Hints
pub mod Signals
mod Tests
