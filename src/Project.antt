-- ===== src/Project.antt =====
-- The project mode, practice-core/src/modules/project.
pub mod Repository
pub mod Ports
pub mod Progress
pub mod Scoring
pub mod Defence
pub mod Service
mod Tests
