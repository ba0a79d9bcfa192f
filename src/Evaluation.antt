-- ===== src/Evaluation.antt =====
-- The evaluation module, practice-core/src/modules/evaluation.
pub mod ValidatorRunner
pub mod Cooldown
pub mod Service
pub mod Scoring
mod Tests
