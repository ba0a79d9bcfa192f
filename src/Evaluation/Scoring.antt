-- ===== src/Evaluation/Scoring.antt =====
-- practice-core/src/modules/evaluation: scoring-profile.ts, criteria.ts and scoring-engine.service.ts.
pub mod Profile
pub mod Criteria
pub mod Engine
pub mod Bounds
pub mod Penalties
pub mod Ordering
pub mod Verdict
mod Tests
