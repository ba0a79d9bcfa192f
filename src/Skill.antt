-- ===== src/Skill.antt =====
-- Skills and mastery, practice-core/src/modules/skill.
pub mod Bkt
pub mod Elo
pub mod Review
pub mod Mastery
pub mod Explained
mod Tests
