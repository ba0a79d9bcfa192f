-- ===== src/Mentor.antt =====
-- The mentor module of the practice core, practice-core/src/modules/mentor.
pub mod Disclosure
pub mod Service
