-- ===== src/Common.antt =====
-- practice-core/src/common, and the types of practice-core/src/db/schema.ts that the modules share.
pub mod Status
pub mod Mode
pub mod Number
