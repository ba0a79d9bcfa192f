-- ===== src/Store.antt =====
-- The database that the services of the practice core share, and the monad of their steps.
pub mod Milestones
pub mod Rows
pub mod Monad
pub mod Repository
