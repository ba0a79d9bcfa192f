-- ===== src/Attempt/Lifecycle.antt =====
-- The state machine of an attempt that attempt.service.ts and evaluation.service.ts implement.
pub mod Machine
pub mod Rules
pub mod Quiet
pub mod Handlers
pub mod Operations
pub mod Provisioning
pub mod Hints
pub mod Histories
