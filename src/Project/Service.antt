-- ===== src/Project/Service.antt =====
-- practice-core/src/modules/project/project.service.ts: the milestones of a project.
pub mod Specs
pub mod Gates
pub mod Operations
pub mod Keeps
pub mod Submits
pub mod Gated
pub mod Refines
pub mod Refused
pub mod Finals
pub mod Listing
