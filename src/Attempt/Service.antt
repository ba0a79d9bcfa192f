-- ===== src/Attempt/Service.antt =====
-- practice-core/src/modules/attempt/attempt.service.ts: the lifecycle of an attempt. The orchestrator,
-- a separate service behind gRPC, is the parameter `orchestrator`: what each of its calls answers,
-- `none` standing for a call that throws. What other requests do to the world while
-- `provision` waits for the orchestrator is its argument `meanwhile`; all else that an operation does
-- is one run of steps.
pub mod Handlers
pub mod Operations
pub mod Repeats
pub mod Provisioned
pub mod Submitted
pub mod Quota
