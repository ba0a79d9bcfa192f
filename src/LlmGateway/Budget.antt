-- ===== src/LlmGateway/Budget.antt =====
-- practice-core/src/modules/llm-gateway/budget-ledger.ts: the spending limits of each scope and
-- the global circuit breaker. `Date.now()` is the argument `now`, in milliseconds from an epoch
-- that no clock precedes; money is in units of 0.0000001 USD. Ids are numbers, and an absent (or
-- empty) id of a scope is `none`.
pub mod Ledger
pub mod Limits
mod Tests
