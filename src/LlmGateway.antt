-- ===== src/LlmGateway.antt =====
-- The LLM gateway, practice-core/src/modules/llm-gateway.
pub mod Router
pub mod Budget
pub mod PromptCache
pub mod Service
