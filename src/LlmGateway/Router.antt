-- ===== src/LlmGateway/Router.antt =====
-- practice-core/src/modules/llm-gateway/types.ts (the task classes and tiers) and router.ts.
-- Money is counted in units of 0.0000001 USD, in which every rate of the router is a whole
-- number per token.
pub mod Bounds
use skillfyme_hands_on.Base.{ℕ, zero, suc, ◌+◌, ◌*◌, ◌/◌, min, Option, none, some, List, length}

pub data TaskClass : Type 0 where
  intent_classify hint_rag summarise mentor_reply feedback grade : TaskClass
  architecture_review viva authoring : TaskClass

pub data ModelTier : Type 0 where
  fast mid strong : ModelTier

-- `TASK_TIER`, read by `tierFor`
abbrev pub tier_for : TaskClass → ModelTier
tier_for intent_classify = fast
tier_for hint_rag = fast
tier_for summarise = fast
tier_for mentor_reply = mid
tier_for feedback = mid
tier_for grade = strong
tier_for architecture_review = strong
tier_for viva = strong
tier_for authoring = strong

-- `TIER_MAX_OUTPUT`
abbrev pub tier_max_output : ModelTier → ℕ
tier_max_output fast = 512
tier_max_output mid = 1024
tier_max_output strong = 2048

-- `TIER_RATE_USD_PER_1K`, for one token
abbrev pub input_rate : ModelTier → ℕ
input_rate fast = 8
input_rate mid = 30
input_rate strong = 150

abbrev pub output_rate : ModelTier → ℕ
output_rate fast = 40
output_rate mid = 150
output_rate strong = 750

-- A request of 0 or less, or none, takes the ceiling of the tier.
unfoldable pub max_output_tokens_for : ModelTier → Option ℕ → ℕ
max_output_tokens_for tier none = tier_max_output tier
max_output_tokens_for tier (some zero) = tier_max_output tier
max_output_tokens_for tier (some (suc n)) = min (suc n) (tier_max_output tier)

unfoldable pub estimate_cost : ModelTier → ℕ → ℕ → ℕ
estimate_cost tier input output = input * input_rate tier + output * output_rate tier

-- About four characters to a token, rounded up.
unfoldable pub estimate_tokens : List ℕ → ℕ
estimate_tokens text = (length text + 3) / 4
