-- ===== src/LlmGateway/Router/Bounds.antt =====
-- The estimate of a call's cost bounds what the call costs.
use skillfyme_hands_on.Base.{ℕ, zero, suc, ◌*◌, ◌≤◌, none, some, Option, List, length, arith}
use skillfyme_hands_on.LlmGateway.Router.{
  ModelTier, fast, mid, strong, tier_max_output, max_output_tokens_for, estimate_cost,
  estimate_tokens,
}

max_output_bounds :
    (tier : ModelTier) (requested : Option ℕ)
    → (1 ≤ max_output_tokens_for tier requested)
      × (max_output_tokens_for tier requested ≤ tier_max_output tier)
unfolding max_output_tokens_for
max_output_bounds fast none = ground arith
max_output_bounds fast (some zero) = ground arith
max_output_bounds fast (some (suc n)) = ground arith
max_output_bounds mid none = ground arith
max_output_bounds mid (some zero) = ground arith
max_output_bounds mid (some (suc n)) = ground arith
max_output_bounds strong none = ground arith
max_output_bounds strong (some zero) = ground arith
max_output_bounds strong (some (suc n)) = ground arith

estimate_cost_mono :
    (tier : ModelTier) (i j k l : ℕ)
    → i ≤ j
    → k ≤ l
    → estimate_cost tier i k ≤ estimate_cost tier j l
unfolding estimate_cost
estimate_cost_mono fast i j k l h g = omega arith
estimate_cost_mono mid i j k l h g = omega arith
estimate_cost_mono strong i j k l h g = omega arith

estimate_tokens_enough : (text : List ℕ) → length text ≤ 4 * estimate_tokens text
unfolding estimate_tokens
estimate_tokens_enough text = omega arith

-- A call that is given no more tokens than estimated and answers with no more than its output limit
-- costs no more than the estimate that the budget checked; the limit is positive and at most the
-- tier's, whatever was requested; and the token estimate covers the text at four characters each.
pub estimate_cost_bounds :
    (tier : ModelTier) (requested : Option ℕ) (text : List ℕ) (input output : ℕ)
    → input ≤ estimate_tokens text
    → output ≤ max_output_tokens_for tier requested
    → (estimate_cost tier input output
        ≤ estimate_cost tier (estimate_tokens text) (max_output_tokens_for tier requested))
      × (1 ≤ max_output_tokens_for tier requested)
      × (max_output_tokens_for tier requested ≤ tier_max_output tier)
      × (length text ≤ 4 * estimate_tokens text)
estimate_cost_bounds tier requested text input output h g = (
  estimate_cost_mono tier input (estimate_tokens text) output (max_output_tokens_for tier requested)
      h g,
  (max_output_bounds tier requested).0,
  (max_output_bounds tier requested).1,
  estimate_tokens_enough text,
)
