-- ===== src/LlmGateway/Service.antt =====
-- practice-core/src/modules/llm-gateway/llm-gateway.service.ts. The providers answer over the network:
-- `complete` is a provider's answer to the redacted prompt, `none` for an error. The redactor, which is
-- made of regular expressions, and SHA-256 are the parameters `redact` and `sha256`. The observer only
-- records. The time a call takes, the latency and the log are left out: the clock stands still within
-- a call.
pub mod Laws
pub mod Repeats
mod Tests
use skillfyme_hands_on.Base.{
  ℕ, ◌+◌, Bool, true, false, not, Option, none, some, List, [], ◌∷◌, ◌++◌, if◌then◌else◌, filter,
}
use skillfyme_hands_on.LlmGateway.Router.{
  TaskClass, ModelTier, tier_for, max_output_tokens_for, estimate_cost, estimate_tokens,
}
use skillfyme_hands_on.LlmGateway.Budget.Ledger.{
  BudgetLedger, Scope, Exhausted, check, charge, note_provider_error,
}
use skillfyme_hands_on.LlmGateway.PromptCache.{
  Text, CachedValue, HitKind, CacheHit, Entry, CacheConfig, get, put,
}

pub record LlmRequest : Type 0 where
  pub task_class : TaskClass
  pub prompt_version : Text
  pub system : Text
  pub user : Text
  pub scope : Scope
  pub max_output_tokens : Option ℕ
  pub no_cache : Bool

pub data Degraded : Type 0 where
  budget_exhausted all_providers_down : Degraded

-- Who answered: the cache, a provider by its name, or none.
pub data Source : Type 0 where
  from_cache from_none : Source
  from_provider : ℕ → Source

pub record LlmResponse : Type 0 where
  pub text : Text
  pub model : Option ℕ
  pub tier : ModelTier
  pub prompt_version : Text
  pub input_tokens : ℕ
  pub output_tokens : ℕ
  pub cost : ℕ
  pub cache_hit : Option HitKind
  pub provider : Source
  pub degraded : Option Degraded

pub record LlmProvider : Type 0 where
  pub name : ℕ
  pub healthy : Bool
  pub complete : ModelTier → Text → Text → ℕ → Option CachedValue

-- What the gateway keeps, with the records of the calls, newest first.
pub record Gateway : Type 0 where
  pub budget : BudgetLedger
  pub cache : List Entry
  pub records : List LlmResponse

-- `orderByHealth`
unfoldable pub order_by_health : List LlmProvider → List LlmProvider
order_by_health ps = filter (λ p. p.healthy) ps ++ filter (λ p. not p.healthy) ps

-- `record`
abbrev pub recorded : LlmResponse → Gateway → LlmResponse × Gateway
recorded res g = (res, record g { records = res ∷ g.records })

-- `degraded`
abbrev pub degraded_response : LlmRequest → Degraded → LlmResponse
degraded_response req reason = record {
  text = [];
  model = none;
  tier = tier_for req.task_class;
  prompt_version = req.prompt_version;
  input_tokens = 0;
  output_tokens = 0;
  cost = 0;
  cache_hit = none;
  provider = from_none;
  degraded = some reason;
}

abbrev pub cached_response : LlmRequest → CacheHit → LlmResponse
cached_response req hit = record {
  text = hit.value.text;
  model = some hit.value.model;
  tier = tier_for req.task_class;
  prompt_version = req.prompt_version;
  input_tokens = hit.value.input_tokens;
  output_tokens = hit.value.output_tokens;
  cost = 0;
  cache_hit = some hit.kind;
  provider = from_cache;
  degraded = none;
}

abbrev pub actual_cost : LlmRequest → CachedValue → ℕ
unfolding estimate_cost
actual_cost req out = estimate_cost (tier_for req.task_class) out.input_tokens out.output_tokens

abbrev pub provider_response : LlmRequest → ℕ → CachedValue → LlmResponse
unfolding estimate_cost
provider_response req name out = record {
  text = out.text;
  model = some out.model;
  tier = tier_for req.task_class;
  prompt_version = req.prompt_version;
  input_tokens = out.input_tokens;
  output_tokens = out.output_tokens;
  cost = actual_cost req out;
  cache_hit = none;
  provider = from_provider name;
  degraded = none;
}

module _ (sha256 : Text → ℕ) (redact : Text → Text) (cfg : CacheConfig) (now : ℕ)
    (req : LlmRequest) where
  abbrev max_out : ℕ
  unfolding max_output_tokens_for
  max_out = max_output_tokens_for (tier_for req.task_class) req.max_output_tokens

  abbrev pub completion : LlmProvider → Option CachedValue
  unfolding max_output_tokens_for
  completion p = p.complete (tier_for req.task_class) (redact req.system) (redact req.user) max_out

  -- The charge, and the answer in the cache.
  abbrev pub accounted : CachedValue → Gateway → Gateway
  unfolding charge put estimate_cost
  accounted out g = record g {
    budget = charge now (actual_cost req out) req.scope g.budget;
    cache = put sha256 cfg now req.prompt_version (redact req.system) (redact req.user) out g.cache;
  }

  -- The loop over the providers.
  unfoldable pub try_providers : List LlmProvider → Gateway → LlmResponse × Gateway
  unfolding note_provider_error charge put estimate_cost max_output_tokens_for
  try_providers [] g = recorded (degraded_response req all_providers_down) g
  try_providers (p ∷ ps) g = elim (completion p) [
    | some out ↦ recorded (provider_response req p.name out) (accounted out g)
    | none ↦ try_providers ps (record g { budget = note_provider_error now g.budget })
  ]

  abbrev pub estimated : ℕ
  unfolding estimate_cost estimate_tokens max_output_tokens_for
  estimated =
      estimate_cost (tier_for req.task_class)
        (estimate_tokens (redact req.system) + estimate_tokens (redact req.user)) max_out

  -- From the check of the budget on.
  unfoldable pub call_providers : List LlmProvider → Gateway → LlmResponse × Gateway
  unfolding try_providers order_by_health check estimate_cost estimate_tokens max_output_tokens_for
  call_providers ps g = elim (check now estimated req.scope g.budget) [
    | some s ↦ recorded (degraded_response req budget_exhausted) g
    | none ↦ try_providers (order_by_health ps) g
  ]

  abbrev pub looked_up : Gateway → Option CacheHit × List Entry
  unfolding get
  looked_up g = get sha256 now req.prompt_version (redact req.system) (redact req.user) g.cache

  abbrev pub hit_or : Option CacheHit → List LlmProvider → Gateway → LlmResponse × Gateway
  unfolding call_providers
  hit_or none ps g = call_providers ps g
  hit_or (some hit) ps g = recorded (cached_response req hit) g

  unfoldable pub call : List LlmProvider → Gateway → LlmResponse × Gateway
  unfolding call_providers get
  call ps g =
      if req.no_cache
      then call_providers ps g
      else hit_or (looked_up g).0 ps (record g { cache = (looked_up g).1 })
