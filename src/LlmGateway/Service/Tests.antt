-- ===== src/LlmGateway/Service/Tests.antt =====
-- A call of the gateway at two providers, of which the first one fails.
use skillfyme_hands_on.Base.{ℕ, refl, lookup, true, false, none, some, List, [], ◌∷◌, arith}
use skillfyme_hands_on.LlmGateway.Router.{
  hint_rag, estimate_cost, estimate_tokens, max_output_tokens_for,
}
use skillfyme_hands_on.LlmGateway.Budget.Ledger.{
  defaults, new_ledger, check, charge, note_provider_error, roll, fits,
}
use skillfyme_hands_on.LlmGateway.PromptCache.{
  Text, CachedValue, CacheConfig, get, evict_expired, shingle, semantic_best,
}
use skillfyme_hands_on.LlmGateway.Service.{
  LlmRequest, LlmProvider, Gateway, call, call_providers, try_providers, order_by_health,
}
use skillfyme_hands_on.LlmGateway.Service.Laws.{Accounts, call-Accounts}
use skillfyme_hands_on.LlmGateway.Service.Repeats.{IsRepeat, call-IsRepeat}

sum : Text → ℕ
sum [] = 0
sum (c ∷ cs) = c

abbrev same : Text → Text
same t = t

abbrev cfg : CacheConfig
cfg = record { ttl_ms = 100; max_entries = 2 }

abbrev request : LlmRequest
request = record {
  task_class = hint_rag;
  prompt_version = 1 ∷ [];
  system = 2 ∷ [];
  user = 3 ∷ [];
  scope = record { attempt_id = some 1; user_id = none; tenant_id = none };
  max_output_tokens = none;
  no_cache = false;
}

abbrev reply : CachedValue
reply = record { text = 104 ∷ 105 ∷ []; model = 1; input_tokens = 3; output_tokens = 2 }

abbrev providers : List LlmProvider
providers =
    record { name = 1; healthy = true; complete = λ t s u n. none }
    ∷ record { name = 2; healthy = false; complete = λ t s u n. some reply }
    ∷ []

abbrev gateway : Gateway
unfolding new_ledger
gateway = record { budget = new_ledger defaults 0; cache = []; records = [] }

call-Accounts_example :
    Accounts sum same cfg 10 request gateway (call sum same cfg 10 request providers gateway)
call-Accounts_example = call-Accounts sum same cfg 10 request providers gateway

call-IsRepeat_example :
    IsRepeat
      (call sum same cfg 10 request providers gateway).0
      (call sum same cfg 50 request [] (call sum same cfg 10 request providers gateway).1).0
unfolding lookup new_ledger check roll fits estimate_cost estimate_tokens max_output_tokens_for call
    call_providers try_providers order_by_health get evict_expired semantic_best shingle charge
    note_provider_error
call-IsRepeat_example =
    call-IsRepeat sum same cfg 10 50 1 request providers [] gateway refl (omega arith) refl refl
