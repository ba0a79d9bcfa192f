-- ===== src/LlmGateway/Service/Laws.antt =====
-- What a call of the gateway ends with, and what it leaves.
use skillfyme_hands_on.Base.{
  ℕ, ◌≡◌, ◌∙◌, refl, Bool, true, false, Option, none, some, List, [], ◌∷◌, ◌⊎◌, inl, inr,
  Option-cases, Bool-cases, arith,
}
use skillfyme_hands_on.LlmGateway.Budget.Ledger.{
  BudgetLedger, Scope, check, charge, note_provider_error,
}
use skillfyme_hands_on.LlmGateway.PromptCache.{Text, CachedValue, CacheConfig, put}
use skillfyme_hands_on.LlmGateway.Service.{
  LlmRequest, Degraded, all_providers_down, Source, from_cache, from_none, from_provider,
  LlmResponse, LlmProvider, Gateway, order_by_health, degraded_response, actual_cost,
  provider_response, completion, try_providers, estimated, call_providers, looked_up, call,
}

-- The same is spent in every scope.
pub record SameSpending (b c : BudgetLedger) : Type 0 where
  pub global : c.global ≡ b.global
  pub attempt : c.attempt ≡ b.attempt
  pub user : c.user ≡ b.user
  pub tenant : c.tenant ≡ b.tenant

note_provider_error-SameSpending :
    (now : ℕ) (b : BudgetLedger) → SameSpending b (note_provider_error now b)
unfolding note_provider_error
note_provider_error-SameSpending now b = ground arith

charge-SameSpending :
    (now cost : ℕ) (s : Scope) (b c : BudgetLedger)
    → SameSpending b c
    → SameSpending (charge now cost s b) (charge now cost s c)
unfolding charge
charge-SameSpending now cost s b c h = record {
  global = rw h.global refl;
  attempt = rw h.attempt refl;
  user = rw h.user refl;
  tenant = rw h.tenant refl;
}

SameSpending-trans : (b c e : BudgetLedger) → SameSpending b c → SameSpending c e → SameSpending b e
SameSpending-trans b c e h k = record {
  global = k.global ∙ h.global;
  attempt = k.attempt ∙ h.attempt;
  user = k.user ∙ h.user;
  tenant = k.tenant ∙ h.tenant;
}

abbrev pub has_some {ℓ} : {A : Type ℓ} → Option A → Bool
has_some none = false
has_some (some a) = true

module _ (sha256 : Text → ℕ) (redact : Text → Text) (cfg : CacheConfig) (now : ℕ)
    (req : LlmRequest) where
  -- A provider has answered: what it cost is charged, and the answer is cached.
  pub record IsAnswered (g : Gateway) (r : LlmResponse × Gateway) : Type 0 where
    pub name : ℕ
    pub out : CachedValue
    pub response : r.0 ≡ provider_response req name out
    pub cached :
        r.1.cache
        ≡ put sha256 cfg now req.prompt_version (redact req.system) (redact req.user) out g.cache
    pub spent : SameSpending (charge now (actual_cost req out) req.scope g.budget) r.1.budget
    pub logged : r.1.records ≡ r.0 ∷ g.records

  -- No provider has answered.
  pub record IsUnanswered (g : Gateway) (r : LlmResponse × Gateway) : Type 0 where
    pub reason : Degraded
    pub response : r.0 ≡ degraded_response req reason
    pub cached : r.1.cache ≡ g.cache
    pub spent : SameSpending g.budget r.1.budget
    pub logged : r.1.records ≡ r.0 ∷ g.records

  after_error-IsAnswered :
      (g : Gateway) (r : LlmResponse × Gateway)
      → IsAnswered (record g { budget = note_provider_error now g.budget }) r
      → IsAnswered g r
  after_error-IsAnswered g r h = record {
    name = h.name;
    out = h.out;
    response = h.response;
    cached = h.cached;
    spent =
        SameSpending-trans _ _ _
          (charge-SameSpending now (actual_cost req h.out) req.scope _ _
            (note_provider_error-SameSpending now g.budget))
          h.spent;
    logged = h.logged;
  }

  after_error :
      (g : Gateway) (r : LlmResponse × Gateway)
      → IsAnswered (record g { budget = note_provider_error now g.budget }) r
        ⊎ (IsUnanswered (record g { budget = note_provider_error now g.budget }) r)
      → IsAnswered g r ⊎ (IsUnanswered g r)
  after_error g r (inl h) = inl (after_error-IsAnswered g r h)
  after_error g r (inr h) = inr (record {
    reason = h.reason;
    response = h.response;
    cached = h.cached;
    spent = SameSpending-trans _ _ _ (note_provider_error-SameSpending now g.budget) h.spent;
    logged = h.logged;
  })

  pub try_providers_cases :
      (ps : List LlmProvider) (g : Gateway)
      → IsAnswered g (try_providers sha256 redact cfg now req ps g)
        ⊎ (IsUnanswered g (try_providers sha256 redact cfg now req ps g))
  unfolding try_providers
  try_providers_cases [] g = inr (record {
    reason = all_providers_down;
    response = refl;
    cached = refl;
    spent = record { global = refl; attempt = refl; user = refl; tenant = refl };
    logged = refl;
  })
  try_providers_cases (p ∷ ps) g = elim (Option-cases (completion sha256 redact cfg now req p)) [
    | inl e ↦
        rw (e, try_providers)
          (after_error g _
            (try_providers_cases ps (record g { budget = note_provider_error now g.budget })))
    | inr (out, e) ↦
        rw (e, try_providers)
          (inl (record {
            name = p.name;
            out = out;
            response = refl;
            cached = refl;
            spent = record { global = refl; attempt = refl; user = refl; tenant = refl };
            logged = refl;
          }))
  ]

  -- What a call spends, by who answered it.
  abbrev pub Spends : Gateway → LlmResponse × Gateway → Source → Type 0
  Spends g r from_cache = SameSpending g.budget r.1.budget
  Spends g r from_none = SameSpending g.budget r.1.budget
  Spends g r (from_provider n) = SameSpending (charge now r.0.cost req.scope g.budget) r.1.budget

  abbrev pub Accounts : Gateway → LlmResponse × Gateway → Type 0
  Accounts g r = (r.1.records ≡ r.0 ∷ g.records) × Spends g r r.0.provider

  try_providers-Accounts :
      (ps : List LlmProvider) (g : Gateway)
      → Accounts g (try_providers sha256 redact cfg now req ps g)
  unfolding provider_response
  try_providers-Accounts ps g = elim (try_providers_cases ps g) [
    | inl a ↦ (a.logged, rw a.response a.spent)
    | inr u ↦ (u.logged, rw u.response u.spent)
  ]

  call_providers-Accounts :
      (ps : List LlmProvider) (g : Gateway)
      → Accounts g (call_providers sha256 redact cfg now req ps g)
  unfolding call_providers
  call_providers-Accounts ps g =
      elim (Option-cases (check now (estimated sha256 redact cfg now req) req.scope g.budget)) [
        | inl e ↦ rw (e, call_providers) (try_providers-Accounts (order_by_health ps) g)
        | inr (s, e) ↦
            rw (e, call_providers)
              (refl, record { global = refl; attempt = refl; user = refl; tenant = refl })
      ]

  -- A call is recorded once, with the response that it returns. If a provider answered it, what was
  -- spent in each scope is what charging the response's cost once makes of it; if the cache answered,
  -- or nobody, nothing is spent.
  pub call-Accounts :
      (ps : List LlmProvider) (g : Gateway) → Accounts g (call sha256 redact cfg now req ps g)
  unfolding call
  call-Accounts ps g = elim (Bool-cases req.no_cache) [
    | inl b ↦ rw b (call_providers-Accounts ps g)
    | inr b ↦ elim (Option-cases (looked_up sha256 redact cfg now req g).0) [
      | inl e ↦
          rw (b, e)
            (call_providers-Accounts ps
              (record g { cache = (looked_up sha256 redact cfg now req g).1 }))
      | inr (hit, e) ↦
          rw (b, e) (refl, record { global = refl; attempt = refl; user = refl; tenant = refl })
    ]
  ]

  abbrev pub completes : LlmProvider → Bool
  completes p = has_some (completion sha256 redact cfg now req p)
