-- ===== src/LlmGateway/Service/Repeats.antt =====
-- A call of the gateway made again.
use skillfyme_hands_on.Base.{
  ℕ, suc, ◌+◌, ◌<◌, ◌≡◌, ◌∙◌, refl, Bool, true, false, some, List, ◌⊎◌, inl, inr, ap, Option-cases,
  Bool-cases, arith,
}
use skillfyme_hands_on.LlmGateway.Budget.Ledger.{check}
use skillfyme_hands_on.LlmGateway.PromptCache.{Text, exact, CacheHit, CacheConfig, get}
use skillfyme_hands_on.LlmGateway.PromptCache.Laws.{get-put}
use skillfyme_hands_on.LlmGateway.Service.{
  LlmRequest, Source, from_cache, from_none, from_provider, LlmResponse, LlmProvider, Gateway,
  order_by_health, cached_response, provider_response, estimated, call_providers, looked_up, call,
}
use skillfyme_hands_on.LlmGateway.Service.Laws.{IsAnswered, IsUnanswered, try_providers_cases}

abbrev pub is_provider : Source → Bool
is_provider from_cache = false
is_provider from_none = false
is_provider (from_provider n) = true

module _ (sha256 : Text → ℕ) (redact : Text → Text) (cfg : CacheConfig) (now : ℕ)
    (req : LlmRequest) where
  -- A provider has answered, on some cache.
  abbrev Answered : LlmResponse × Gateway → Type 0
  Answered r = (g : Gateway) × IsAnswered sha256 redact cfg now req g r

  abbrev ByProvider : LlmResponse × Gateway → Type 0
  ByProvider r = Answered r ⊎ (is_provider r.0.provider ≡ false)

  by_provider :
      (g : Gateway) (r : LlmResponse × Gateway)
      → IsAnswered sha256 redact cfg now req g r ⊎ (IsUnanswered sha256 redact cfg now req g r)
      → ByProvider r
  by_provider g r (inl h) = inl (g, h)
  by_provider g r (inr h) = inr (rw h.response refl)

  call_providers_cases :
      (ps : List LlmProvider) (g : Gateway)
      → ByProvider (call_providers sha256 redact cfg now req ps g)
  unfolding call_providers
  call_providers_cases ps g =
      elim (Option-cases (check now (estimated sha256 redact cfg now req) req.scope g.budget)) [
        | inl e ↦
            rw (e, call_providers)
              (by_provider g _
                (try_providers_cases sha256 redact cfg now req (order_by_health ps) g))
        | inr (s, e) ↦ rw (e, call_providers) (inr refl)
      ]

  call_cases :
      (ps : List LlmProvider) (g : Gateway) → ByProvider (call sha256 redact cfg now req ps g)
  unfolding call
  call_cases ps g = elim (Bool-cases req.no_cache) [
    | inl b ↦ simp (b) (call_providers_cases ps g)
    | inr b ↦ elim (Option-cases (looked_up sha256 redact cfg now req g).0) [
      | inl e ↦
          simp (b, e)
            (call_providers_cases ps
              (record g { cache = (looked_up sha256 redact cfg now req g).1 }))
      | inr (hit, e) ↦ simp (b, e) (inr refl)
    ]
  ]

  call_hit :
      (ps : List LlmProvider) (g : Gateway) (hit : CacheHit)
      → req.no_cache ≡ false
      → (looked_up sha256 redact cfg now req g).0 ≡ some hit
      → (call sha256 redact cfg now req ps g).0 ≡ cached_response req hit
  unfolding call
  call_hit ps g hit b e = simp (b, e) refl

-- The response comes from the cache, says what `r` says, and costs nothing.
pub record IsRepeat (r q : LlmResponse) : Type 0 where
  pub provider : q.provider ≡ from_cache
  pub text : q.text ≡ r.text
  pub cost : q.cost ≡ 0

module _ (sha256 : Text → ℕ) (redact : Text → Text) (cfg : CacheConfig) where
  -- A call that a provider has answered, made again as the very next call of the gateway and before the
  -- answer's time to live is over, is answered by the cache with the same text at no cost, whatever the
  -- providers do then. The cache may hold one entry at least, and the call does not skip it.
  pub call-IsRepeat :
      (now later n : ℕ) (req : LlmRequest) (ps qs : List LlmProvider) (g : Gateway)
      → cfg.max_entries ≡ suc n
      → later < now + cfg.ttl_ms
      → req.no_cache ≡ false
      → is_provider (call sha256 redact cfg now req ps g).0.provider ≡ true
      → IsRepeat
          (call sha256 redact cfg now req ps g).0
          (call sha256 redact cfg later req qs (call sha256 redact cfg now req ps g).1).0
  unfolding looked_up provider_response
  call-IsRepeat now later n req ps qs g m h b a = elim (call_cases sha256 redact cfg now req ps g) [
    | inr k ↦ absurd (ground arith)
    | inl (x, k) ↦
        let e =
          call_hit sha256 redact cfg later req qs (call sha256 redact cfg now req ps g).1
            (record { value = k.out; kind = exact }) b
            (ap
                (λ c.
                  (get sha256 later req.prompt_version (redact req.system) (redact req.user) c).0)
                k.cached
              ∙ get-put sha256 cfg n now later _ _ _ k.out x.cache m h) in
        record { provider = rw e refl; text = rw (e, k.response) refl; cost = rw e refl }
  ]
