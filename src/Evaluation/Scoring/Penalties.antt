-- ===== src/Evaluation/Scoring/Penalties.antt =====
-- How the penalties move a score.
use skillfyme_hands_on.Base.{
  ℕ, ◌≤◌, ◌≡◌, refl, ap, subst, sym, ◌∙◌, Bool, true, Option, none, some, List, [], ◌∷◌, arith,
}
use skillfyme_hands_on.Common.Number.{Number, IsOrdered, ◌≼◌, nat, clamp01_mono, least_mono}
use skillfyme_hands_on.Evaluation.Scoring.Profile.{
  Criterion, technical_correctness, task_completion, efficiency, diagnostic_efficiency,
  hypothesis_ordering, troubleshooting, technical_implementation, reliability, unregistered, Cost,
  ScoringProfile,
}
use skillfyme_hands_on.Evaluation.Scoring.Criteria.{
  CriterionInput, technical_correctness_v1, task_completion_v1, efficiency_v1,
  diagnostic_efficiency_v1, hypothesis_ordering_v1, troubleshooting_v1, criterion_registry,
}
use skillfyme_hands_on.Evaluation.Scoring.Engine.{
  CriterionScore, ScoreBreakdown, weigh, weigh_with, breakdown_with, weighted_sum, capped,
  hint_penalty, total_penalty_of, total_bonus_of, guarded, final_score_of, breakdown, score,
}

-- The same attempt, had it cost other hints, resets, retries and violations.
abbrev pub with_costs {ℓ} : {W : Type ℓ} → CriterionInput W → W → ℕ → ℕ → ℕ → CriterionInput W
with_costs i hints resets retries violations = record i {
  hint_penalty_total = hints;
  reset_count = resets;
  retry_index = retries;
  blast_radius_violations = violations;
}

module _ {ℓ} {W : Type ℓ} ⦃n : Number W⦄ where
  criterion-with_costs :
      (key : Criterion) (i : CriterionInput W) (h : W) (r t v : ℕ) (weight : W)
      (rest : Option (List (CriterionScore W)))
      → weigh_with (criterion_registry key) (with_costs i h r t v) key weight rest
        ≡ weigh_with (criterion_registry key) i key weight rest
  unfolding criterion_registry technical_correctness_v1 task_completion_v1 efficiency_v1
      diagnostic_efficiency_v1 hypothesis_ordering_v1 troubleshooting_v1
  criterion-with_costs technical_correctness i h r t v weight rest = refl
  criterion-with_costs task_completion i h r t v weight rest = refl
  criterion-with_costs efficiency i h r t v weight rest = refl
  criterion-with_costs diagnostic_efficiency i h r t v weight rest = refl
  criterion-with_costs hypothesis_ordering i h r t v weight rest = refl
  criterion-with_costs troubleshooting i h r t v weight rest = refl
  criterion-with_costs technical_implementation i h r t v weight rest = refl
  criterion-with_costs reliability i h r t v weight rest = refl
  criterion-with_costs (unregistered k) i h r t v weight rest = refl

  -- No criterion reads what the penalties are for.
  pub weigh-with_costs :
      (i : CriterionInput W) (h : W) (r t v : ℕ) (ws : List (Criterion × W))
      → weigh (with_costs i h r t v) ws ≡ weigh i ws
  unfolding weigh
  weigh-with_costs i h r t v [] = refl
  weigh-with_costs i h r t v ((key, weight) ∷ ws) =
      criterion-with_costs key i h r t v weight _
      ∙ ap (weigh_with (criterion_registry key) i key weight) (weigh-with_costs i h r t v ws)

  abbrev pub IsNoBetter : ScoreBreakdown W → ScoreBreakdown W → Type 0
  IsNoBetter c d = (c.final_score ≼ d.final_score) × (c.passed ≡ true → d.passed ≡ true)

  -- No cost is a gain.
  abbrev pub IsCost : Option (Cost W) → Type 0
  IsCost none = Unit
  IsCost (some c) = nat 0 ≼ c.each

  module _ (laws : IsOrdered W) where
    open laws use {le_refl, le_trans, le_total, nat_mono, add_mono, sub_mono, mul_mono}

    capped_mono :
        (o : Option (Cost W)) (s t a b : W) → IsCost o → s ≼ t → a ≼ b → capped o s a ≼ capped o t b
    capped_mono none s t a b z h k = k
    capped_mono (some c) s t a b z h k =
        add_mono _ _ _ _ k (least_mono laws _ _ _ _ (mul_mono s t c.each z h) (le_refl c.cap))

    hint_penalty_mono : (o : Option W) (s t a : W) → s ≼ t → hint_penalty o s a ≼ hint_penalty o t a
    hint_penalty_mono none s t a h = le_refl a
    hint_penalty_mono (some c) s t a h =
        add_mono _ _ _ _ (le_refl a) (least_mono laws _ _ _ _ h (le_refl c))

    guarded_mono : (o : Option W) (u : Bool) (x y : W) → x ≼ y → guarded o u x ≼ guarded o u y
    guarded_mono none u x y h = h
    guarded_mono (some g) u x y h =
        ground
          (arith, le_total x g, le_total y g, le_trans g x y, le_refl g, le_total g x, le_total g y)

    final_score_mono :
        (p : ScoringProfile W) (weighted more less bonus : W)
        → less ≼ more
        → final_score_of p weighted more bonus ≼ final_score_of p weighted less bonus
    unfolding final_score_of
    final_score_mono p weighted more less bonus h = clamp01_mono laws _ _ (
        guarded_mono p.min_after_penalties _ _ _ (
          add_mono _ _ _ _ (sub_mono weighted weighted more less (le_refl weighted) h)
            (le_refl bonus)))

    penalty_mono :
        (p : ScoringProfile W) (i : CriterionInput W) (h : W) (r t v : ℕ)
        → IsCost p.resets
        → IsCost p.retries
        → IsCost p.blast_radius
        → IsCost p.overtime
        → i.hint_penalty_total ≼ h
        → i.reset_count ≤ r
        → i.retry_index ≤ t
        → i.blast_radius_violations ≤ v
        → total_penalty_of p i ≼ total_penalty_of p (with_costs i h r t v)
    unfolding total_penalty_of
    penalty_mono p i h r t v cr ct cv co eh er et ev =
        capped_mono p.overtime _ _ _ _ co (le_refl _) (
          capped_mono p.blast_radius _ _ _ _ cv (nat_mono _ _ ev) (
            capped_mono p.retries _ _ _ _ ct (nat_mono _ _ et) (
              capped_mono p.resets _ _ _ _ cr (nat_mono _ _ er)
                (hint_penalty_mono p.hints_cap _ _ _ eh))))

    -- Under a profile whose costs are no gains, the same attempt with more hint penalties, resets,
    -- retries or violations, each at least as many, scores no more, and passes only if it passed with
    -- fewer.
    pub score-with_costs :
        (p : ScoringProfile W) (i : CriterionInput W) (first : Bool) (h : W) (r t v : ℕ)
        (b b' : ScoreBreakdown W)
        → IsCost p.resets
        → IsCost p.retries
        → IsCost p.blast_radius
        → IsCost p.overtime
        → i.hint_penalty_total ≼ h
        → i.reset_count ≤ r
        → i.retry_index ≤ t
        → i.blast_radius_violations ≤ v
        → score i p first ≡ some b
        → score (with_costs i h r t v) p first ≡ some b'
        → (b'.final_score ≼ b.final_score) × (b'.passed ≡ true → b.passed ≡ true)
    unfolding score
    score-with_costs p i first h r t v b b' cr ct cv co eh er et ev e e' =
        go (weigh i p.weights) e (
          ap (breakdown_with p (with_costs i h r t v) first)
            (sym (weigh-with_costs i h r t v p.weights))
          ∙ e')
      where
        go :
            (o : Option (List (CriterionScore W)))
            → breakdown_with p i first o ≡ some b
            → breakdown_with p (with_costs i h r t v) first o ≡ some b'
            → (b'.final_score ≼ b.final_score) × (b'.passed ≡ true → b.passed ≡ true)
        go none k k' = absurd (ground arith)
        go (some cs) k k' =
            let less : ScoreBreakdown W = breakdown p i first cs in
            let more : ScoreBreakdown W = breakdown p (with_costs i h r t v) first cs in
            let f : less ≡ b = cc k in
            let f' : more ≡ b' = cc k' in
            let m : more.final_score ≼ less.final_score =
              final_score_mono p (weighted_sum (nat 0) cs) _ _ (total_bonus_of p first)
                (penalty_mono p i h r t v cr ct cv co eh er et ev) in
            subst (λ (x : ScoreBreakdown W). IsNoBetter b' x) f
              (subst (λ (y : ScoreBreakdown W). IsNoBetter y less) f' (m, λ q. le_trans _ _ _ q m))
