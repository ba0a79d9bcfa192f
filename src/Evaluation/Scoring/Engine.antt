-- ===== src/Evaluation/Scoring/Engine.antt =====
-- practice-core/src/modules/evaluation/scoring-engine.service.ts. none stands for the exception of an
-- unknown criterion. The versions of the criteria are left out; penalties and bonuses are their sums.
use skillfyme_hands_on.Base.{
  Bool, true, false, Option, none, some, List, [], ◌∷◌, ◌&&◌, if◌then◌else◌,
}
use skillfyme_hands_on.Common.Number.{Number, nat, lt, least, most}
use skillfyme_hands_on.Evaluation.Scoring.Profile.{Criterion, Cost, ScoringProfile}
use skillfyme_hands_on.Evaluation.Scoring.Criteria.{CriterionInput, criterion_registry}

-- An entry of `criteria`.
pub record CriterionScore {ℓ} (W : Type ℓ) : Type ℓ where
  pub key : Criterion
  pub value : W
  pub weight : W

pub record ScoreBreakdown {ℓ} (W : Type ℓ) : Type ℓ where
  pub final_score : W
  pub passed : Bool
  pub criteria : List (CriterionScore W)
  pub total_penalty : W
  pub total_bonus : W

module _ {ℓ} {W : Type ℓ} ⦃n : Number W⦄ where
  abbrev pub weigh_with :
      Option (CriterionInput W → W)
      → CriterionInput W
      → Criterion
      → W
      → Option (List (CriterionScore W))
      → Option (List (CriterionScore W))
  weigh_with none i key weight rest = none
  weigh_with (some fn) i key weight none = none
  weigh_with (some fn) i key weight (some cs) =
      some (record { key = key; value = fn i; weight = weight } ∷ cs)

  -- The loop over the weights: the entries, or the exception.
  unfoldable pub weigh : CriterionInput W → List (Criterion × W) → Option (List (CriterionScore W))
  unfolding criterion_registry
  weigh i [] = some []
  weigh i ((key, weight) ∷ ws) = weigh_with (criterion_registry key) i key weight (weigh i ws)

  unfoldable pub weighted_sum : W → List (CriterionScore W) → W
  weighted_sum acc [] = acc
  weighted_sum acc (c ∷ cs) = weighted_sum (n.add acc (n.mul c.value c.weight)) cs

  abbrev pub over_minutes : CriterionInput W → W
  over_minutes i = most (nat 0) (n.sub i.active_minutes i.estimated_minutes)

  -- A penalty that a profile has: so many times a cost, up to its cap.
  abbrev pub capped : Option (Cost W) → W → W → W
  capped none times acc = acc
  capped (some c) times acc = n.add acc (least (n.mul times c.each) c.cap)

  abbrev pub hint_penalty : Option W → W → W → W
  hint_penalty none accrued acc = acc
  hint_penalty (some cap) accrued acc = n.add acc (least accrued cap)

  unfoldable pub total_penalty_of : ScoringProfile W → CriterionInput W → W
  total_penalty_of p i = capped p.overtime (n.floor (n.div (over_minutes i) (nat 10))) (
      capped p.blast_radius (nat i.blast_radius_violations) (
        capped p.retries (nat i.retry_index) (
          capped p.resets (nat i.reset_count)
            (hint_penalty p.hints_cap i.hint_penalty_total (nat 0)))))

  abbrev pub total_bonus_of : ScoringProfile W → Bool → W
  total_bonus_of p false = nat 0
  total_bonus_of p true = elim p.first_try_pass [ none ↦ nat 0 | some b ↦ n.add (nat 0) b ]

  -- The guard, where the score without penalties would have passed.
  abbrev pub guarded : Option W → Bool → W → W
  guarded none unpenalised score = score
  guarded (some g) unpenalised score = if unpenalised && lt score g then g else score

  unfoldable pub final_score_of : ScoringProfile W → W → W → W → W
  final_score_of p weighted penalty bonus = least (nat 1) (
      most (nat 0) (
        guarded p.min_after_penalties (n.le p.pass_threshold weighted)
          (n.add (n.sub weighted penalty) bonus)))

  abbrev pub breakdown :
      ScoringProfile W → CriterionInput W → Bool → List (CriterionScore W) → ScoreBreakdown W
  breakdown p i first cs =
      let penalty = total_penalty_of p i in
      let bonus = total_bonus_of p first in
      let final = final_score_of p (weighted_sum (nat 0) cs) penalty bonus in
      record {
        final_score = final;
        passed = n.le p.pass_threshold final;
        criteria = cs;
        total_penalty = penalty;
        total_bonus = bonus;
      }

  abbrev pub breakdown_with :
      ScoringProfile W
      → CriterionInput W
      → Bool
      → Option (List (CriterionScore W))
      → Option (ScoreBreakdown W)
  breakdown_with p i first none = none
  breakdown_with p i first (some cs) = some (breakdown p i first cs)

  unfoldable pub score : CriterionInput W → ScoringProfile W → Bool → Option (ScoreBreakdown W)
  unfolding weigh total_penalty_of final_score_of weighted_sum
  score i p was_first_try_pass = breakdown_with p i was_first_try_pass (weigh i p.weights)
