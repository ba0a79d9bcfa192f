-- ===== src/Evaluation/Scoring/Bounds.antt =====
-- What a score lies within, and how the penalties move it.
use skillfyme_hands_on.Base.{
  ◌≡◌, subst, if◌then◌else◌, ◌↔◌, Bool, true, false, Option, none, some, List, [], ◌∷◌, All, arith,
}
use skillfyme_hands_on.Common.Number.{
  Number, IsOrdered, ◌≼◌, nat, least, most, clamp01, clamp01_bounds,
}
use skillfyme_hands_on.Evaluation.Scoring.Profile.{
  Criterion, technical_correctness, task_completion, efficiency, diagnostic_efficiency,
  hypothesis_ordering, troubleshooting, technical_implementation, reliability, unregistered,
  ScoringProfile,
}
use skillfyme_hands_on.Evaluation.Scoring.Criteria.{
  CriterionInput, technical_correctness_v1, task_completion_v1, efficiency_v1,
  diagnostic_efficiency_v1, hypothesis_ordering_v1, troubleshooting_v1, criterion_registry,
}
use skillfyme_hands_on.Evaluation.Scoring.Engine.{
  CriterionScore, ScoreBreakdown, weigh, weigh_with, breakdown_with, weighted_sum, guarded,
  final_score_of, score,
}

module _ {ℓ} {W : Type ℓ} ⦃n : Number W⦄ (laws : IsOrdered W) where
  open laws use {le_refl, le_trans, le_total, nat_mono, add_mono, sub_mono, mul_mono}

  abbrev pub IsUnit : W → Type 0
  IsUnit x = (nat 0 ≼ x) × (x ≼ nat 1)

  zero-IsUnit : IsUnit (nat 0)
  zero-IsUnit = (le_refl (nat 0), nat_mono 0 1 (omega arith))

  one-IsUnit : IsUnit (nat 1)
  one-IsUnit = (nat_mono 0 1 (omega arith), le_refl (nat 1))

  if-IsUnit : (b : Bool) (x y : W) → IsUnit x → IsUnit y → IsUnit (if b then x else y)
  if-IsUnit true x y h k = h
  if-IsUnit false x y h k = k

  clamped : (x : W) → IsUnit (clamp01 x)
  clamped x = clamp01_bounds laws x

  -- Whatever criterion a key is registered to, its values lie between 0 and 1.
  AllUnit : Option (CriterionInput W → W) → Type ℓ
  AllUnit none = Unit
  AllUnit (some fn) = (i : CriterionInput W) → IsUnit (fn i)

  technical_correctness-IsUnit : (i : CriterionInput W) → IsUnit (technical_correctness_v1 i)
  unfolding technical_correctness_v1
  technical_correctness-IsUnit i = if-IsUnit _ _ _ zero-IsUnit (clamped _)

  registry_unit : (key : Criterion) → AllUnit (criterion_registry key)
  unfolding criterion_registry technical_correctness_v1 task_completion_v1 efficiency_v1
      diagnostic_efficiency_v1 hypothesis_ordering_v1 troubleshooting_v1 AllUnit
  registry_unit technical_correctness = technical_correctness-IsUnit
  registry_unit task_completion = λ i. if-IsUnit _ _ _ one-IsUnit (clamped _)
  registry_unit efficiency = λ i.
      if-IsUnit _ _ _ zero-IsUnit
        (if-IsUnit _ _ _ one-IsUnit (if-IsUnit _ _ _ one-IsUnit (clamped _)))
  registry_unit diagnostic_efficiency = λ i. if-IsUnit _ _ _ one-IsUnit (clamped _)
  registry_unit hypothesis_ordering =
      λ i. if-IsUnit _ _ _ one-IsUnit (if-IsUnit _ _ _ one-IsUnit (clamped _))
  registry_unit troubleshooting = λ i. clamped _
  registry_unit technical_implementation = technical_correctness-IsUnit
  registry_unit reliability = technical_correctness-IsUnit
  registry_unit (unregistered k) = tt

  abbrev pub IsUnits : List (CriterionScore W) → Type 0
  IsUnits cs = All (λ c. IsUnit c.value) cs

  abbrev AreUnits : Option (List (CriterionScore W)) → Type 0
  AreUnits none = Unit
  AreUnits (some cs) = IsUnits cs

  weigh_with-unit :
      (o : Option (CriterionInput W → W)) (i : CriterionInput W) (key : Criterion) (weight : W)
      (rest : Option (List (CriterionScore W)))
      → AllUnit o
      → AreUnits rest
      → AreUnits (weigh_with o i key weight rest)
  unfolding AllUnit
  weigh_with-unit none i key weight rest u k = tt
  weigh_with-unit (some fn) i key weight none u k = tt
  weigh_with-unit (some fn) i key weight (some cs) u k = (u i, k)

  weigh-unit : (i : CriterionInput W) (ws : List (Criterion × W)) → AreUnits (weigh i ws)
  unfolding weigh
  weigh-unit i [] = tt
  weigh-unit i ((key, weight) ∷ ws) =
      weigh_with-unit (criterion_registry key) i key weight (weigh i ws) (registry_unit key)
        (weigh-unit i ws)

  -- What holds of every breakdown that is given.
  abbrev OnBreakdown {κ} : (ScoreBreakdown W → Type κ) → Option (ScoreBreakdown W) → Type κ
  OnBreakdown P none = Unit
  OnBreakdown P (some b) = P b

  abbrev IsBounded : ScoringProfile W → ScoreBreakdown W → Type 0
  IsBounded p b =
      IsUnit b.final_score
      × IsUnits b.criteria
      × ((b.passed ≡ true) ↔ (p.pass_threshold ≼ b.final_score))

  -- A score that the engine gives lies between 0 and 1, and so does the value of each criterion, and the
  -- attempt passes exactly if the score reaches the profile's threshold.
  pub score_bounds :
      (i : CriterionInput W) (p : ScoringProfile W) (first : Bool) (b : ScoreBreakdown W)
      → score i p first ≡ some b
      → IsUnit b.final_score
        × IsUnits b.criteria
        × ((b.passed ≡ true) ↔ (p.pass_threshold ≼ b.final_score))
  unfolding score final_score_of
  score_bounds i p first b e =
      subst (OnBreakdown (IsBounded p)) e (go (weigh i p.weights) (weigh-unit i p.weights))
    where
      go :
          (o : Option (List (CriterionScore W)))
          → AreUnits o
          → OnBreakdown (IsBounded p) (breakdown_with p i first o)
      go none u = tt
      go (some cs) u = (clamped _, u, (λ h. h, λ h. h))

  -- With a guard of at most 1, a score whose weighted criteria alone reach the threshold is not taken
  -- below the guard by penalties.
  pub score-guard :
      (i : CriterionInput W) (p : ScoringProfile W) (first : Bool) (b : ScoreBreakdown W) (g : W)
      → score i p first ≡ some b
      → p.min_after_penalties ≡ some g
      → g ≼ nat 1
      → p.pass_threshold ≼ weighted_sum (nat 0) b.criteria
      → g ≼ b.final_score
  unfolding score final_score_of
  score-guard i p first b g e m h k = subst (OnBreakdown P) e (go (weigh i p.weights)) k
    where
      P : ScoreBreakdown W → Type 0
      P c = p.pass_threshold ≼ weighted_sum (nat 0) c.criteria → g ≼ c.final_score

      kept : (x : W) → g ≼ least (nat 1) (most (nat 0) (guarded (some g) true x))
      kept x = ground (
        arith,
        le_total g x,
        le_total (nat 0) g,
        le_refl g,
        le_trans g (nat 0) (nat 1),
        le_trans g x (nat 0),
        le_total (nat 0) x,
      )

      go : (o : Option (List (CriterionScore W))) → OnBreakdown P (breakdown_with p i first o)
      go none = tt
      go (some cs) = λ l. rw (m, l) (kept _)
