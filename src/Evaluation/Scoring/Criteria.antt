-- ===== src/Evaluation/Scoring/Criteria.antt =====
-- practice-core/src/modules/evaluation/criteria.ts. Of a criterion's result the explanation is left out.
use skillfyme_hands_on.Base.{
  ℕ, ◌+◌, Bool, true, false, ◌||◌, not, Option, none, some, List, [], ◌∷◌, map, ◌++◌, ltb, ◌==◌,
  if◌then◌else◌, length, any, filter, Text, strip_prefix,
}
use skillfyme_hands_on.Common.Number.{Number, nat, clamp01, sum}
use skillfyme_hands_on.Evaluation.ValidatorRunner.{pass, error, ValidatorResult, TaskSummary}
use skillfyme_hands_on.Evaluation.Scoring.Profile.{
  Criterion, technical_correctness, task_completion, efficiency, diagnostic_efficiency,
  hypothesis_ordering, troubleshooting, technical_implementation, reliability, unregistered,
}

-- Minutes and the accrued penalty are numbers; the rest are counts.
pub record CriterionInput {ℓ} (W : Type ℓ) : Type ℓ where
  pub task_results : List TaskSummary
  pub hint_penalty_total : W
  pub reset_count : ℕ
  pub retry_index : ℕ
  pub active_minutes : W
  pub estimated_minutes : W
  pub pre_submit_validation_run_count : ℕ
  pub blast_radius_violations : ℕ
  pub good_count : ℕ
  pub bad_count : ℕ
  pub command_sequence : List Text
  pub canonical_diagnostic_paths : List (List Text)

abbrev is_error : ValidatorResult → Bool
is_error r = elim r.status [ error ↦ true | _ ↦ false ]

abbrev is_pass : ValidatorResult → Bool
is_pass r = elim r.status [ pass ↦ true | _ ↦ false ]

abbrev flat_map {ℓ κ} : {A : Type ℓ} {B : Type κ} → (A → List B) → List A → List B
flat_map f [] = []
flat_map f (x ∷ xs) = f x ++ flat_map f xs

abbrev weight_of : List ValidatorResult → ℕ
weight_of [] = 0
weight_of (r ∷ rs) = r.spec.weight + weight_of rs

-- `commandSequence.findIndex((cmd) => cmd.startsWith(step))`; none is -1.
unfoldable pub first_seen_index : Text → List Text → Option ℕ
first_seen_index step [] = none
first_seen_index step (cmd ∷ cmds) =
    let later = first_seen_index step cmds in
    elim (strip_prefix step cmd) [
      | some _ ↦ some 0
      | none ↦ elim later [ none ↦ none | some i ↦ some (i + 1) ]
    ]

pub record Pairs : Type 0 where
  pub correct : ℕ
  pub comparable : ℕ

-- The pairs of the step at `i` with each of the steps after it.
unfoldable pub pairs_with : Option ℕ → List (Option ℕ) → Pairs
pairs_with none js = record { correct = 0; comparable = 0 }
pairs_with (some i) [] = record { correct = 0; comparable = 0 }
pairs_with (some i) (none ∷ js) = pairs_with (some i) js
pairs_with (some i) (some j ∷ js) =
    let rest = pairs_with (some i) js in
    record { correct = (if ltb i j then 1 else 0) + rest.correct; comparable = 1 + rest.comparable }

unfoldable pub ordered_pairs : List (Option ℕ) → Pairs
unfolding pairs_with
ordered_pairs [] = record { correct = 0; comparable = 0 }
ordered_pairs (i ∷ js) =
    let rest = ordered_pairs js in
    let own = pairs_with i js in
    record { correct = own.correct + rest.correct; comparable = own.comparable + rest.comparable }

unfoldable pub pairs_for_path : List Text → List Text → Pairs
unfolding ordered_pairs first_seen_index
pairs_for_path cmds path = ordered_pairs (map (λ step. first_seen_index step cmds) path)

module _ {ℓ} {W : Type ℓ} ⦃n : Number W⦄ where
  unfoldable pub technical_correctness_v1 : CriterionInput W → W
  technical_correctness_v1 i =
      let scorable = filter (λ r. not (is_error r)) (flat_map (λ t. t.results) i.task_results) in
      let total = weight_of scorable in
      if length scorable == 0
      then nat 0
      else clamp01 (
          if ltb 0 total
          then n.div (nat (weight_of (filter is_pass scorable))) (nat total)
          else nat 0)

  unfoldable pub task_completion_v1 : CriterionInput W → W
  task_completion_v1 i =
      let required = filter (λ t. t.required) i.task_results in
      if length required == 0
      then nat 1
      else clamp01 (n.div (nat (length (filter (λ t. t.passed) required))) (nat (length required)))

  abbrev has_evidence : CriterionInput W → Bool
  has_evidence i =
      any (λ t. t.passed) i.task_results
      || ltb 0 i.pre_submit_validation_run_count
      || n.le (n.ratio 17 100) i.active_minutes

  unfoldable pub efficiency_v1 : CriterionInput W → W
  efficiency_v1 i =
      let ratio = n.div i.active_minutes i.estimated_minutes in
      if not (has_evidence i)
      then nat 0
      else if n.le i.estimated_minutes (nat 0)
      then nat 1
      else if n.le ratio (nat 1)
      then nat 1
      else clamp01 (n.sub (nat 1) (n.div (n.sub ratio (nat 1)) (nat 2)))

  unfoldable pub diagnostic_efficiency_v1 : CriterionInput W → W
  diagnostic_efficiency_v1 i =
      let total = i.good_count + i.bad_count in
      if total == 0 then nat 1 else clamp01 (n.div (nat i.good_count) (nat total))

  -- The score of a path: no pairs count 0, and are not counted below.
  abbrev path_score : Pairs → W
  path_score p = if ltb 0 p.comparable then n.div (nat p.correct) (nat p.comparable) else nat 0

  unfoldable pub hypothesis_ordering_v1 : CriterionInput W → W
  unfolding pairs_for_path
  hypothesis_ordering_v1 i =
      let results = map (pairs_for_path i.command_sequence) i.canonical_diagnostic_paths in
      let scored = filter (λ p. ltb 0 p.comparable) results in
      if length i.canonical_diagnostic_paths == 0
      then nat 1
      else if length scored == 0
      then nat 1
      else clamp01 (n.div (sum (nat 0) (map path_score scored)) (nat (length scored)))

  unfoldable pub troubleshooting_v1 : CriterionInput W → W
  unfolding diagnostic_efficiency_v1 hypothesis_ordering_v1
  troubleshooting_v1 i =
      clamp01 (n.div (n.add (diagnostic_efficiency_v1 i) (hypothesis_ordering_v1 i)) (nat 2))

  -- `CRITERION_REGISTRY[key]`
  unfoldable pub criterion_registry : Criterion → Option (CriterionInput W → W)
  unfolding technical_correctness_v1 task_completion_v1 efficiency_v1 diagnostic_efficiency_v1
      hypothesis_ordering_v1 troubleshooting_v1
  criterion_registry technical_correctness = some technical_correctness_v1
  criterion_registry task_completion = some task_completion_v1
  criterion_registry efficiency = some efficiency_v1
  criterion_registry diagnostic_efficiency = some diagnostic_efficiency_v1
  criterion_registry hypothesis_ordering = some hypothesis_ordering_v1
  criterion_registry troubleshooting = some troubleshooting_v1
  criterion_registry technical_implementation = some technical_correctness_v1
  criterion_registry reliability = some technical_correctness_v1
  criterion_registry (unregistered k) = none
