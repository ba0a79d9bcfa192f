-- ===== src/Project/Service/Gates.antt =====
-- How a milestone is gated: `runMilestoneValidators`, `gradeMilestoneRubric`,
-- `computeMilestoneScore` and the gate in `submitMilestone` of
-- practice-core/src/modules/project/project.service.ts.
use skillfyme_hands_on.Base.{
  ℕ, ◌+◌, ◌-◌, ◌*◌, min, Bool, true, false, ◌&&◌, ◌||◌, Option, none, some, List, [], ◌∷◌, map,
  ◌==◌, leb, if◌then◌else◌, length, any, all, filter, get_or,
}
use skillfyme_hands_on.Store.Milestones.{Gate, all_validators_pass, rubric_min_level, both}
use skillfyme_hands_on.Store.Rows.{Attempt, ActivityVersion, ValidatorSpec, TaskSpec}
use skillfyme_hands_on.Store.Monad.{ok, err, fault, M, ◌>>=◌, bind, return}
use skillfyme_hands_on.Evaluation.ValidatorRunner.{ResultStatus, TaskSummary, run}
use skillfyme_hands_on.Evaluation.Service.{take_or_throw}
use skillfyme_hands_on.Project.Ports.{Ports, grading_level, round_div}
use skillfyme_hands_on.Project.Service.Specs.{MilestoneSpec, attempt_version}

-- An entry of `validatorSummary`
pub record ValidatorSummary : Type 0 where
  pub task_key : ℕ
  pub passed : Bool

abbrev pub summarise : TaskSummary → ValidatorSummary
summarise s = record { task_key = s.task_key; passed = s.passed }

-- `spec.taskKeys.includes(t.key)`
unfoldable pub selected_tasks : List ℕ → List TaskSpec → List TaskSpec
selected_tasks keys ts = filter (λ t. any (λ k. k == t.key) keys) ts

unfoldable pub all_pass : List ValidatorSummary → Bool
all_pass ss = all (λ s. s.passed) ss

abbrev pub passes_of : List ValidatorSummary → ℕ
passes_of ss = length (filter (λ s. s.passed) ss)

abbrev pub has_none {ℓ} : {A : Type ℓ} → List A → Bool
has_none [] = true
has_none (x ∷ xs) = false

-- What the rubric of a milestone came to, for a gate that has one.
pub record RubricResult : Type 0 where
  pub gate_level : ℕ
  pub provisional : Bool

abbrev pub uses_rubric : Gate → Bool
uses_rubric all_validators_pass = false
uses_rubric rubric_min_level = true
uses_rubric both = true

unfoldable pub validators_pass : MilestoneSpec → List ValidatorSummary → Bool
unfolding all_pass
validators_pass s ss = has_none s.task_keys || all_pass ss

unfoldable pub rubric_pass : MilestoneSpec → Option RubricResult → Bool
rubric_pass s none = true
rubric_pass s (some r) = leb (get_or s.min_level 3) r.gate_level

-- Whether the gate of a milestone is cleared.
unfoldable pub clears : MilestoneSpec → List ValidatorSummary → Option RubricResult → Bool
unfolding validators_pass rubric_pass
clears s ss r = elim s.gate [
  | all_validators_pass ↦ validators_pass s ss
  | rubric_min_level ↦ rubric_pass s r
  | both ↦ validators_pass s ss && rubric_pass s r
]

-- `clamp01((level - 1) / 3)`, as a number of thirds
abbrev pub rubric_thirds : Option RubricResult → ℕ
rubric_thirds none = 3
rubric_thirds (some r) = min 3 (r.gate_level - 1)

-- `validatorScore` is `passes` over `runs`.
abbrev pub passes : List ValidatorSummary → ℕ
passes [] = 1
passes (s ∷ ss) = passes_of (s ∷ ss)

abbrev pub runs : List ValidatorSummary → ℕ
runs [] = 1
runs (s ∷ ss) = length (s ∷ ss)

unfoldable pub compute_milestone_score :
    MilestoneSpec → List ValidatorSummary → Option RubricResult → ℕ
unfolding round_div
compute_milestone_score s ss r = elim s.gate [
  | all_validators_pass ↦ round_div (10_000 * passes ss) (runs ss)
  | rubric_min_level ↦ round_div (10_000 * rubric_thirds r) 3
  | both ↦ round_div (10_000 * (3 * passes ss + rubric_thirds r * runs ss)) (6 * runs ss)
]

module _ (execute : Option ℕ → ValidatorSpec → ℕ → Option ResultStatus) where
  abbrev run_selected : ℕ → List ℕ → Attempt × ActivityVersion → M (List ValidatorSummary)
  unfolding selected_tasks
  run_selected id keys (a, v) =
      run (execute a.environment_id) id (selected_tasks keys v.tasks) >>= λ ss.
      return (map summarise ss)

  unfoldable pub run_milestone_validators : ℕ → MilestoneSpec → M (List ValidatorSummary)
  unfolding selected_tasks
  run_milestone_validators id s w =
      if has_none s.task_keys
      then ok [] w
      else bind (take_or_throw (attempt_version id w) w) (run_selected id s.task_keys)

module _ (ports : Ports) where
  -- `gradeMilestoneRubric`: `none` where the grader throws
  unfoldable pub grade_milestone_rubric : MilestoneSpec → Option ℕ → Option RubricResult
  unfolding grading_level
  grade_milestone_rubric s text = elim s.rubric [
    | none ↦ some (record { gate_level = 0; provisional = true })
    | some rubric ↦
        if ports.has_rubric rubric
        then elim (ports.grade_artifact rubric text) [
          | none ↦ none
          | some g ↦ some (record { gate_level = grading_level g; provisional = g.provisional })
        ]
        else some (record { gate_level = 0; provisional = true })
  ]

  -- The rubric's part of the gate, where the gate has one.
  unfoldable pub grade_if_used : MilestoneSpec → Option ℕ → M (Option RubricResult)
  unfolding grade_milestone_rubric
  grade_if_used s text w =
      if uses_rubric s.gate
      then elim (grade_milestone_rubric s text) [ none ↦ err fault w | some r ↦ ok (some r) w ]
      else ok none w
