-- ===== src/Evaluation/Scoring/Tests.antt =====
-- Scores in ten-thousandths.
use skillfyme_hands_on.Base.{
  ℕ, ◌≡◌, ◌↔◌, refl, Bool, true, false, Option, none, some, [], ◌∷◌, arith, if◌then◌else◌, map,
  find,
}
use skillfyme_hands_on.Common.Mode.{guided_lab}
use skillfyme_hands_on.Common.Status.{submitted, passed, failed}
use skillfyme_hands_on.Common.Number.{◌≼◌, ten_thousandths, ten_thousandths-IsOrdered}
use skillfyme_hands_on.Store.Rows.{
  Attempt, ValidatorSpec, ActivityVersion, LearnerActivityState, World, published,
}
use skillfyme_hands_on.Store.Monad.{ok}
use skillfyme_hands_on.Store.Repository.{find_by_id}
use skillfyme_hands_on.Evaluation.ValidatorRunner.{ResultStatus, pass, TaskSummary, summary_of}
use skillfyme_hands_on.Evaluation.Service.{is_state_of, evaluate}
use skillfyme_hands_on.Evaluation.Scoring.Profile.{
  technical_correctness, task_completion, efficiency, guided_lab_default, profile_of,
  guided_lab_default_profile,
}
use skillfyme_hands_on.Evaluation.Scoring.Criteria.{
  CriterionInput, technical_correctness_v1, task_completion_v1, efficiency_v1, criterion_registry,
  pairs_for_path, first_seen_index,
}
use skillfyme_hands_on.Evaluation.Scoring.Engine.{ScoreBreakdown, score, weighted_sum}
use skillfyme_hands_on.Evaluation.Scoring.Bounds.{score-guard}
use skillfyme_hands_on.Evaluation.Scoring.Penalties.{IsNoBetter, with_costs, score-with_costs}
use skillfyme_hands_on.Evaluation.Scoring.Ordering.{InOrder, pairs_for_path_iff}
use skillfyme_hands_on.Evaluation.Scoring.Verdict.{
  Evidence, engine_score, score_attempt, evaluate-scores,
}

abbrev summary : Bool → ResultStatus → TaskSummary
summary b s = record {
  task_key = 1;
  required = true;
  passed = b;
  results = record { spec = record { id = 1; severity = none; weight = 1 }; status = s } ∷ [];
}

-- Half the time of the estimate, with two hints and a reset.
abbrev input : CriterionInput ℕ
input = record {
  task_results = summary true pass ∷ [];
  hint_penalty_total = 400;
  reset_count = 1;
  retry_index = 0;
  active_minutes = 150_000;
  estimated_minutes = 300_000;
  pre_submit_validation_run_count = 1;
  blast_radius_violations = 0;
  good_count = 0;
  bad_count = 0;
  command_sequence = [];
  canonical_diagnostic_paths = [];
}

abbrev result : Option (ScoreBreakdown ℕ)
result = score input guided_lab_default_profile true

abbrev entries : ScoreBreakdown ℕ
entries = record {
  final_score = 9_600;
  passed = true;
  criteria =
      record { key = technical_correctness; value = 10_000; weight = 7_000 }
      ∷ record { key = task_completion; value = 10_000; weight = 2_000 }
      ∷ record { key = efficiency; value = 10_000; weight = 1_000 }
      ∷ [];
  total_penalty = 600;
  total_bonus = 200;
}

input_scored : result ≡ some entries
unfolding score criterion_registry technical_correctness_v1 task_completion_v1 efficiency_v1
input_scored = refl

-- The same work after many hints and resets.
abbrev costly : ScoreBreakdown ℕ
costly = record entries { final_score = 6_100; passed = false; total_penalty = 4_100 }

costly_scored : score (with_costs input 5_000 9 7 0) guided_lab_default_profile true ≡ some costly
unfolding score criterion_registry technical_correctness_v1 task_completion_v1 efficiency_v1
costly_scored = refl

score-guard_example : ◌≼◌ {W = ℕ} 3_000 6_100
unfolding weighted_sum
score-guard_example =
    score-guard ten_thousandths-IsOrdered (with_costs input 5_000 9 7 0) guided_lab_default_profile
      true costly 3_000 costly_scored refl refl refl

score-with_costs_example : IsNoBetter costly entries
score-with_costs_example =
    score-with_costs ten_thousandths-IsOrdered guided_lab_default_profile input true 5_000 9 7 0
      entries costly refl refl tt tt refl (omega arith) (omega arith) (omega arith) input_scored
      costly_scored

-- One command that begins as two steps of the path do.
pairs_for_path_iff_example :
    ((pairs_for_path ((1 ∷ 2 ∷ []) ∷ []) ((1 ∷ []) ∷ (1 ∷ 2 ∷ []) ∷ [])).correct
      ≡ (pairs_for_path ((1 ∷ 2 ∷ []) ∷ []) ((1 ∷ []) ∷ (1 ∷ 2 ∷ []) ∷ [])).comparable)
    ↔ InOrder (some 0 ∷ some 0 ∷ [])
unfolding first_seen_index
pairs_for_path_iff_example = pairs_for_path_iff ((1 ∷ 2 ∷ []) ∷ []) ((1 ∷ []) ∷ (1 ∷ 2 ∷ []) ∷ [])

abbrev attempt : Attempt
attempt = record {
  id = 1;
  tenant_id = 1;
  user_id = 7;
  activity_id = 3;
  activity_version_id = 4;
  mode = guided_lab;
  status = submitted;
  retry_of_attempt_id = none;
  retry_index = 1;
  assistance_flags = [];
  environment_id = some 9;
  idempotency_key = none;
  created_at = 10;
  started_at = some 20;
  submitted_at = some 60_020;
  completed_at = none;
  last_activity_at = 90;
  hint_penalty_total = 0;
  version = 4;
  snapshot_id = none;
  snapshot_taken_at = none;
}

abbrev version : ActivityVersion
version = record {
  id = 4;
  activity_id = 3;
  mode = guided_lab;
  status = published;
  tasks =
      record {
        key = 1;
        required = true;
        validators = record { id = 1; severity = none; weight = 1 } ∷ [];
        hints = [];
      }
      ∷ [];
  faults = [];
  milestones = [];
}

abbrev graded : World
graded = record {
  now = 100;
  next_id = 2;
  attempts = attempt ∷ [];
  events = [];
  tasks = [];
  versions = version ∷ [];
  activity_skills = [];
  learner_states = [];
  requests = [];
  milestones = [];
  submissions = [];
  project_scores = [];
  vivas = [];
}

abbrev evidence : Attempt → Evidence
evidence a = record {
  profile = some guided_lab_default;
  estimated_minutes = 30;
  reset_count = 0;
  pre_submit_validation_run_count = 0;
  blast_radius_violations = 0;
  good_count = 0;
  bad_count = 0;
  command_sequence = [];
  canonical_diagnostic_paths = [];
}

abbrev execute : Option ℕ → ValidatorSpec → ℕ → Option ResultStatus
execute env v n = some pass

evaluate-scores_example :
    (b : ScoreBreakdown ℕ) × (x : World) × (c : Attempt) × (s : LearnerActivityState)
    × (engine_score
          (λ s. s)
          evidence
          attempt
          (map (summary_of (execute attempt.environment_id)) version.tasks)
        ≡ some b)
    × (evaluate execute (score_attempt (λ s. s) evidence) 1 graded ≡ ok (b.final_score, b.passed) x)
    × (find_by_id 1 x ≡ some c)
    × (c.status ≡ (if b.passed then passed else failed))
    × (find (is_state_of 7 3) x.learner_states ≡ some s)
    × (s.latest_score ≡ b.final_score)
    × (s.passed ≡ b.passed)
    × (0 ≼ b.final_score)
    × (b.final_score ≼ 10_000)
    × ((b.passed ≡ true) ↔ (7_000 ≼ b.final_score))
unfolding find_by_id profile_of
evaluate-scores_example =
    evaluate-scores (λ s. s) evidence ten_thousandths-IsOrdered execute 1 graded attempt version
      refl refl refl
