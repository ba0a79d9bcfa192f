-- ===== src/Evaluation/Tests.antt =====
-- Runs of the evaluation module, and its theorems at concrete inputs.
use skillfyme_hands_on.Base.{
  ℕ, ◌≡◌, ◌↔◌, Bool, true, false, Option, none, some, List, [], ◌∷◌, All, ◌==◌, if◌then◌else◌,
}
use skillfyme_hands_on.Common.Mode.{guided_lab}
use skillfyme_hands_on.Common.Status.{submitted}
use skillfyme_hands_on.Store.Rows.{
  Attempt, ValidatorSpec, ActivityVersion, LearnerActivityState, World, warn, published,
}
use skillfyme_hands_on.Evaluation.ValidatorRunner.{
  ResultStatus, pass, fail, ValidatorResult, task_passes, TaskSummary,
}
use skillfyme_hands_on.Evaluation.ValidatorRunner.Laws.{
  IsHarmless, IsBlockingPass, AnyOf, task_passes_iff,
}

abbrev attempt : Attempt
attempt = record {
  id = 1;
  tenant_id = 1;
  user_id = 7;
  activity_id = 3;
  activity_version_id = 4;
  mode = guided_lab;
  status = submitted;
  retry_of_attempt_id = none;
  retry_index = 1;
  assistance_flags = [];
  environment_id = some 9;
  idempotency_key = none;
  created_at = 10;
  started_at = some 20;
  submitted_at = some 90;
  completed_at = none;
  last_activity_at = 90;
  hint_penalty_total = 0;
  version = 4;
  snapshot_id = none;
  snapshot_taken_at = none;
}

abbrev check_spec : ValidatorSpec
check_spec = record { id = 1; severity = none; weight = 1 }

abbrev hint_spec : ValidatorSpec
hint_spec = record { id = 2; severity = some warn; weight = 1 }

abbrev version : ActivityVersion
version = record {
  id = 4;
  activity_id = 3;
  mode = guided_lab;
  status = published;
  tasks = record { key = 1; required = true; validators = check_spec ∷ []; hints = [] } ∷ [];
  faults = [];
  milestones = [];
}

abbrev before : LearnerActivityState
before = record {
  user_id = 7;
  activity_id = 3;
  best_score = 6_000;
  latest_score = 6_000;
  passed = false;
  attempts_count = 1;
  cooldown_until = none;
}

abbrev graded : World
graded = record {
  now = 100;
  next_id = 2;
  attempts = attempt ∷ [];
  events = [];
  tasks = [];
  versions = version ∷ [];
  activity_skills = [];
  learner_states = before ∷ [];
  requests = [];
  milestones = [];
  submissions = [];
  project_scores = [];
  vivas = [];
}

-- Two tries that throw, then a verdict.
abbrev flaky : ValidatorSpec → ℕ → Option ResultStatus
flaky v n = if n == 3 then some fail else none

abbrev execute : Option ℕ → ValidatorSpec → ℕ → Option ResultStatus
execute env = flaky

abbrev score : Attempt → List TaskSummary → ℕ × Bool
score a ss = (4_000, false)

-- A pass, and the failure of a validator that only warns.
abbrev results : List ValidatorResult
results =
    record { spec = check_spec; status = pass } ∷ record { spec = hint_spec; status = fail } ∷ []

task_passes_iff_example :
    (task_passes results ≡ true) ↔ (AnyOf IsBlockingPass results × All IsHarmless results)
task_passes_iff_example = task_passes_iff results
