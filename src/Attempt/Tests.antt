-- ===== src/Attempt/Tests.antt =====
-- A small store, and the theorems about the attempts at its rows.
use skillfyme_hands_on.Base.{
  ℕ, ◌≡◌, ◌↔◌, refl, Bool, true, false, Option, none, some, List, [], ◌∷◌, arith,
}
use skillfyme_hands_on.Common.Mode.{guided_lab}
use skillfyme_hands_on.Common.Status.{AttemptStatus, created, in_progress, passed, suspended}
use skillfyme_hands_on.EventStore.Events.{submit}
use skillfyme_hands_on.Store.Rows.{Attempt, ValidatorSpec, ActivityVersion, World, published}
use skillfyme_hands_on.Store.Monad.{ok, err, left, fault, attempt_error, invalid_state_transition}
use skillfyme_hands_on.Store.Repository.{find_by_id, CreateInput}
use skillfyme_hands_on.Evaluation.ValidatorRunner.{ResultStatus, pass, TaskSummary}
use skillfyme_hands_on.Evaluation.Service.{find_version}
use skillfyme_hands_on.Attempt.Eligibility.{check}
use skillfyme_hands_on.Attempt.Eligibility.Laws.{MayStart, check_iff}
use skillfyme_hands_on.Attempt.Service.Handlers.{ready_env, Orchestrator, provision_end, provision}
use skillfyme_hands_on.Attempt.Service.Quota.{create_attempt-check}
use skillfyme_hands_on.Attempt.Service.Operations.{
  CreateAttemptInput, create_attempt, submit_attempt, start_lab,
}
use skillfyme_hands_on.Attempt.Service.Provisioned.{
  IsReadyWith, provision_end-ready, provision-ready, provision-throws,
}
use skillfyme_hands_on.Attempt.Service.Submitted.{submit_attempt-verdict}
use skillfyme_hands_on.Attempt.Lifecycle.Machine.{IsFresh}
use skillfyme_hands_on.Attempt.Lifecycle.Histories.{
  Call, call_start_lab, call_submit, call_reactivate, call_mark_started, environment_destroyed,
  sweep_timer, tick, serve_all, serve_all-sealed,
}

abbrev pub attempt : ℕ → AttemptStatus → Attempt
attempt id s = record {
  id = id;
  tenant_id = 1;
  user_id = 7;
  activity_id = 3;
  activity_version_id = 4;
  mode = guided_lab;
  status = s;
  retry_of_attempt_id = none;
  retry_index = 0;
  assistance_flags = [];
  environment_id = some 9;
  idempotency_key = some 5;
  created_at = 10;
  started_at = none;
  submitted_at = none;
  completed_at = none;
  last_activity_at = 10;
  hint_penalty_total = 0;
  version = 1;
  snapshot_id = none;
  snapshot_taken_at = none;
}

abbrev pub version : ActivityVersion
version = record {
  id = 4;
  activity_id = 3;
  mode = guided_lab;
  status = published;
  tasks =
      record {
        key = 1;
        required = true;
        validators = record { id = 1; severity = none; weight = 1 } ∷ [];
        hints = [];
      }
      ∷ [];
  faults = record { id = 2; at_t0 = true } ∷ [];
  milestones = [];
}

abbrev pub store : List Attempt → World
store attempts = record {
  now = 100;
  next_id = 5;
  attempts = attempts;
  events = [];
  tasks = [];
  versions = version ∷ [];
  activity_skills = [];
  learner_states = [];
  requests = [];
  milestones = [];
  submissions = [];
  project_scores = [];
  vivas = [];
}

abbrev labs : World
labs =
    store (attempt 1 passed ∷ attempt 2 created ∷ attempt 3 in_progress ∷ attempt 4 suspended ∷ [])

abbrev orchestrator : Orchestrator
orchestrator = record {
  provision = λ id. some (record { environment_id = 8; status = ready_env });
  inject_fault = λ env f. some true;
  connect = λ env. none;
}

abbrev failing : Orchestrator
failing = record orchestrator { provision = λ id. none }

abbrev execute : Option ℕ → ValidatorSpec → ℕ → Option ResultStatus
execute env v n = some pass

abbrev score : Attempt → List TaskSummary → ℕ × Bool
score a ss = (9_000, true)

abbrev gate_met : ℕ → ℕ → Bool
gate_met user skill = true

labs-IsFresh : IsFresh labs
labs-IsFresh = ground arith

found_1 : find_by_id 1 labs ≡ some (attempt 1 passed)
unfolding find_by_id
found_1 = refl

found_2 : find_by_id 2 labs ≡ some (attempt 2 created)
unfolding find_by_id
found_2 = refl

found_3 : find_by_id 3 labs ≡ some (attempt 3 in_progress)
unfolding find_by_id
found_3 = refl

abbrev calls : List Call
calls =
    call_start_lab 2
    ∷ call_submit 3
    ∷ environment_destroyed 1 submit
    ∷ tick 300_000_000
    ∷ sweep_timer
    ∷ call_reactivate 4
    ∷ call_mark_started 2
    ∷ []

abbrev served : World
served = serve_all gate_met false orchestrator execute score calls labs

serve_all-sealed_example : (b : Attempt) × (find_by_id 1 served ≡ some b) × (b.status ≡ passed)
serve_all-sealed_example =
    serve_all-sealed gate_met false orchestrator execute score calls labs 1 (attempt 1 passed)
      labs-IsFresh found_1 refl

submit_attempt-verdict_example :
    (b : Attempt) × (x : World) × (submit_attempt orchestrator execute score 3 labs ≡ ok b x)
    × (b.status ≡ passed)
    × (find_by_id 3 x ≡ some b)
submit_attempt-verdict_example =
    submit_attempt-verdict orchestrator execute score 3 labs (attempt 3 in_progress) version found_3
      refl refl

provision-ready_example :
    (b : Attempt) × (x : World) × (provision orchestrator (λ u. u) 2 labs ≡ ok b x)
    × IsReadyWith 2 8 3 x b
provision-ready_example =
    provision-ready orchestrator 2 labs (attempt 2 created) version
      (record { environment_id = 8; status = ready_env }) found_2 refl refl refl refl
      (λ f. (true, refl))

provision_end-ready_example :
    (b : Attempt) × (x : World) × (provision_end orchestrator 1 version
        (record { environment_id = 8; status = ready_env })
        labs
      ≡ ok b x)
    × IsReadyWith 1 8 2 x b
provision_end-ready_example =
    provision_end-ready orchestrator 1 version (record { environment_id = 8; status = ready_env })
      labs (attempt 1 passed) found_1 refl (λ f. (true, refl))

provision-throws_example :
    (x : World) × (provision failing (λ u. u) 2 labs ≡ err fault x)
    × (start_lab failing execute score (λ u. u) 2 x
        ≡ err (attempt_error (invalid_state_transition ∷ [])) x)
provision-throws_example =
    provision-throws failing execute score (λ u. u) 2 labs (attempt 2 created) version found_2 refl
      refl refl

abbrev request : CreateInput
request = record {
  tenant_id = 1;
  user_id = 8;
  activity_id = 3;
  activity_version_id = 4;
  mode = guided_lab;
  idempotency_key = some 6;
  retry_of_attempt_id = none;
  retry_index = 0;
}

abbrev reactivated : Attempt
reactivated = record (attempt 4 created) {
  environment_id = none;
  last_activity_at = 100;
  version = 2;
}

check_iff_example :
    (check gate_met false 7 4 labs ≡ [])
    ↔ ((v : ActivityVersion) × (find_version 4 labs ≡ some v) × MayStart gate_met false 7 labs v)
check_iff_example = check_iff gate_met false 7 4 labs

abbrev fresh_request : CreateAttemptInput
fresh_request = record {
  tenant_id = 1;
  user_id = 8;
  activity_version_id = 4;
  idempotency_key = none;
}

create_attempt-check_example :
    check gate_met false 8 4 (left (create_attempt gate_met false fresh_request labs))
    ≡ check gate_met false 8 4 labs
create_attempt-check_example = create_attempt-check gate_met false fresh_request labs 8 4
