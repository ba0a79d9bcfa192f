-- ===== src/Auth/Tests.antt =====
-- Requests with and without the owner's token.
use skillfyme_hands_on.Base.{
  ℕ, ◌≡◌, refl, Bool, true, false, Option, none, some, List, [], ◌∷◌, Text, inl, arith,
}
use skillfyme_hands_on.Common.Status.{AttemptStatus, created, in_progress}
use skillfyme_hands_on.Common.Mode.{guided_lab}
use skillfyme_hands_on.Store.Rows.{Attempt, ValidatorSpec, World}
use skillfyme_hands_on.Store.Repository.{find_by_id}
use skillfyme_hands_on.Evaluation.ValidatorRunner.{ResultStatus, pass, TaskSummary}
use skillfyme_hands_on.Attempt.Service.Handlers.{ready_env, Orchestrator}
use skillfyme_hands_on.Attempt.Lifecycle.Machine.{IsFresh}
use skillfyme_hands_on.Attempt.Lifecycle.Histories.{sweep_timer}
use skillfyme_hands_on.Auth.{
  learner, author, admin, role_value, is_role, TokenClaims, insufficient_role, auth_guard,
  roles_guard, is_owned_by_caller,
}
use skillfyme_hands_on.Auth.Access.{
  AttemptRoute, Request, internal, on_attempt, respond_all, on, guards, respond_all-foreign,
}

-- A token is its user's number.
abbrev verify : Text → Option TokenClaims
verify [] = none
verify (u ∷ _) =
    some (record { user_id = some u; tenant_id = some 1; role = some (role_value learner) })

abbrev bears : ℕ → Option Text
bears u = some (b'B' ∷ b'e' ∷ b'a' ∷ b'r' ∷ b'e' ∷ b'r' ∷ b' ' ∷ u ∷ [])

abbrev attempt : ℕ → ℕ → AttemptStatus → Attempt
attempt id user s = record {
  id = id;
  tenant_id = 1;
  user_id = user;
  activity_id = 3;
  activity_version_id = 4;
  mode = guided_lab;
  status = s;
  retry_of_attempt_id = none;
  retry_index = 0;
  assistance_flags = [];
  environment_id = some 9;
  idempotency_key = none;
  created_at = 10;
  started_at = none;
  submitted_at = none;
  completed_at = none;
  last_activity_at = 10;
  hint_penalty_total = 0;
  version = 1;
  snapshot_id = none;
  snapshot_taken_at = none;
}

abbrev labs : World
labs = record {
  now = 100;
  next_id = 3;
  attempts = attempt 1 7 created ∷ attempt 2 8 in_progress ∷ [];
  events = [];
  tasks = [];
  versions = [];
  activity_skills = [];
  learner_states = [];
  requests = [];
  milestones = [];
  submissions = [];
  project_scores = [];
  vivas = [];
}

abbrev orchestrator : Orchestrator
orchestrator = record {
  provision = λ id. some (record { environment_id = 8; status = ready_env });
  inject_fault = λ env f. some true;
  connect = λ env. none;
}

abbrev execute : Option ℕ → ValidatorSpec → ℕ → Option ResultStatus
execute env v n = some pass

abbrev score : Attempt → List TaskSummary → ℕ × Bool
score a ss = (9_000, true)

abbrev gate_met : ℕ → ℕ → Bool
gate_met user skill = true

labs-IsFresh : IsFresh labs
labs-IsFresh = ground arith

found : find_by_id 1 labs ≡ some (attempt 1 7 created)
unfolding find_by_id
found = refl

author_known : is_role (role_value author) ≡ some author
unfolding is_role
author_known = refl

learner_turned_away :
    roles_guard
      (some (author ∷ admin ∷ []))
      (some (record { user_id = 7; tenant_id = 1; role = learner }))
    ≡ some insufficient_role
unfolding roles_guard
learner_turned_away = refl

owner_passes : guards verify (bears 7) (some 1) labs ≡ none
unfolding guards find_by_id is_owned_by_caller
owner_passes = refl

abbrev requests : List Request
requests = on_attempt (bears 7) (some 1) AttemptRoute.provision ∷ internal sweep_timer ∷ []

abbrev foreign : List (Option Text × AttemptRoute)
foreign =
    (bears 8, AttemptRoute.submit)
    ∷ (none, AttemptRoute.connect)
    ∷ (bears 9, AttemptRoute.reveal_hint 5)
    ∷ []

abbrev after : World
after = respond_all verify gate_met false orchestrator execute score requests labs

respond_all-foreign_example :
    respond_all verify gate_met false orchestrator execute score (on 1 foreign) after ≡ after
unfolding auth_guard
respond_all-foreign_example =
    respond_all-foreign verify gate_met false orchestrator execute score requests foreign labs 1
      (attempt 1 7 created) labs-IsFresh found (inl (ground arith), (tt, (inl (ground arith), tt)))
