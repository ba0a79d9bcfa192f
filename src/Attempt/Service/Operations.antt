-- ===== src/Attempt/Service/Operations.antt =====
-- `createAttempt`, `checkWork` and `submit` of attempt.service.ts, the provisioning endpoint of
-- attempt.controller.ts, and the sweep of cache-sweep.service.ts.
use skillfyme_hands_on.Base.{
  ℕ, ◌+◌, ◌-◌, Bool, true, false, Option, none, some, List, [], ◌∷◌, if◌then◌else◌, any, all,
  filter,
}
use skillfyme_hands_on.Common.Status.{AttemptStatus, in_progress, same_status}
use skillfyme_hands_on.Common.Status
use skillfyme_hands_on.EventStore.Events.{
  system, learner, AttemptEventRow, attempt_created, submitted, submit,
}
use skillfyme_hands_on.EventStore.Log.{replay}
use skillfyme_hands_on.Store.Rows.{Attempt, ValidatorSpec, ActivityVersion, World, destroy_request}
use skillfyme_hands_on.Store.Monad.{
  M, left, ◌>>=◌, ◌>>◌, return, throw, find_or_throw, single_attempt_error, attempt_error, fault,
  AttemptErrorCode, append_typed_event, send, invalid_state_transition, no_environment,
  attempt_vanished,
}
use skillfyme_hands_on.Store.Repository.{
  find_by_id, transition, no_updates, touch, create, CreateInput,
  find_most_recent_completed_attempt, find_stale_suspended_attempts,
}
use skillfyme_hands_on.Evaluation.ValidatorRunner.{ResultStatus, TaskSummary, run}
use skillfyme_hands_on.Evaluation.Service.{find_version, rebuild, evaluate}
use skillfyme_hands_on.Attempt.Eligibility.{check}
use skillfyme_hands_on.Attempt.Service.Handlers.{
  Orchestrator, get, load, or_attempt_error, cache, reactivate, provision,
}

-- `CreateAttemptInput`
pub record CreateAttemptInput : Type 0 where
  pub tenant_id : ℕ
  pub user_id : ℕ
  pub activity_version_id : ℕ
  pub idempotency_key : Option ℕ

abbrev pub is_attempt_created : AttemptEventRow → Bool
is_attempt_created e = elim e.event [ attempt_created v ↦ true | _ ↦ false ]

abbrev pub next_retry : Option Attempt → ℕ
next_retry none = 0
next_retry (some a) = a.retry_index + 1

abbrev pub id_of : Option Attempt → Option ℕ
id_of none = none
id_of (some a) = some a.id

-- The row to create: a retry of the learner's most recent completed attempt, if there is one.
unfoldable pub create_input : CreateAttemptInput → ActivityVersion → World → CreateInput
create_input i v w =
    let prior = find_most_recent_completed_attempt i.user_id v.activity_id w in
    record {
      tenant_id = i.tenant_id;
      user_id = i.user_id;
      activity_id = v.activity_id;
      activity_version_id = i.activity_version_id;
      mode = v.mode;
      idempotency_key = i.idempotency_key;
      retry_of_attempt_id = id_of prior;
      retry_index = next_retry prior;
    }

-- `attemptError`: no reasons is an error of its own.
abbrev pub reject {ℓ} : {A : Type ℓ} → List AttemptErrorCode → M A
reject [] = throw fault
reject (r ∷ rs) = throw (attempt_error (r ∷ rs))

abbrev pub has_reasons : List AttemptErrorCode → Bool
has_reasons [] = false
has_reasons (r ∷ rs) = true

-- `createAttempt`
module _ (gate_met : ℕ → ℕ → Bool) (quota_disabled : Bool) where
  unfoldable pub create_attempt : CreateAttemptInput → M Attempt
  unfolding create_input
  create_attempt i = do
    w ← get
    v ← find_or_throw (find_version i.activity_version_id w)
    let reasons = check gate_met quota_disabled i.user_id i.activity_version_id w
    (if has_reasons reasons then reject reasons else return tt)
    a ← create (create_input i v w)
    u ← get
    (if any is_attempt_created (replay a.id u.events)
        then return tt
        else append_typed_event a.id system (attempt_created i.activity_version_id))
    return a

abbrev pub expect_in_progress : Attempt → M (Unit {0})
expect_in_progress a =
    if same_status a.status in_progress
    then return tt
    else single_attempt_error invalid_state_transition

module _ (orchestrator : Orchestrator)
    (execute : Option ℕ → ValidatorSpec → ℕ → Option ResultStatus)
    (score : Attempt → List TaskSummary → ℕ × Bool) where
  -- `checkWork`: the tasks' summaries, and whether every required one passed
  unfoldable pub check_work : ℕ → M (List TaskSummary × Bool)
  check_work id = do
    a ← load id
    expect_in_progress a
    env ← or_attempt_error no_environment a.environment_id
    w ← get
    v ← find_or_throw (find_version a.activity_version_id w)
    summaries ← run (execute (some env)) id v.tasks
    rebuild id
    touch id
    return (summaries, all (λ s. s.passed) (filter (λ s. s.required) summaries))

  -- The teardown at the end of `submit`: a call that throws is logged and no more.
  abbrev pub destroy_after : Option ℕ → M (Unit {0})
  destroy_after none = return tt
  destroy_after (some env) = send (destroy_request env submit)

  -- `submit`
  unfoldable pub submit_attempt : ℕ → M Attempt
  submit_attempt id = do
    a ← load id
    expect_in_progress a
    append_typed_event id learner submitted
    w ← get
    _ ←
        transition id a.version
          (record no_updates { status = some Status.submitted; submitted_at = some w.now })
    _ ← evaluate execute score id
    u ← get
    b ← or_attempt_error attempt_vanished (find_by_id id u)
    destroy_after b.environment_id
    return b

  -- POST :id/provision
  unfoldable pub start_lab : (World → World) → ℕ → M Attempt
  start_lab meanwhile id = do _ ← reactivate id; provision orchestrator meanwhile id

abbrev pub inactivity_threshold : ℕ
inactivity_threshold = 259_200_000

-- The loop of the sweep: an attempt whose `cache` throws is logged and skipped.
unfoldable pub cache_all : List Attempt → World → World
cache_all [] w = w
cache_all (a ∷ rest) w = cache_all rest (left (cache a.id w))

-- `sweep` of cache-sweep.service.ts
unfoldable pub sweep : World → World
unfolding cache_all
sweep w = cache_all (find_stale_suspended_attempts (w.now - inactivity_threshold) w) w
