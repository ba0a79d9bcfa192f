-- ===== src/Attempt/Service/Handlers.antt =====
-- `provision`, `handleEnvironmentDestroyed`, `cache`, `reactivate`, `markStarted` and `connect` of
-- attempt.service.ts.
use skillfyme_hands_on.Base.{
  ℕ, Bool, true, false, ◌&&◌, ◌||◌, not, Option, none, some, List, [], ◌∷◌, if◌then◌else◌, filter,
}
use skillfyme_hands_on.Common.Status.{
  AttemptStatus, created, provisioning, ready, in_progress, evaluating, provision_failed, suspended,
  cached, same_status, includes, terminal, reactivatable,
}
use skillfyme_hands_on.EventStore.Events.{
  system, learner, DestroyReason, submit, env_requested, env_ready, env_failed, attempt_started,
  fault_injected, snapshot_taken, resumed,
}
use skillfyme_hands_on.EventStore.Events
use skillfyme_hands_on.Store.Rows.{
  Attempt, FaultSpec, ActivityVersion, World, provision_request, inject_fault_request,
  connect_request,
}
use skillfyme_hands_on.Store.Monad.{
  AttemptErrorCode, ok, M, bind, ◌>>=◌, ◌>>◌, return, modify, find_or_throw, single_attempt_error,
  append_typed_event, send, invalid_state_transition, no_environment, attempt_vanished,
}
use skillfyme_hands_on.Store.Repository.{find_by_id, transition, no_updates}
use skillfyme_hands_on.Evaluation.Service.{take_or_throw, find_version}

pub data ProvisionStatus : Type 0 where
  provisioning_env ready_env failed_env : ProvisionStatus

pub record ProvisionResult : Type 0 where
  pub environment_id : ℕ
  pub status : ProvisionStatus

pub record Orchestrator : Type 0 where
  pub provision : ℕ → Option ProvisionResult
  pub inject_fault : ℕ → ℕ → Option Bool
  pub connect : ℕ → Option ℕ

abbrev pub get : M World
get w = ok w w

abbrev pub load : ℕ → M Attempt
load id w = find_or_throw (find_by_id id w) w

abbrev pub or_attempt_error {ℓ} : {A : Type ℓ} → AttemptErrorCode → Option A → M A
or_attempt_error c (some a) w = ok a w
or_attempt_error c none w = single_attempt_error c w

abbrev pub is_ready : ProvisionStatus → Bool
is_ready ready_env = true
is_ready _ = false

abbrev pub is_submit : DestroyReason → Bool
is_submit submit = true
is_submit _ = false

-- `markStarted`
unfoldable pub mark_started : ℕ → M Attempt
mark_started id = do
  a ← load id
  if same_status a.status ready
      then (do
        append_typed_event id learner attempt_started
        w ← get
        transition id a.version
            (record no_updates { status = some in_progress; started_at = some w.now }))
      else return a

-- `handleEnvironmentDestroyed`
unfoldable pub next_after_destroy : DestroyReason → AttemptStatus
next_after_destroy reason = if is_submit reason then evaluating else suspended

abbrev pub ignores_destroy : AttemptStatus → DestroyReason → Bool
ignores_destroy s reason =
    includes terminal s
    || ((same_status s suspended || same_status s cached) && not (is_submit reason))

unfoldable pub handle_environment_destroyed : ℕ → DestroyReason → M (Unit {0})
unfolding next_after_destroy
handle_environment_destroyed id reason w = elim (find_by_id id w) [
  | none ↦ ok tt w
  | some a ↦
      if ignores_destroy a.status reason
      then ok tt w
      else bind
          (transition id a.version
            (record no_updates {
              status = some (next_after_destroy reason);
              environment_id = some none;
            })
            w)
          (λ _. return tt)
]

-- `cache`
unfoldable pub cache : ℕ → M (Unit {0})
cache id w = elim (find_by_id id w) [
  | none ↦ ok tt w
  | some a ↦
      if same_status a.status suspended
      then (do
        append_typed_event id system (snapshot_taken none)
        append_typed_event id system Events.suspended
        u ← get
        _ ←
            transition id a.version
              (record no_updates { status = some cached; snapshot = some (none, some u.now) })
        return tt)
          w
      else ok tt w
]

-- `reactivate`
unfoldable pub reactivate : ℕ → M Attempt
reactivate id = do
  a ← load id
  if includes reactivatable a.status
      then (do
        append_typed_event id learner (resumed a.status)
        transition id a.version
            (record no_updates { status = some created; environment_id = some none }))
      else return a

module _ (orchestrator : Orchestrator) where
  -- `connect`
  unfoldable pub connect : ℕ → M ℕ
  connect id = do
    a ← load id
    env ← or_attempt_error no_environment a.environment_id
    send (connect_request env)
    take_or_throw (orchestrator.connect env)

  -- `applyT0Faults`, over the faults that are due at T0
  unfoldable pub inject_faults : ℕ → ℕ → List FaultSpec → M (Unit {0})
  inject_faults id env [] = return tt
  inject_faults id env (f ∷ fs) = do
    send (inject_fault_request env f.id)
    applied ← take_or_throw (orchestrator.inject_fault env f.id)
    append_typed_event id system (fault_injected f.id applied)
    inject_faults id env fs

  abbrev pub apply_t0_faults : ℕ → ℕ → ActivityVersion → M (Unit {0})
  apply_t0_faults id env v = inject_faults id env (filter (λ f. f.at_t0) v.faults)

  -- `provision` up to the call of the orchestrator
  unfoldable pub provision_begin : ℕ → M ActivityVersion
  provision_begin id = do
    a ← load id
    (if same_status a.status created
        then return tt
        else single_attempt_error invalid_state_transition)
    w ← get
    v ← take_or_throw (find_version a.activity_version_id w)
    append_typed_event id system env_requested
    _ ← transition id a.version (record no_updates { status = some provisioning })
    send (provision_request id)
    return v

  -- and from its answer on
  unfoldable pub provision_end : ℕ → ActivityVersion → ProvisionResult → M Attempt
  unfolding inject_faults
  provision_end id v result = do
    w ← get
    a ← or_attempt_error attempt_vanished (find_by_id id w)
    if is_ready result.status
        then (do
          append_typed_event id system (env_ready result.environment_id)
          apply_t0_faults id result.environment_id v
          transition id a.version (record no_updates {
            status = some ready;
            environment_id = some (some result.environment_id);
          }))
        else (do
          append_typed_event id system env_failed
          transition id a.version (record no_updates { status = some provision_failed }))

  unfoldable pub provision : (World → World) → ℕ → M Attempt
  unfolding provision_begin provision_end
  provision meanwhile id = do
    v ← provision_begin id
    modify meanwhile
    result ← take_or_throw (orchestrator.provision id)
    provision_end id v result
