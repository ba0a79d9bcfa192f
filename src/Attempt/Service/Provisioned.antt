-- ===== src/Attempt/Service/Provisioned.antt =====
-- How a provisioning ends: with a ready lab, with the row as the orchestrator's answer finds it, and
-- with the row left behind when the orchestrator throws.
use skillfyme_hands_on.Base.{
  ℕ, ◌+◌, ◌≡◌, refl, Bool, true, false, Option, none, some, List, [], ◌∷◌, filter, arith,
}
use skillfyme_hands_on.Common.Status.{created, provisioning, ready, same_status}
use skillfyme_hands_on.EventStore.Events.{fault_injected, system, env_requested, env_ready}
use skillfyme_hands_on.Store.Rows.{
  inject_fault_request, Attempt, FaultSpec, ActivityVersion, World, provision_request,
  ValidatorSpec,
}
use skillfyme_hands_on.Store.Monad.{
  ok, err, left, fault, attempt_error, append_typed_event, send, invalid_state_transition,
}
use skillfyme_hands_on.Store.Repository.{find_by_id, Updates, no_updates, updated, update_where}
use skillfyme_hands_on.Store.Repository.Laws.{transition_lem, find-same, find-moved}
use skillfyme_hands_on.Evaluation.Service.{find_version}
use skillfyme_hands_on.Evaluation.ValidatorRunner.{ResultStatus, TaskSummary}
use skillfyme_hands_on.Attempt.Service.Handlers.{
  ProvisionResult, is_ready, Orchestrator, inject_faults, provision_begin, provision_end, provision,
}
use skillfyme_hands_on.Attempt.Service.Operations.{start_lab}
use skillfyme_hands_on.Attempt.Service.Repeats.{reactivate_unchanged}

-- The world after a transition of the row.
abbrev after : ℕ → Updates → Attempt → World → World
after id u a w = record w {
  attempts = update_where id a.version (updated w.now a.version u) w.attempts;
}

-- An attempt with a ready environment, found under its id.
abbrev pub IsReadyWith : ℕ → ℕ → ℕ → World → Attempt → Type 0
IsReadyWith id env version w a =
    (find_by_id id w ≡ some a)
    × (a.status ≡ ready)
    × (a.environment_id ≡ some env)
    × (a.version ≡ version)

module _ (orchestrator : Orchestrator) where
  -- The orchestrator answers every injection of a fault, and throws at none.
  abbrev pub InjectsFaults : ℕ → Type 0
  InjectsFaults env = (f : ℕ) → (b : Bool) × (orchestrator.inject_fault env f ≡ some b)

  -- The injection of the faults then ends well and leaves the attempts alone.
  inject_faults-ok :
      (id env : ℕ) (fs : List FaultSpec) (w : World)
      → InjectsFaults env
      → (v : World) × (inject_faults orchestrator id env fs w ≡ ok tt v) × (v.attempts ≡ w.attempts)
  unfolding inject_faults
  inject_faults-ok id env [] w h = (w, refl, refl)
  inject_faults-ok id env (f ∷ fs) w h =
      let (b, k) = h f.id in
      let x : World = left (send (inject_fault_request env f.id) w) in
      let y : World = left (append_typed_event id system (fault_injected f.id b) x) in
      let (v, e, s) = inject_faults-ok id env fs y h in (v, rw k e, s)

  -- Whatever the row's status has become by then, the orchestrator's answer that the environment is
  -- ready makes it READY with that environment, if every injection of a fault is answered.
  pub provision_end-ready :
      (id : ℕ) (v : ActivityVersion) (r : ProvisionResult) (w : World) (a : Attempt)
      → find_by_id id w ≡ some a
      → is_ready r.status ≡ true
      → InjectsFaults r.environment_id
      → (b : Attempt) × (x : World) × (provision_end orchestrator id v r w ≡ ok b x)
        × IsReadyWith id r.environment_id (a.version + 1) x b
  unfolding provision_end updated
  provision_end-ready id v r w a e y h =
      let x : World = left (append_typed_event id system (env_ready r.environment_id) w) in
      let (z, i, s) = inject_faults-ok id r.environment_id (filter (λ f. f.at_t0) v.faults) x h in
      let u : Updates = record no_updates {
        status = some ready;
        environment_id = some (some r.environment_id);
      } in
      let f : find_by_id id z ≡ some a = find-same id w z a s e in
      (
        updated z.now a.version u a,
        after id u a z,
        rw (e, provision_end, y, i, transition_lem id u z a f) refl,
        (find-moved id z (after id u a z) u a f refl, refl, refl, refl),
      )

  abbrev begun : Updates
  begun = record no_updates { status = some provisioning }

  -- A created attempt of a version that is there waits for the orchestrator.
  provision_begin-ok :
      (id : ℕ) (w : World) (a : Attempt) (v : ActivityVersion)
      → find_by_id id w ≡ some a
      → same_status a.status created ≡ true
      → find_version a.activity_version_id w ≡ some v
      → (x : World) × (provision_begin orchestrator id w ≡ ok v x)
        × (find_by_id id x ≡ some (updated w.now a.version begun a))
  unfolding provision_begin
  provision_begin-ok id w a v e c n =
      let y : World = left (append_typed_event id system env_requested w) in
      let f : find_by_id id y ≡ some a = find-same id w y a refl e in
      (
        left (send (provision_request id) (after id begun a y)),
        rw (e, provision_begin, c, n, transition_lem id begun y a f) refl,
        find-moved id y _ begun a f refl,
      )

  -- When the orchestrator answers that the environment of a created attempt is ready, no other request
  -- runs meanwhile, and every injection of a fault is answered, the lab is provisioned: the row is
  -- READY with that environment, two versions on.
  pub provision-ready :
      (id : ℕ) (w : World) (a : Attempt) (v : ActivityVersion) (r : ProvisionResult)
      → find_by_id id w ≡ some a
      → same_status a.status created ≡ true
      → find_version a.activity_version_id w ≡ some v
      → orchestrator.provision id ≡ some r
      → is_ready r.status ≡ true
      → InjectsFaults r.environment_id
      → (b : Attempt) × (x : World) × (provision orchestrator (λ u. u) id w ≡ ok b x)
        × IsReadyWith id r.environment_id (a.version + 2) x b
  unfolding provision updated
  provision-ready id w a v r e c n o y h =
      let (u, p, f) = provision_begin-ok id w a v e c n in
      let (b, x, q, (found, s, env, k)) = provision_end-ready id v r u _ f y h in
      (b, x, rw (p, o) q, (found, s, env, omega arith))

  provision-not_created :
      (meanwhile : World → World) (id : ℕ) (w : World) (a : Attempt)
      → find_by_id id w ≡ some a
      → same_status a.status created ≡ false
      → provision orchestrator meanwhile id w
        ≡ err (attempt_error (invalid_state_transition ∷ [])) w
  unfolding provision provision_begin
  provision-not_created meanwhile id w a h c = rw (h, provision_begin, c) refl

  -- A provisioning of a created attempt during which the orchestrator throws, and no other
  -- request runs, ends with that error; from the world it leaves, the start of the lab is refused
  -- as an invalid transition and changes nothing.
  pub provision-throws :
      (execute : Option ℕ → ValidatorSpec → ℕ → Option ResultStatus)
      (score : Attempt → List TaskSummary → ℕ × Bool) (meanwhile : World → World) (id : ℕ)
      (w : World) (a : Attempt) (v : ActivityVersion)
      → find_by_id id w ≡ some a
      → same_status a.status created ≡ true
      → find_version a.activity_version_id w ≡ some v
      → orchestrator.provision id ≡ none
      → (x : World) × (provision orchestrator (λ u. u) id w ≡ err fault x)
        × (start_lab orchestrator execute score meanwhile id x
            ≡ err (attempt_error (invalid_state_transition ∷ [])) x)
  unfolding provision start_lab updated
  provision-throws execute score meanwhile id w a v e c n o =
      let (u, p, f) = provision_begin-ok id w a v e c n in
      (
        u,
        rw (p, o) refl,
        rw (reactivate_unchanged id u (updated w.now a.version begun a) f refl)
            (provision-not_created meanwhile id u (updated w.now a.version begun a) f refl),
      )
