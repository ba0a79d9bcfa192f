-- ===== src/Attempt/Lifecycle/Provisioning.antt =====
-- `provision` of attempt.service.ts, and the lab's start of attempt.controller.ts, along the machine,
-- and what other requests that run while it waits for the orchestrator may do to it.
use skillfyme_hands_on.Base.{
  ℕ, ◌∙◌, subst, Bool, ◌≡◌, refl, inl, inr, Bool-cases, ==_refl, Option, some, Option-cases, List,
  filter,
}
use skillfyme_hands_on.Common.Status.{created, provisioning, ready, provision_failed, same_status}
use skillfyme_hands_on.EventStore.Events.{system, env_requested, env_ready, env_failed}
use skillfyme_hands_on.Store.Rows.{
  Attempt, ValidatorSpec, ActivityVersion, World, provision_request,
}
use skillfyme_hands_on.Store.Monad.{Outcome, ok, err, left, append_typed_event}
use skillfyme_hands_on.Store.Repository.{
  find_by_id, Updates, transition, no_updates, updated, update_where,
}
use skillfyme_hands_on.Store.Repository.Laws.{transition_lem, find_by_id-transition}
use skillfyme_hands_on.Evaluation.ValidatorRunner.{ResultStatus, TaskSummary}
use skillfyme_hands_on.Evaluation.Service.{find_version}
use skillfyme_hands_on.Attempt.Service.Handlers.{
  ProvisionResult, Orchestrator, is_ready, reactivate, inject_faults, provision_begin,
  provision_end, provision,
}
use skillfyme_hands_on.Attempt.Service.Operations.{start_lab}
use skillfyme_hands_on.Attempt.Lifecycle.Machine.{
  Evolves, Evolves-refl, Evolves-trans, Evolves-bind,
}
use skillfyme_hands_on.Attempt.Lifecycle.Rules.{Evolves-append, Evolves-send, Evolves-then}
use skillfyme_hands_on.Attempt.Lifecycle.Quiet.{
  Quiet-find, Quiet-trans, Quiet-append, Quiet-inject_faults, Quiet-then,
}
use skillfyme_hands_on.Attempt.Lifecycle.Handlers.{same_status-eq, reactivate-Evolves}

-- The attempt is there and waits for its environment.
abbrev pub IsProvisioning : ℕ → World → Type 0
IsProvisioning id w = (a : Attempt) × (find_by_id id w ≡ some a) × (a.status ≡ provisioning)

-- `provision` up to the orchestrator's call, with what has become of the world.
abbrev begun : ℕ → World → World
begun id w = left (append_typed_event id system env_requested w)

abbrev to_provisioning : Updates
to_provisioning = record no_updates { status = some provisioning }

moved_to_provisioning :
    (id : ℕ) (v y : World) (a : Attempt)
    → find_by_id id v ≡ some a
    → y.attempts ≡ update_where id a.version (updated v.now a.version to_provisioning) v.attempts
    → IsProvisioning id y
unfolding find_by_id updated
moved_to_provisioning id v y a h e = (
  updated v.now a.version to_provisioning a,
  rw e (find_by_id-transition id id to_provisioning v a h ∙ rw (==_refl id) refl),
  refl,
)

module _ (orchestrator : Orchestrator) where
  pub provision_begin-Evolves :
      (id : ℕ) (w : World) → Evolves w (left (provision_begin orchestrator id w))
  unfolding provision_begin
  provision_begin-Evolves id w = elim (Option-cases (find_by_id id w)) [
    | inl e ↦ rw (e, provision_begin) (Evolves-refl w)
    | inr (a, e) ↦ elim (Bool-cases (same_status a.status created)) [
      | inr c ↦ rw (e, provision_begin, c) (Evolves-refl w)
      | inl c ↦ elim (Option-cases (find_version a.activity_version_id w)) [
        | inl n ↦ rw (e, provision_begin, c, n) (Evolves-refl w)
        | inr (v, n) ↦
            rw (e, provision_begin, c, n)
              (Evolves-bind (transition id a.version to_provisioning (begun id w)) _
                (Evolves-then (begun id w) id to_provisioning a provisioning
                  (Evolves-append id system env_requested w) refl e refl
                  (rw (same_status-eq a.status created c) refl))
                (λ _ x _ d. Evolves-trans d (Evolves-send (provision_request id) x)))
      ]
    ]
  ]

  pub provision_end-Evolves :
      (id : ℕ) (v : ActivityVersion) (r : ProvisionResult) (w : World)
      → IsProvisioning id w
      → Evolves w (left (provision_end orchestrator id v r w))
  unfolding provision_end
  provision_end-Evolves id v r w (a, e, p) = elim (Bool-cases (is_ready r.status)) [
    | inl y ↦
        let x : World = left (append_typed_event id system (env_ready r.environment_id) w) in
        let u : Updates = record no_updates {
          status = some ready;
          environment_id = some (some r.environment_id);
        } in
        let fs = filter (λ f. f.at_t0) v.faults in
        rw (e, provision_end, y)
          (Quiet-then (inject_faults orchestrator id r.environment_id fs x) _
            (Quiet-trans (Quiet-append id system (env_ready r.environment_id) w)
              (Quiet-inject_faults orchestrator id r.environment_id fs x))
            (λ _ z q. Evolves-then z id u a ready q.evolves q.same e refl (rw p refl)))
    | inr n ↦
        rw (e, provision_end, n)
          (Evolves-then (left (append_typed_event id system env_failed w)) id
            (record no_updates { status = some provision_failed }) a provision_failed
            (Evolves-append id system env_failed w) refl e refl (rw p refl))
  ]

  BeginsProvisioning : ℕ → Outcome ActivityVersion → Type 0
  BeginsProvisioning id (ok v x) = IsProvisioning id x
  BeginsProvisioning id (err e x) = Unit {0}

  provision_begin-BeginsProvisioning :
      (id : ℕ) (w : World) → BeginsProvisioning id (provision_begin orchestrator id w)
  unfolding provision_begin BeginsProvisioning
  provision_begin-BeginsProvisioning id w = elim (Option-cases (find_by_id id w)) [
    | inl e ↦ rw (e, provision_begin) tt
    | inr (a, e) ↦ elim (Bool-cases (same_status a.status created)) [
      | inr c ↦ rw (e, provision_begin, c) tt
      | inl c ↦ elim (Option-cases (find_version a.activity_version_id w)) [
        | inl n ↦ rw (e, provision_begin, c, n) tt
        | inr (v, n) ↦
            let f : find_by_id id (begun id w) ≡ some a =
              Quiet-find id a (Quiet-append id system env_requested w) e in
            rw (e, provision_begin, c, n, transition_lem id to_provisioning (begun id w) a f)
              (moved_to_provisioning id (begun id w) _ a f refl)
      ]
    ]
  ]

  -- While the orchestrator is called, the attempt waits.
  pub provision_begin-IsProvisioning :
      (id : ℕ) (v : ActivityVersion) (w x : World)
      → provision_begin orchestrator id w ≡ ok v x
      → IsProvisioning id x
  unfolding BeginsProvisioning
  provision_begin-IsProvisioning id v w x h =
      subst (BeginsProvisioning id) h (provision_begin-BeginsProvisioning id w)

  module _ (meanwhile : World → World) (quiet : (w : World) → Evolves w (meanwhile w))
      (waits : (id : ℕ) (w : World) → IsProvisioning id w → IsProvisioning id (meanwhile w)) where
    -- A provisioning, whatever it ends with, moves the attempts along the machine only, keeps their
    -- owners, lets no version fall and only adds to the log, if what other requests do while it waits
    -- for the orchestrator is of that kind too and leaves an attempt that is PROVISIONING so.
    pub provision-Evolves :
        (id : ℕ) (w : World) → Evolves w (left (provision orchestrator meanwhile id w))
    unfolding provision
    provision-Evolves id w =
        Evolves-bind (provision_begin orchestrator id w) _ (provision_begin-Evolves id w)
          (λ v x h e.
            let p : IsProvisioning id (meanwhile x) =
              waits id x (provision_begin-IsProvisioning id v w x h) in
            Evolves-trans (Evolves-trans e (quiet x))
              (elim (Option-cases (orchestrator.provision id)) [
                | inl n ↦ rw n (Evolves-refl (meanwhile x))
                | inr (r, n) ↦ rw n (provision_end-Evolves id v r (meanwhile x) p)
              ]))

    -- The lab's start.
    pub start_lab-Evolves :
        (execute : Option ℕ → ValidatorSpec → ℕ → Option ResultStatus)
        (score : Attempt → List TaskSummary → ℕ × Bool) (id : ℕ) (w : World)
        → Evolves w (left (start_lab orchestrator execute score meanwhile id w))
    unfolding start_lab
    start_lab-Evolves execute score id w =
        Evolves-bind (reactivate id w) _ (reactivate-Evolves id w)
          (λ _ x _ e. Evolves-trans e (provision-Evolves id x))
