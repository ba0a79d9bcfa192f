-- ===== src/Attempt/Lifecycle/Handlers.antt =====
-- The handlers of attempt.service.ts evolve the world along the machine.
use skillfyme_hands_on.Base.{
  ℕ, ◌≡◌, refl, inl, inr, Bool-cases, true, false, none, some, Option-cases, arith,
}
use skillfyme_hands_on.Common.Status.{
  AttemptStatus, created, ready, in_progress, suspended, cached, same_status, includes,
  reactivatable,
}
use skillfyme_hands_on.EventStore.Events.{
  DestroyReason, system, learner, attempt_started, snapshot_taken, resumed, env_requested,
  env_ready, env_failed, fault_injected,
}
use skillfyme_hands_on.EventStore.Events
use skillfyme_hands_on.Store.Rows.{World}
use skillfyme_hands_on.Store.Monad.{left, append_typed_event}
use skillfyme_hands_on.Store.Repository.{find_by_id, Updates, transition, no_updates}
use skillfyme_hands_on.Attempt.Service.Handlers.{
  mark_started, next_after_destroy, ignores_destroy, handle_environment_destroyed, cache,
  reactivate,
}
use skillfyme_hands_on.Attempt.Lifecycle.Machine.{may_move, Evolves, Evolves-refl, Evolves-trans}
use skillfyme_hands_on.Attempt.Lifecycle.Rules.{
  Evolves-transition, Evolves-append, Evolves-then, left-discard,
}

pub same_status-eq : (s t : AttemptStatus) → same_status s t ≡ true → s ≡ t
same_status-eq s t h = ground arith

pub mark_started-Evolves : (id : ℕ) (w : World) → Evolves w (left (mark_started id w))
unfolding mark_started
mark_started-Evolves id w = elim (Option-cases (find_by_id id w)) [
  | inl e ↦ rw (e, mark_started) (Evolves-refl w)
  | inr (a, e) ↦ elim (Bool-cases (same_status a.status ready)) [
    | inl r ↦
        rw (e, mark_started, r)
          (Evolves-then (left (append_typed_event id learner attempt_started w)) id
            (record no_updates { status = some in_progress; started_at = some w.now }) a in_progress
            (Evolves-append id learner attempt_started w) refl e refl
            (rw (same_status-eq a.status ready r) refl))
    | inr r ↦ rw (e, mark_started, r) (Evolves-refl w)
  ]
]

destroyed_may_move :
    (s : AttemptStatus) (reason : DestroyReason)
    → ignores_destroy s reason ≡ false
    → may_move s (next_after_destroy reason) ≡ true
unfolding next_after_destroy
destroyed_may_move s reason h = ground arith

pub handle_environment_destroyed-Evolves :
    (id : ℕ) (reason : DestroyReason) (w : World)
    → Evolves w (left (handle_environment_destroyed id reason w))
unfolding handle_environment_destroyed
handle_environment_destroyed-Evolves id reason w = elim (Option-cases (find_by_id id w)) [
  | inl e ↦ rw (e, handle_environment_destroyed) (Evolves-refl w)
  | inr (a, e) ↦ elim (Bool-cases (ignores_destroy a.status reason)) [
    | inl i ↦ rw (e, handle_environment_destroyed, i) (Evolves-refl w)
    | inr i ↦
        let u : Updates = record no_updates {
          status = some (next_after_destroy reason);
          environment_id = some none;
        } in
        rw (e, handle_environment_destroyed, i, left-discard (transition id a.version u w))
          (Evolves-transition id u w a (next_after_destroy reason) e refl
            (destroyed_may_move a.status reason i))
  ]
]

pub cache-Evolves : (id : ℕ) (w : World) → Evolves w (left (cache id w))
unfolding cache
cache-Evolves id w = elim (Option-cases (find_by_id id w)) [
  | inl e ↦ rw (e, cache) (Evolves-refl w)
  | inr (a, e) ↦ elim (Bool-cases (same_status a.status suspended)) [
    | inl s ↦
        let v : World = left (append_typed_event id system (snapshot_taken none) w) in
        let v2 : World = left (append_typed_event id system Events.suspended v) in
        let u : Updates = record no_updates {
          status = some cached;
          snapshot = some (none, some w.now);
        } in
        rw (e, cache, s, left-discard (transition id a.version u v2))
          (Evolves-then v2 id u a cached
            (Evolves-trans (Evolves-append id system (snapshot_taken none) w)
              (Evolves-append id system Events.suspended v))
            refl e refl (rw (same_status-eq a.status suspended s) refl))
    | inr s ↦ rw (e, cache, s) (Evolves-refl w)
  ]
]

reactivatable-may_move :
    (s : AttemptStatus) → includes reactivatable s ≡ true → may_move s created ≡ true
reactivatable-may_move s h = ground arith

pub reactivate-Evolves : (id : ℕ) (w : World) → Evolves w (left (reactivate id w))
unfolding reactivate
reactivate-Evolves id w = elim (Option-cases (find_by_id id w)) [
  | inl e ↦ rw (e, reactivate) (Evolves-refl w)
  | inr (a, e) ↦ elim (Bool-cases (includes reactivatable a.status)) [
    | inl r ↦
        rw (e, reactivate, r)
          (Evolves-then (left (append_typed_event id learner (resumed a.status) w)) id
            (record no_updates { status = some created; environment_id = some none }) a created
            (Evolves-append id learner (resumed a.status) w) refl e refl
            (reactivatable-may_move a.status r))
    | inr r ↦ rw (e, reactivate, r) (Evolves-refl w)
  ]
]
