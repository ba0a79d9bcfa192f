-- ===== src/Attempt/Lifecycle/Operations.antt =====
-- The operations of attempt.service.ts and evaluation.service.ts that call several others evolve the
-- world along the machine.
use skillfyme_hands_on.Base.{
  ℕ, ◌≡◌, refl, subst, sym, inl, inr, Bool, Bool-cases, true, false, ◌||◌, Option, none, some,
  Option-cases, List, [], ◌∷◌, if◌then◌else◌, any, find, arith,
}
use skillfyme_hands_on.Common.Status.{
  AttemptStatus, in_progress, submitted, evaluating, passed, failed, same_status,
}
use skillfyme_hands_on.EventStore.Events.{AttemptEvent, system, learner, evaluated, attempt_created}
use skillfyme_hands_on.EventStore.Events
use skillfyme_hands_on.EventStore.Log.{replay}
use skillfyme_hands_on.Store.Rows.{Attempt, ValidatorSpec, ActivityVersion, World}
use skillfyme_hands_on.Store.Monad.{
  AttemptErrorCode, attempt_vanished, no_environment, Outcome, M, bind, left, return, find_or_throw,
  append_typed_event,
}
use skillfyme_hands_on.Store.Repository.{
  has_id, find_by_id, Updates, transition, no_updates, touch, create,
}
use skillfyme_hands_on.Store.Repository.Laws.{find-has_id}
use skillfyme_hands_on.Evaluation.ValidatorRunner.{ResultStatus, TaskSummary, run}
use skillfyme_hands_on.Evaluation.Service.{
  find_version, rebuild, record_learner_state, clear_cooldowns, grade, evaluate,
}
use skillfyme_hands_on.Attempt.Eligibility.{check}
use skillfyme_hands_on.Attempt.Service.Operations.{
  CreateAttemptInput, expect_in_progress, reject, create_input, is_attempt_created, destroy_after,
  has_reasons, create_attempt, check_work, submit_attempt,
}
use skillfyme_hands_on.Attempt.Service.Handlers.{Orchestrator, load, or_attempt_error}
use skillfyme_hands_on.Attempt.Lifecycle.Machine.{
  may_move, Evolves, Evolves-refl, Evolves-trans, Evolves-logs, Evolves-bind,
}
use skillfyme_hands_on.Attempt.Lifecycle.Rules.{
  Evolves-append, Evolves-touch, Evolves-send, Evolves-create, Evolves-then,
}
use skillfyme_hands_on.Attempt.Lifecycle.Quiet.{
  Quiet, Quiet-trans, Quiet-then, Quiet-append, Quiet-rebuild, Quiet-run,
}
use skillfyme_hands_on.Attempt.Lifecycle.Handlers.{same_status-eq}

-- A step that evolves the world, followed by one that does so from any world.
pub Evolves-seq {ℓ κ} :
    {A : Type ℓ} {B : Type κ} {w : World} (o : Outcome A) (f : A → M B)
    → Evolves w (left o)
    → ((a : A) (v : World) → Evolves v (left (f a v)))
    → Evolves w (left (bind o f))
Evolves-seq o f e k = Evolves-bind o f e (λ a v _ d. Evolves-trans d (k a v))

pub find_or_throw-Evolves {ℓ} :
    {A : Type ℓ} (o : Option A) (w : World) → Evolves w (left (find_or_throw o w))
find_or_throw-Evolves none w = Evolves-refl w
find_or_throw-Evolves (some a) w = Evolves-refl w

pub or_attempt_error-Evolves {ℓ} :
    {A : Type ℓ} (c : AttemptErrorCode) (o : Option A) (w : World)
    → Evolves w (left (or_attempt_error c o w))
or_attempt_error-Evolves c none w = Evolves-refl w
or_attempt_error-Evolves c (some a) w = Evolves-refl w

abbrev pub guard_reasons : List AttemptErrorCode → M (Unit {0})
guard_reasons rs = if has_reasons rs then reject rs else return tt

guard_reasons-Evolves :
    (rs : List AttemptErrorCode) (w : World) → Evolves w (left (guard_reasons rs w))
guard_reasons-Evolves [] w = Evolves-refl w
guard_reasons-Evolves (r ∷ rs) w = Evolves-refl w

abbrev pub append_unless : Bool → ℕ → AttemptEvent → M (Unit {0})
append_unless b id e = if b then return tt else append_typed_event id system e

append_unless-Evolves :
    (b : Bool) (id : ℕ) (e : AttemptEvent) (w : World) → Evolves w (left (append_unless b id e w))
append_unless-Evolves true id e w = Evolves-refl w
append_unless-Evolves false id e w = Evolves-append id system e w

expect_in_progress-Evolves : (a : Attempt) (w : World) → Evolves w (left (expect_in_progress a w))
expect_in_progress-Evolves a w = elim (Bool-cases (same_status a.status in_progress)) [
  | inl e ↦ rw e (Evolves-refl w)
  | inr e ↦ rw e (Evolves-refl w)
]

abbrev is_gradable : AttemptStatus → Bool
is_gradable s = same_status s evaluating || same_status s submitted

gradable_may_move :
    (s : AttemptStatus) (b : Bool)
    → is_gradable s ≡ true
    → may_move s (if b then passed else failed) ≡ true
gradable_may_move s b h = ground arith

Evolves-record_learner_state :
    (a : Attempt) (score : ℕ) (passes : Bool) (w : World)
    → Evolves w (record_learner_state a score passes w)
unfolding record_learner_state clear_cooldowns
Evolves-record_learner_state a score true w = Evolves-logs w _ [] refl refl refl
Evolves-record_learner_state a score false w = Evolves-logs w _ [] refl refl refl

module _ (execute : Option ℕ → ValidatorSpec → ℕ → Option ResultStatus)
    (score : Attempt → List TaskSummary → ℕ × Bool) where
  grade-Evolves :
      (a : Attempt) (v : ActivityVersion) (w : World)
      → find_by_id a.id w ≡ some a
      → is_gradable a.status ≡ true
      → Evolves w (left (grade execute score a v w))
  unfolding grade
  grade-Evolves a v w h g =
      Quiet-then (run (execute a.environment_id) a.id v.tasks w) _
        (Quiet-run (execute a.environment_id) a.id v.tasks w)
        (λ summaries x q.
          let e = evaluated (score a summaries).0 (score a summaries).1 in
          let y : World = left (append_typed_event a.id system e (left (rebuild a.id x))) in
          let p : Quiet w y =
            Quiet-trans (Quiet-trans q (Quiet-rebuild a.id x)) (Quiet-append a.id system e _) in
          let s : AttemptStatus = if (score a summaries).1 then passed else failed in
          let u : Updates = record no_updates { status = some s; completed_at = some y.now } in
          Evolves-bind (transition a.id a.version u y) _
            (Evolves-then y a.id u a s p.evolves p.same h refl
              (gradable_may_move a.status (score a summaries).1 g))
            (λ _ z _ r.
              Evolves-trans r
                (Evolves-record_learner_state a (score a summaries).0 (score a summaries).1 z)))

  found_id :
      (id : ℕ) (w : World) (a : Attempt) → find_by_id id w ≡ some a → find_by_id a.id w ≡ some a
  unfolding find_by_id
  found_id id w a h =
      subst (λ j. find (has_id j) w.attempts ≡ some a) (sym (find-has_id id w.attempts a h)) h

  pub evaluate-Evolves : (id : ℕ) (w : World) → Evolves w (left (evaluate execute score id w))
  unfolding evaluate
  evaluate-Evolves id w = elim (Option-cases (find_by_id id w)) [
    | inl e ↦ rw (e, evaluate) (Evolves-refl w)
    | inr (a, e) ↦ elim (Bool-cases (is_gradable a.status)) [
      | inr g ↦ rw (e, evaluate, g) (Evolves-refl w)
      | inl g ↦ elim (Option-cases (find_version a.activity_version_id w)) [
        | inl n ↦ rw (e, evaluate, g, n) (Evolves-refl w)
        | inr (v, n) ↦ rw (e, evaluate, g, n) (grade-Evolves a v w (found_id id w a e) g)
      ]
    ]
  ]

module _ (orchestrator : Orchestrator)
    (execute : Option ℕ → ValidatorSpec → ℕ → Option ResultStatus)
    (score : Attempt → List TaskSummary → ℕ × Bool) where
  pub check_work-Evolves :
      (id : ℕ) (w : World) → Evolves w (left (check_work orchestrator execute score id w))
  unfolding check_work touch rebuild
  check_work-Evolves id w =
      Evolves-seq (load id w) _ (find_or_throw-Evolves (find_by_id id w) w) (λ a x.
        Evolves-seq (expect_in_progress a x) _ (expect_in_progress-Evolves a x) (λ _ y.
          Evolves-seq (or_attempt_error no_environment a.environment_id y) _
            (or_attempt_error-Evolves no_environment a.environment_id y)
            (λ env z.
              Evolves-seq (find_or_throw (find_version a.activity_version_id z) z) _
                (find_or_throw-Evolves (find_version a.activity_version_id z) z)
                (λ v u.
                  Evolves-seq (run (execute (some env)) id v.tasks u) _
                    (Quiet-run (execute (some env)) id v.tasks u).evolves
                    (λ _ t. Evolves-trans (Quiet-rebuild id t).evolves (Evolves-touch id _))))))

  pub submit_attempt-Evolves :
      (id : ℕ) (w : World) → Evolves w (left (submit_attempt orchestrator execute score id w))
  unfolding submit_attempt
  submit_attempt-Evolves id w = elim (Option-cases (find_by_id id w)) [
    | inl e ↦ rw (e, submit_attempt) (Evolves-refl w)
    | inr (a, e) ↦ elim (Bool-cases (same_status a.status in_progress)) [
      | inr r ↦ rw (e, submit_attempt, r) (Evolves-refl w)
      | inl r ↦
          let v : World = left (append_typed_event id learner Events.submitted w) in
          let u : Updates = record no_updates {
            status = some submitted;
            submitted_at = some w.now;
          } in
          rw (e, submit_attempt, r)
            (Evolves-seq (transition id a.version u v) _
              (Evolves-then v id u a submitted (Evolves-append id learner Events.submitted w) refl e
                refl (rw (same_status-eq a.status in_progress r) refl))
              (λ _ x.
                Evolves-seq (evaluate execute score id x) _ (evaluate-Evolves execute score id x)
                  (λ _ y.
                    Evolves-seq (or_attempt_error attempt_vanished (find_by_id id y) y) _
                      (or_attempt_error-Evolves attempt_vanished (find_by_id id y) y)
                      (λ b z.
                        Evolves-seq (destroy_after orchestrator execute score b.environment_id z) _
                          (destroy_after-Evolves b.environment_id z) (λ _ t. Evolves-refl t)))))
    ]
  ]
    where
      destroy_after-Evolves :
          (env : Option ℕ) (z : World)
          → Evolves z (left (destroy_after orchestrator execute score env z))
      destroy_after-Evolves none z = Evolves-refl z
      destroy_after-Evolves (some env) z = Evolves-send _ z

pub create_attempt-Evolves :
    (gate_met : ℕ → ℕ → Bool) (quota_disabled : Bool) (i : CreateAttemptInput) (w : World)
    → Evolves w (left (create_attempt gate_met quota_disabled i w))
unfolding create_attempt
create_attempt-Evolves gate_met quota_disabled i w =
    let reasons = check gate_met quota_disabled i.user_id i.activity_version_id w in
    Evolves-seq (find_or_throw (find_version i.activity_version_id w) w) _
      (find_or_throw-Evolves (find_version i.activity_version_id w) w)
      (λ v x. Evolves-seq (guard_reasons reasons x) _ (guard_reasons-Evolves reasons x) (λ _ y.
        Evolves-seq (create (create_input i v w) y) _ (Evolves-create (create_input i v w) y)
          (λ a z.
            let e = attempt_created i.activity_version_id in
            let b = any is_attempt_created (replay a.id z.events) in
            Evolves-seq (append_unless b a.id e z) _ (append_unless-Evolves b a.id e z)
              (λ _ t. Evolves-refl t))))
