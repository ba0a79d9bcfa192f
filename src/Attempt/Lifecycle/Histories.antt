-- ===== src/Attempt/Lifecycle/Histories.antt =====
-- Histories of the attempts: the requests, messages and timers that reach practice-core, one after
-- another in any order. Each is served by its handler; none runs in the middle of another.
use skillfyme_hands_on.Base.{
  ℕ, ◌+◌, ◌-◌, ◌≡◌, refl, Bool, Option, none, some, List, [], ◌∷◌, ◌++◌, true, false,
}
use skillfyme_hands_on.Common.Status.{includes}
use skillfyme_hands_on.EventStore.Events.{
  AttemptEventRow, DestroyReason, EventActor, learner, editor_save, ai_message,
}
use skillfyme_hands_on.Store.Rows.{Attempt, ValidatorSpec, World}
use skillfyme_hands_on.Store.Monad.{left, append_typed_event}
use skillfyme_hands_on.Store.Repository.{touch, find_by_id, find_stale_suspended_attempts}
use skillfyme_hands_on.Evaluation.ValidatorRunner.{ResultStatus, TaskSummary}
use skillfyme_hands_on.Attempt.Service.Handlers.{
  Orchestrator, mark_started, handle_environment_destroyed, reactivate, connect, load,
  or_attempt_error,
}
use skillfyme_hands_on.Store.Monad.{no_environment}
use skillfyme_hands_on.Evaluation.Service.{take_or_throw}
use skillfyme_hands_on.Attempt.Service.Operations.{
  CreateAttemptInput, create_attempt, check_work, submit_attempt, start_lab, cache_all,
  inactivity_threshold, sweep,
}
use skillfyme_hands_on.Attempt.Lifecycle.Machine.{
  Reach-sealed, sealed, IsFresh, Moved, Evolves, Evolves-refl, Evolves-trans, Evolves-logs,
}
use skillfyme_hands_on.Attempt.Lifecycle.Rules.{Evolves-append, Evolves-send, Evolves-touch}
use skillfyme_hands_on.Attempt.Lifecycle.Hints.{reveal-Evolves, guided_fallback-Evolves}
use skillfyme_hands_on.Attempt.Hints.{reveal, guided_fallback}
use skillfyme_hands_on.Attempt.Lifecycle.Handlers.{
  mark_started-Evolves, handle_environment_destroyed-Evolves, cache-Evolves, reactivate-Evolves,
}
use skillfyme_hands_on.Attempt.Lifecycle.Operations.{
  Evolves-seq, find_or_throw-Evolves, or_attempt_error-Evolves, create_attempt-Evolves,
  check_work-Evolves, submit_attempt-Evolves,
}
use skillfyme_hands_on.Attempt.Lifecycle.Provisioning.{start_lab-Evolves}

cache_all-Evolves : (xs : List Attempt) (w : World) → Evolves w (cache_all xs w)
unfolding cache_all
cache_all-Evolves [] w = Evolves-refl w
cache_all-Evolves (a ∷ rest) w = Evolves-trans (cache-Evolves a.id w) (cache_all-Evolves rest _)

sweep-Evolves : (w : World) → Evolves w (sweep w)
unfolding sweep
sweep-Evolves w =
    cache_all-Evolves (find_stale_suspended_attempts (w.now - inactivity_threshold) w) w

-- What reaches the server; `tick` lets time pass. A file is written, or the environment fails; an
-- artifact is one that the activity requires, or is refused; a message to the mentor is logged as the
-- message of somebody, or not at all.
pub data Call : Type 0 where
  call_create : CreateAttemptInput → Call
  call_start_lab : ℕ → Call
  call_mark_started : ℕ → Call
  call_check_work : ℕ → Call
  call_submit : ℕ → Call
  call_reactivate : ℕ → Call
  call_connect : ℕ → Call
  call_reveal_hint : ℕ → ℕ → Call
  call_guided_fallback : ℕ → ℕ → Call
  call_write_file : ℕ → Bool → Call
  call_submit_artifact : ℕ → Bool → Call
  call_mentor : ℕ → Option EventActor → Call
  environment_destroyed : ℕ → DestroyReason → Call
  sweep_timer : Call
  tick : ℕ → Call

module _ (gate_met : ℕ → ℕ → Bool) (quota_disabled : Bool) (orchestrator : Orchestrator)
    (execute : Option ℕ → ValidatorSpec → ℕ → Option ResultStatus)
    (score : Attempt → List TaskSummary → ℕ × Bool) where
  unfoldable pub serve : Call → World → World
  serve (call_create i) w = left (create_attempt gate_met quota_disabled i w)
  serve (call_start_lab id) w = left (start_lab orchestrator execute score (λ x. x) id w)
  serve (call_mark_started id) w = left (mark_started id w)
  serve (call_check_work id) w = left (check_work orchestrator execute score id w)
  serve (call_submit id) w = left (submit_attempt orchestrator execute score id w)
  serve (call_reactivate id) w = left (reactivate id w)
  serve (call_connect id) w = left (connect orchestrator id (left (touch id w)))
  serve (call_reveal_hint id key) w = left (reveal id key w)
  serve (call_guided_fallback id key) w = left (guided_fallback id key w)
  serve (call_write_file id true) w = left (touch id w)
  serve (call_write_file id false) w = w
  serve (call_submit_artifact id true) w = left (append_typed_event id learner editor_save w)
  serve (call_submit_artifact id false) w = w
  serve (call_mentor id (some actor)) w = left (append_typed_event id actor ai_message w)
  serve (call_mentor id none) w = w
  serve (environment_destroyed id reason) w = left (handle_environment_destroyed id reason w)
  serve sweep_timer w = sweep w
  serve (tick n) w = record w { now = w.now + n }

  unfoldable pub serve_all : List Call → World → World
  unfolding serve
  serve_all [] w = w
  serve_all (c ∷ cs) w = serve_all cs (serve c w)

  connect-Evolves : (id : ℕ) (w : World) → Evolves w (left (connect orchestrator id w))
  unfolding connect
  connect-Evolves id w =
      Evolves-seq (load id w) _ (find_or_throw-Evolves (find_by_id id w) w) (λ a x.
        Evolves-seq (or_attempt_error no_environment a.environment_id x) _
          (or_attempt_error-Evolves no_environment a.environment_id x)
          (λ env y.
            Evolves-trans (Evolves-send _ y) (take_or_throw-Evolves (orchestrator.connect env) _)))
    where
      take_or_throw-Evolves : (o : Option ℕ) (y : World) → Evolves y (left (take_or_throw o y))
      take_or_throw-Evolves none y = Evolves-refl y
      take_or_throw-Evolves (some u) y = Evolves-refl y

  pub serve-Evolves : (c : Call) (w : World) → Evolves w (serve c w)
  unfolding serve
  serve-Evolves (call_create i) w = create_attempt-Evolves gate_met quota_disabled i w
  serve-Evolves (call_start_lab id) w =
      start_lab-Evolves orchestrator (λ x. x) Evolves-refl (λ _ _ p. p) execute score id w
  serve-Evolves (call_mark_started id) w = mark_started-Evolves id w
  serve-Evolves (call_check_work id) w = check_work-Evolves orchestrator execute score id w
  serve-Evolves (call_submit id) w = submit_attempt-Evolves orchestrator execute score id w
  serve-Evolves (call_reactivate id) w = reactivate-Evolves id w
  serve-Evolves (call_connect id) w =
      Evolves-trans (Evolves-touch id w) (connect-Evolves id (left (touch id w)))
  serve-Evolves (call_reveal_hint id key) w = reveal-Evolves id key w
  serve-Evolves (call_guided_fallback id key) w = guided_fallback-Evolves id key w
  serve-Evolves (call_write_file id true) w = Evolves-touch id w
  serve-Evolves (call_write_file id false) w = Evolves-refl w
  serve-Evolves (call_submit_artifact id true) w = Evolves-append id learner editor_save w
  serve-Evolves (call_submit_artifact id false) w = Evolves-refl w
  serve-Evolves (call_mentor id (some actor)) w = Evolves-append id actor ai_message w
  serve-Evolves (call_mentor id none) w = Evolves-refl w
  serve-Evolves (environment_destroyed id reason) w =
      handle_environment_destroyed-Evolves id reason w
  serve-Evolves sweep_timer w = sweep-Evolves w
  serve-Evolves (tick n) w = Evolves-logs w _ [] refl refl refl

  serve_all-Evolves : (cs : List Call) (w : World) → Evolves w (serve_all cs w)
  unfolding serve_all
  serve_all-Evolves [] w = Evolves-refl w
  serve_all-Evolves (c ∷ cs) w =
      Evolves-trans (serve-Evolves c w) (serve_all-Evolves cs (serve c w))

  serve_all-Moved :
      (cs : List Call) (w : World) (id : ℕ) (a : Attempt)
      → IsFresh w
      → find_by_id id w ≡ some a
      → (b : Attempt) × (find_by_id id (serve_all cs w) ≡ some b) × Moved a b
  serve_all-Moved cs w id a f e = (serve_all-Evolves cs w).moves f id a e

  -- In a world whose attempts' ids are all below the next one, an attempt that has passed, failed,
  -- completed, expired, been abandoned or failed to be evaluated stays there with that status,
  -- whatever calls are served in whatever order.
  pub serve_all-sealed :
      (cs : List Call) (w : World) (id : ℕ) (a : Attempt)
      → IsFresh w
      → find_by_id id w ≡ some a
      → includes sealed a.status ≡ true
      → (b : Attempt) × (find_by_id id (serve_all cs w) ≡ some b) × (b.status ≡ a.status)
  serve_all-sealed cs w id a f e s =
      let (b, eb, m) = serve_all-Moved cs w id a f e in (b, eb, Reach-sealed s m.reached)

  -- Whatever calls are served, every event that was in the log stays in it, at its place: new ones are
  -- only added in front, where the newest stand.
  pub serve_all-events :
      (cs : List Call) (w : World)
      → (es : List AttemptEventRow) × ((serve_all cs w).events ≡ es ++ w.events)
  serve_all-events cs w = (serve_all-Evolves cs w).logged

  -- Whatever calls are served, ids stay fresh: no new attempt hides one that is there.
  pub serve_all-IsFresh : (cs : List Call) (w : World) → IsFresh w → IsFresh (serve_all cs w)
  serve_all-IsFresh cs w = (serve_all-Evolves cs w).fresh
