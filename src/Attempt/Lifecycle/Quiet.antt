-- ===== src/Attempt/Lifecycle/Quiet.antt =====
-- Steps that leave the attempts alone: the event log's writes, the runs of the validators, the
-- replay, the requests to the orchestrator.
use skillfyme_hands_on.Base.{Option, none, ℕ, ◌≡◌, refl, ◌∙◌, some, List, [], ◌∷◌, Option}
use skillfyme_hands_on.EventStore.Events.{
  EventActor, AttemptEvent, validator, system, validator_result, validation_requested,
  fault_injected,
}
use skillfyme_hands_on.Store.Rows.{
  Attempt, FaultSpec, TaskSpec, ValidatorSpec, World, Request, inject_fault_request,
}
use skillfyme_hands_on.Store.Monad.{Outcome, ok, err, M, bind, left, append_typed_event, send}
use skillfyme_hands_on.Store.Repository.{find_by_id}
use skillfyme_hands_on.Evaluation.ValidatorRunner.{
  ResultStatus, ValidatorResult, results_of, record_results, run_task, run_tasks, run,
}
use skillfyme_hands_on.Evaluation.Service.{take_or_throw, rebuild}
use skillfyme_hands_on.Attempt.Service.Handlers.{Orchestrator, inject_faults}
use skillfyme_hands_on.Attempt.Lifecycle.Machine.{
  Evolves, Evolves-refl, Evolves-trans, Evolves-logs,
}
use skillfyme_hands_on.Attempt.Lifecycle.Rules.{Evolves-append, Evolves-send}

pub record Quiet (w v : World) : Type 0 where
  pub evolves : Evolves w v
  pub same : v.attempts ≡ w.attempts

pub Quiet-refl : (w : World) → Quiet w w
Quiet-refl w = record { evolves = Evolves-refl w; same = refl }

pub Quiet-trans : {u v w : World} → Quiet u v → Quiet v w → Quiet u w
Quiet-trans p q = record { evolves = Evolves-trans p.evolves q.evolves; same = q.same ∙ p.same }

pub Quiet-find :
    {w v : World} (id : ℕ) (a : Attempt)
    → Quiet w v
    → find_by_id id w ≡ some a
    → find_by_id id v ≡ some a
unfolding find_by_id
Quiet-find id a q h = rw q.same h

-- A quiet step followed by another.
pub Quiet-bind {ℓ κ} :
    {A : Type ℓ} {B : Type κ} {w : World} (o : Outcome A) (f : A → M B)
    → Quiet w (left o)
    → ((a : A) (v : World) → Quiet w v → Quiet w (left (f a v)))
    → Quiet w (left (bind o f))
Quiet-bind (ok a v) f q k = k a v q
Quiet-bind (err x v) f q k = q

-- A quiet step followed by any.
pub Quiet-then {ℓ κ} :
    {A : Type ℓ} {B : Type κ} {w : World} (o : Outcome A) (f : A → M B)
    → Quiet w (left o)
    → ((a : A) (v : World) → Quiet w v → Evolves w (left (f a v)))
    → Evolves w (left (bind o f))
Quiet-then (ok a v) f q k = k a v q
Quiet-then (err x v) f q k = q.evolves

pub Quiet-append :
    (id : ℕ) (actor : EventActor) (e : AttemptEvent) (w : World)
    → Quiet w (left (append_typed_event id actor e w))
Quiet-append id actor e w = record { evolves = Evolves-append id actor e w; same = refl }

pub Quiet-send : (r : Request) (w : World) → Quiet w (left (send r w))
Quiet-send r w = record { evolves = Evolves-send r w; same = refl }

pub Quiet-rebuild : (id : ℕ) (w : World) → Quiet w (left (rebuild id w))
unfolding rebuild
Quiet-rebuild id w = record { evolves = Evolves-logs w _ [] refl refl refl; same = refl }

Quiet-take_or_throw {ℓ} :
    {A : Type ℓ} (o : Option A) (w : World) → Quiet w (left (take_or_throw o w))
Quiet-take_or_throw none w = Quiet-refl w
Quiet-take_or_throw (some a) w = Quiet-refl w

pub Quiet-inject_faults :
    (orchestrator : Orchestrator) (id env : ℕ) (fs : List FaultSpec) (w : World)
    → Quiet w (left (inject_faults orchestrator id env fs w))
unfolding inject_faults
Quiet-inject_faults orchestrator id env [] w = Quiet-refl w
Quiet-inject_faults orchestrator id env (f ∷ fs) w =
    let x : World = left (send (inject_fault_request env f.id) w) in
    Quiet-bind (take_or_throw (orchestrator.inject_fault env f.id) x) _
      (Quiet-trans (Quiet-send (inject_fault_request env f.id) w)
        (Quiet-take_or_throw (orchestrator.inject_fault env f.id) x))
      (λ applied y q. Quiet-trans q (
        Quiet-trans (Quiet-append id system (fault_injected f.id applied) y)
          (Quiet-inject_faults orchestrator id env fs _)))

module _ (execute : ValidatorSpec → ℕ → Option ResultStatus) where
  Quiet-record_results :
      (id : ℕ) (rs : List ValidatorResult) (w : World)
      → Quiet w (left (record_results execute id rs w))
  Quiet-record_results id [] w = Quiet-refl w
  Quiet-record_results id (r ∷ rs) w =
      Quiet-trans (Quiet-append id validator validator_result w) (Quiet-record_results id rs _)

  Quiet-run_task : (id : ℕ) (t : TaskSpec) (w : World) → Quiet w (left (run_task execute id t w))
  unfolding run_task
  Quiet-run_task id t w =
      Quiet-bind (record_results execute id (results_of execute t.validators) w) _
        (Quiet-record_results id (results_of execute t.validators) w)
        (λ _ v q. Quiet-trans q (Quiet-append id system _ v))

  Quiet-run_tasks :
      (id : ℕ) (ts : List TaskSpec) (w : World) → Quiet w (left (run_tasks execute id ts w))
  unfolding run_tasks
  Quiet-run_tasks id [] w = Quiet-refl w
  Quiet-run_tasks id (t ∷ ts) w =
      Quiet-bind (run_task execute id t w) _ (Quiet-run_task id t w) (λ s v q.
        Quiet-trans q
          (Quiet-bind (run_tasks execute id ts v) _ (Quiet-run_tasks id ts v) (λ _ u p. p)))

  pub Quiet-run : (id : ℕ) (ts : List TaskSpec) (w : World) → Quiet w (left (run execute id ts w))
  unfolding run
  Quiet-run id ts w =
      Quiet-trans (Quiet-append id system validation_requested w) (Quiet-run_tasks id ts _)
