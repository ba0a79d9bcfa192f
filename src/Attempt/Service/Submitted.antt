-- ===== src/Attempt/Service/Submitted.antt =====
-- How a submission of attempt.service.ts ends, and the requests it refuses.
use skillfyme_hands_on.Base.{ℕ, ◌≡◌, refl, Bool, true, false, Option, none, some, List, [], ◌∷◌}
use skillfyme_hands_on.Common.Status.{in_progress, submitted, same_status}
use skillfyme_hands_on.EventStore.Events.{learner}
use skillfyme_hands_on.EventStore.Events
use skillfyme_hands_on.Store.Rows.{Attempt, ValidatorSpec, ActivityVersion, World}
use skillfyme_hands_on.Store.Monad.{
  ok, err, left, attempt_error, append_typed_event, invalid_state_transition,
}
use skillfyme_hands_on.Store.Repository.{find_by_id, Updates, no_updates, updated, update_where}
use skillfyme_hands_on.Store.Repository.Laws.{transition_lem, find-same, find-moved}
use skillfyme_hands_on.Evaluation.ValidatorRunner.{ResultStatus, TaskSummary}
use skillfyme_hands_on.Evaluation.Service.{find_version}
use skillfyme_hands_on.Evaluation.Service.Laws.{graded_status, evaluate-verdict}
use skillfyme_hands_on.Attempt.Service.Handlers.{Orchestrator}
use skillfyme_hands_on.Attempt.Service.Operations.{destroy_after, check_work, submit_attempt}

module _ (orchestrator : Orchestrator)
    (execute : Option ℕ → ValidatorSpec → ℕ → Option ResultStatus)
    (score : Attempt → List TaskSummary → ℕ × Bool) where
  -- Work is checked and submitted only of an attempt in progress: any other status is refused, and
  -- nothing changes.
  pub not_in_progress-refused :
      (id : ℕ) (w : World) (a : Attempt)
      → find_by_id id w ≡ some a
      → same_status a.status in_progress ≡ false
      → (check_work orchestrator execute score id w
          ≡ err (attempt_error (invalid_state_transition ∷ [])) w)
        × (submit_attempt orchestrator execute score id w
            ≡ err (attempt_error (invalid_state_transition ∷ [])) w)
  unfolding check_work submit_attempt
  not_in_progress-refused id w a h p = (rw (h, check_work, p) refl, rw (h, submit_attempt, p) refl)

  abbrev pub to_submitted : ℕ → Updates
  to_submitted now = record no_updates { status = some submitted; submitted_at = some now }

  -- The row that the evaluation of a submission is given.
  abbrev pub as_submitted : World → Attempt → Attempt
  as_submitted w a = updated w.now a.version (to_submitted w.now) a

  destroy_after-ok :
      (env : Option ℕ) (w : World)
      → (x : World) × (destroy_after orchestrator execute score env w ≡ ok tt x)
        × (x.attempts ≡ w.attempts)
  destroy_after-ok none w = (w, refl, refl)
  destroy_after-ok (some env) w = (_, refl, refl)

  -- A submission of an attempt in progress, whose version is there, ends: it returns the row, passed
  -- or failed by the scoring's verdict on the submitted row, and the row is stored.
  pub submit_attempt-verdict :
      (id : ℕ) (w : World) (a : Attempt) (v : ActivityVersion)
      → find_by_id id w ≡ some a
      → same_status a.status in_progress ≡ true
      → find_version a.activity_version_id w ≡ some v
      → (b : Attempt) × (x : World) × (submit_attempt orchestrator execute score id w ≡ ok b x)
        × (b.status ≡ graded_status execute score (as_submitted w a) v)
        × (find_by_id id x ≡ some b)
  unfolding submit_attempt updated
  submit_attempt-verdict id w a v e p n =
      let y : World = left (append_typed_event id learner Events.submitted w) in
      let u : Updates = to_submitted w.now in
      let f : find_by_id id y ≡ some a = find-same id w y a refl e in
      let z : World = record y {
        attempts = update_where id a.version (updated y.now a.version u) y.attempts;
      } in
      let (t, b, s, r, g, k, _, _, _) =
        evaluate-verdict execute score id z (as_submitted w a) v (find-moved id y z u a f refl) refl
          n in
      let (x, d, m) = destroy_after-ok b.environment_id t in
      (
        b,
        x,
        rw (e, submit_attempt, p, transition_lem id u y a f, r, g, d) refl,
        k,
        find-same id t x b m g,
      )
