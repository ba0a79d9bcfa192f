-- ===== src/Evaluation/Service/Laws.antt =====
-- What an evaluation concludes and records.
use skillfyme_hands_on.Base.{
  ℕ, ◌≡◌, ◌∙◌, refl, Bool, true, false, ◌||◌, Option, none, some, List, [], ◌∷◌, map, ==_refl,
  get_or, find, if◌then◌else◌, arith, subst, sym,
}
use skillfyme_hands_on.Common.Status.{
  AttemptStatus, submitted, evaluating, passed, failed, same_status,
}
use skillfyme_hands_on.EventStore.Events.{system, evaluated, task_passed, task_failed}
use skillfyme_hands_on.Store.Rows.{
  Attempt, ValidatorSpec, TaskSpec, ActivityVersion, LearnerActivityState, World,
}
use skillfyme_hands_on.Store.Monad.{ok, left, append_typed_event}
use skillfyme_hands_on.Store.Repository.{find_by_id, Updates, no_updates, updated, update_where}
use skillfyme_hands_on.Store.Repository.Laws.{transition_lem, find-same, find-moved, find-own_id}
use skillfyme_hands_on.Evaluation.ValidatorRunner.{
  ResultStatus, ValidatorResult, TaskSummary, results_of, task_passes, record_results, summary_of,
  run_task, run_tasks, run,
}
use skillfyme_hands_on.Evaluation.Cooldown.{compute_cooldown_until}
use skillfyme_hands_on.Evaluation.Service.{
  find_version, rebuild, is_state_of, scored, blank_state, upsert_state, is_remediated,
  clear_cooldowns, record_learner_state, grade, evaluate,
}

module _ (execute : ValidatorSpec → ℕ → Option ResultStatus) where
  record_results-ok :
      (id : ℕ) (rs : List ValidatorResult) (w : World)
      → (v : World) × (record_results execute id rs w ≡ ok tt v) × (v.attempts ≡ w.attempts)
  record_results-ok id [] w = (w, refl, refl)
  record_results-ok id (r ∷ rs) w = record_results-ok id rs _

  run_tasks-ok :
      (id : ℕ) (ts : List TaskSpec) (w : World)
      → (v : World) × (run_tasks execute id ts w ≡ ok (map (summary_of execute) ts) v)
        × (v.attempts ≡ w.attempts)
  unfolding run_tasks run_task
  run_tasks-ok id [] w = (w, refl, refl)
  run_tasks-ok id (t ∷ ts) w =
      let (u, e, s) = record_results-ok id (results_of execute t.validators) w in
      let rs = results_of execute t.validators in
      let e' = if task_passes rs then task_passed t.key else task_failed t.key in
      let (v, f, r) = run_tasks-ok id ts (left (append_typed_event id system e' u)) in
      (v, rw (e, f) refl, r ∙ s)

  -- A run of the validators ends well, with the summary of each task, and leaves the attempts alone.
  pub run-ok :
      (id : ℕ) (ts : List TaskSpec) (w : World)
      → (v : World) × (run execute id ts w ≡ ok (map (summary_of execute) ts) v)
        × (v.attempts ≡ w.attempts)
  unfolding run
  run-ok id ts w = run_tasks-ok id ts _

module _ (user activity : ℕ) where
  find-upsert_state :
      (f : LearnerActivityState → LearnerActivityState) (ss : List LearnerActivityState)
      → ((s : LearnerActivityState) → is_state_of user activity (f s) ≡ is_state_of user activity s)
      → find (is_state_of user activity) (upsert_state user activity f ss)
        ≡ some (f (get_or (find (is_state_of user activity) ss) (blank_state user activity)))
  unfolding upsert_state
  find-upsert_state f [] keeps =
      rw (keeps (blank_state user activity), ==_refl user, ==_refl activity) refl
  find-upsert_state f (s ∷ ss) keeps = ground (arith, keeps s, find-upsert_state f ss keeps)

  -- The cooldowns that a pass clears are those of other activities.
  find-clear_cooldowns :
      (w : World) (ss : List LearnerActivityState)
      → find (is_state_of user activity) (
          map
            (λ s. if is_remediated user activity w s then record s { cooldown_until = none } else s)
            ss)
        ≡ find (is_state_of user activity) ss
  find-clear_cooldowns w [] = refl
  find-clear_cooldowns w (s ∷ ss) = ground (arith, find-clear_cooldowns w ss)

-- What is recorded of the learner and the activity after a score: the best of it and the one before,
-- one attempt more, and a cooldown exactly if the attempt did not pass.
pub record_learner_state-found :
    (a : Attempt) (n : ℕ) (passes : Bool) (w : World)
    → find (is_state_of a.user_id a.activity_id) (record_learner_state a n passes w).learner_states
      ≡ some (
          scored n passes
            (if passes then none else some (compute_cooldown_until a.retry_index w.now))
            (get_or
              (find (is_state_of a.user_id a.activity_id) w.learner_states)
              (blank_state a.user_id a.activity_id)))
unfolding record_learner_state clear_cooldowns
record_learner_state-found a n true w =
    find-clear_cooldowns a.user_id a.activity_id _ _
    ∙ find-upsert_state a.user_id a.activity_id _ w.learner_states (λ s. refl)
record_learner_state-found a n false w =
    find-upsert_state a.user_id a.activity_id _ w.learner_states (λ s. refl)

record_learner_state-attempts :
    (a : Attempt) (n : ℕ) (passes : Bool) (w : World)
    → (record_learner_state a n passes w).attempts ≡ w.attempts
unfolding record_learner_state clear_cooldowns
record_learner_state-attempts a n true w = refl
record_learner_state-attempts a n false w = refl

module _ (execute : Option ℕ → ValidatorSpec → ℕ → Option ResultStatus)
    (score : Attempt → List TaskSummary → ℕ × Bool) where
  -- The verdict of the scoring on a version's tasks.
  abbrev pub verdict : Attempt → ActivityVersion → ℕ × Bool
  verdict a v = score a (map (summary_of (execute a.environment_id)) v.tasks)

  abbrev pub graded_status : Attempt → ActivityVersion → AttemptStatus
  graded_status a v = if (verdict a v).1 then passed else failed

  -- An attempt that is submitted or being evaluated, and whose version is there, is graded: the
  -- evaluation returns the scoring's verdict on the tasks' summaries, the row has passed or failed by
  -- it, and the score and the verdict are recorded for the learner and the activity.
  pub evaluate-verdict :
      (id : ℕ) (w : World) (a : Attempt) (v : ActivityVersion)
      → find_by_id id w ≡ some a
      → (same_status a.status evaluating || same_status a.status submitted) ≡ true
      → find_version a.activity_version_id w ≡ some v
      → (x : World) × (b : Attempt) × (s : LearnerActivityState) × (evaluate execute score id w
          ≡ ok (verdict a v) x)
        × (find_by_id id x ≡ some b)
        × (b.status ≡ graded_status a v)
        × (find (is_state_of a.user_id a.activity_id) x.learner_states ≡ some s)
        × (s.latest_score ≡ (verdict a v).0)
        × (s.passed ≡ (verdict a v).1)
  unfolding evaluate grade rebuild updated
  evaluate-verdict id w a v e g n =
      let (x, r, s) = run-ok (execute a.environment_id) a.id v.tasks w in
      let c = evaluated (verdict a v).0 (verdict a v).1 in
      let y : World = left (append_typed_event a.id system c (left (rebuild a.id x))) in
      let u : Updates = record no_updates {
        status = some (graded_status a v);
        completed_at = some y.now;
      } in
      let z : World = record y {
        attempts = update_where a.id a.version (updated y.now a.version u) y.attempts;
      } in
      let t : World = record_learner_state a (verdict a v).0 (verdict a v).1 z in
      let own : a.id ≡ id = find-own_id id w a e in
      let f : find_by_id a.id y ≡ some a =
        find-same a.id w y a s (subst (λ j. find_by_id j w ≡ some a) (sym own) e) in
      let k : t.attempts ≡ z.attempts =
        record_learner_state-attempts a (verdict a v).0 (verdict a v).1 z in
      (
        t,
        updated y.now a.version u a,
        _,
        rw (e, evaluate, g, n, r, transition_lem a.id u y a f) refl,
        subst (λ j. find_by_id j t ≡ some (updated y.now a.version u a)) own
            (find-moved a.id y t u a f k),
        refl,
        record_learner_state-found a (verdict a v).0 (verdict a v).1 z,
        refl,
        refl,
      )
