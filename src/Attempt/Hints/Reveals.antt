-- ===== src/Attempt/Hints/Reveals.antt =====
-- What revealing a hint and taking the guided fallback do to the store.
use skillfyme_hands_on.Base.{
  ℕ, ◌+◌, ◌≡◌, refl, ◌∙◌, Bool, inl, inr, Option-cases, lookup, true, false, ◌||◌, Option, none,
  some, List, [], ◌∷◌, ◌++◌, ==_refl, ltb, get_or, any, arith,
}
use skillfyme_hands_on.EventStore.Events.{AttemptEventRow, learner, hint_requested, solution_viewed}
use skillfyme_hands_on.EventStore.Replay.{
  TaskState, TaskRow, derive_task_state, pending_task, task_row, upsert_task,
}
use skillfyme_hands_on.EventStore.Log.{replay}
use skillfyme_hands_on.EventStore.Log.Order.{replay-append}
use skillfyme_hands_on.EventStore.Replay.Laws.{state_of, ever_skipped, derive_task_state_counts}
use skillfyme_hands_on.EventStore.Replay.Rebuild.{task_row-rebuild_for_attempt}
use skillfyme_hands_on.Evaluation.Service.{rebuild}
use skillfyme_hands_on.Store.Rows.{Attempt, HintSpec, TaskSpec, World}
use skillfyme_hands_on.Store.Monad.{ok, err, bad_request, left, append_typed_event}
use skillfyme_hands_on.Store.Repository.{find_by_id}
use skillfyme_hands_on.Store.Repository.Laws.{find-update_row}
use skillfyme_hands_on.Attempt.Hints.{
  activity_tasks, find_task, get_task_spec, get_used_max_level, next_hint, sort_hints, preview_of,
  preview, charge_hint, reveal, is_flagged, mark_assisted, last_text, guided_fallback,
}

task_row-upsert_task :
    (id key : ℕ) (f : TaskState → TaskState) (rows : List TaskRow)
    → task_row id key (upsert_task id key f rows)
      ≡ some (f (get_or (task_row id key rows) pending_task))
unfolding task_row upsert_task
task_row-upsert_task id key f [] = rw (==_refl id, ==_refl key) refl
task_row-upsert_task id key f (r ∷ rows) = ground (arith, task_row-upsert_task id key f rows)

module _ (id key : ℕ) (w : World) (ts : List TaskSpec) (task : TaskSpec)
    (tasks : activity_tasks id w ≡ some ts) (found : find_task key ts ≡ some task) where
  task_spec : get_task_spec id key w ≡ ok task w
  unfolding get_task_spec
  task_spec = rw (tasks, found) refl

  abbrev revealed : HintSpec → World
  revealed h =
      charge_hint id key h (left (append_typed_event id learner (hint_requested key h.level) w))

  preview_next :
      (h : HintSpec)
      → next_hint (get_used_max_level id key w) task.hints ≡ some h
      → preview id key w ≡ ok (some (preview_of task.hints h)) w
  unfolding preview
  preview_next h n = rw (task_spec, n) refl

  reveal_next :
      (h : HintSpec)
      → next_hint (get_used_max_level id key w) task.hints ≡ some h
      → reveal id key w ≡ ok (preview_of task.hints h, h.text) (revealed h)
  unfolding reveal
  reveal_next h n = rw (task_spec, n) refl

  revealed_level : (h : HintSpec) → get_used_max_level id key (revealed h) ≡ h.level
  unfolding get_used_max_level charge_hint
  revealed_level h = rw (task_row-upsert_task id key _ w.tasks) refl

  revealed_attempt :
      (h : HintSpec) (a : Attempt)
      → find_by_id id w ≡ some a
      → find_by_id id (revealed h)
        ≡ some (record a { hint_penalty_total = a.hint_penalty_total + h.penalty })
  unfolding find_by_id charge_hint
  revealed_attempt h a e = find-update_row id _ (λ x. refl) id w.attempts a e ∙ rw (==_refl id) refl

  -- While a deeper hint of a task is left, a preview shows the hint that a reveal then gives, at
  -- the cost it then charges: the level used becomes the hint's, and its penalty is added once to
  -- the attempt's total.
  pub reveal-preview :
      (h : HintSpec) (a : Attempt)
      → next_hint (get_used_max_level id key w) task.hints ≡ some h
      → find_by_id id w ≡ some a
      → (x : World) × (b : Attempt) × (preview id key w ≡ ok (some (preview_of task.hints h)) w)
        × (reveal id key w ≡ ok (preview_of task.hints h, h.text) x)
        × (get_used_max_level id key x ≡ h.level)
        × (find_by_id id x ≡ some b)
        × (b.hint_penalty_total ≡ a.hint_penalty_total + h.penalty)
  reveal-preview h a n e = (
    revealed h,
    _,
    preview_next h n,
    reveal_next h n,
    revealed_level h,
    revealed_attempt h a e,
    refl,
  )

  -- While a deeper hint is left, the guided fallback is refused and nothing changes.
  pub guided_fallback-refused :
      any (λ h. ltb (get_used_max_level id key w) h.level) task.hints ≡ true
      → guided_fallback id key w ≡ err bad_request w
  unfolding guided_fallback
  guided_fallback-refused d = rw (task_spec, d) refl

  -- Once an attempt is flagged, the fallback of any of its tasks that has no deeper hint left
  -- only returns the guidance: neither the log nor any row changes, the task's own included.
  pub guided_fallback-flagged :
      (a : Attempt)
      → any (λ h. ltb (get_used_max_level id key w) h.level) task.hints ≡ false
      → find_by_id id w ≡ some a
      → is_flagged a ≡ true
      → guided_fallback id key w ≡ ok (last_text (sort_hints task.hints)) w
  unfolding guided_fallback
  guided_fallback-flagged a d e f = rw (task_spec, d, e, f) refl

any-append :
    (p : AttemptEventRow → Bool) (xs : List AttemptEventRow) (e : AttemptEventRow)
    → any p (xs ++ e ∷ []) ≡ (any p xs || p e)
any-append p [] e = ground arith
any-append p (x ∷ xs) e = ground (arith, any-append p xs e)

abbrev pub assisted_of : Option TaskState → Bool
assisted_of none = false
assisted_of (some s) = s.assisted

assisted-lookup :
    (key : ℕ) (m : List (ℕ × TaskState)) → assisted_of (lookup key m) ≡ (state_of key m).assisted
assisted-lookup key m = elim (Option-cases (lookup key m)) [
  | inl e ↦ rw e refl
  | inr (s, e) ↦ rw e refl
]

assisted-rebuild :
    (id key : ℕ) (w : World)
    → assisted_of (task_row id key (left (rebuild id w)).tasks)
      ≡ ever_skipped key (replay id w.events)
unfolding rebuild
assisted-rebuild id key w =
    rw (task_row-rebuild_for_attempt id id key w.events w.tasks, ==_refl id)
      (assisted-lookup key (derive_task_state (replay id w.events))
        ∙ (derive_task_state_counts key (replay id w.events)).3)

module _ (id key : ℕ) (w : World) (ts : List TaskSpec) (task : TaskSpec)
    (tasks : activity_tasks id w ≡ some ts) (found : find_task key ts ≡ some task) where
  abbrev fallen_back : World
  fallen_back = mark_assisted id key (left (append_typed_event id learner (solution_viewed key) w))

  fallback_marks : assisted_of (task_row id key fallen_back.tasks) ≡ true
  unfolding mark_assisted
  fallback_marks = rw (task_row-upsert_task id key _ w.tasks) refl

  fallback_skips :
      ever_skipped key (replay id fallen_back.events) ≡ ever_skipped key (replay id w.events)
  unfolding mark_assisted
  fallback_skips = rw (replay-append, ==_refl id, any-append) (ground arith)

  -- On an attempt that is not flagged, the fallback of a task with no deeper hint left marks the
  -- task's row as assisted; after a rebuild of the rows from the log, the row is marked only if
  -- the task was skipped.
  pub guided_fallback-rebuild :
      (a : Attempt)
      → any (λ h. ltb (get_used_max_level id key w) h.level) task.hints ≡ false
      → find_by_id id w ≡ some a
      → is_flagged a ≡ false
      → (x : World) × (guided_fallback id key w ≡ ok (last_text (sort_hints task.hints)) x)
        × (assisted_of (task_row id key x.tasks) ≡ true)
        × (assisted_of (task_row id key (left (rebuild id x)).tasks)
            ≡ ever_skipped key (replay id w.events))
  unfolding guided_fallback
  guided_fallback-rebuild a d e f = (
    fallen_back,
    rw (task_spec id key w ts task tasks found, d, e, f) refl,
    fallback_marks,
    assisted-rebuild id key fallen_back ∙ fallback_skips,
  )
