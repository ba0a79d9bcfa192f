-- ===== src/EventStore/Replay/Laws.antt =====
-- What the fold of replay.service.ts computes for each task.
use skillfyme_hands_on.Base.{
  ℕ, suc, ◌+◌, ◌≡◌, ◌||◌, inl, inr, Bool-cases, ==_iff, refl, ap, ◌∙◌, max, Bool, false, Option,
  none, some, List, [], ◌∷◌, ◌++◌, ◌==◌, if◌then◌else◌, get_or, lookup, lookup-insert, any, arith,
}
use skillfyme_hands_on.EventStore.Events.{
  AttemptEvent, AttemptEventRow, task_passed, task_failed, task_skipped, hint_requested,
}
use skillfyme_hands_on.EventStore.Replay.{
  TaskState, skipped, is_passed, pending_task, update, on_passed, on_failed, on_skipped, on_hint,
  apply_event, derive_from, derive_task_state,
}

-- What an event does to the state of one task, as a function of that state alone.
own : ℕ → ℕ → AttemptEvent → TaskState → TaskState
own task at (task_passed k) s = if k == task then on_passed at s else s
own task at (task_failed k) s = if k == task then on_failed s else s
own task at (task_skipped k) s = if k == task then on_skipped s else s
own task at (hint_requested k level) s = if k == task then on_hint level s else s
own task at _ s = s

abbrev pub state_of : ℕ → List (ℕ × TaskState) → TaskState
state_of task m = get_or (lookup task m) pending_task

state_of-update :
    (task k : ℕ) (f : TaskState → TaskState) (m : List (ℕ × TaskState))
    → state_of task (update k f m) ≡ (if k == task then f (state_of task m) else state_of task m)
state_of-update task k f m = elim (Bool-cases (k == task)) [
  | inl e ↦ rw (lookup-insert, e, (==_iff k task).0 e)
  | inr e ↦ rw (lookup-insert, e)
]

state_of-apply_event :
    (task at : ℕ) (e : AttemptEvent) (m : List (ℕ × TaskState))
    → state_of task (apply_event at e m) ≡ own task at e (state_of task m)
unfolding apply_event own
state_of-apply_event task at (task_passed k) m = state_of-update task k (on_passed at) m
state_of-apply_event task at (task_failed k) m = state_of-update task k on_failed m
state_of-apply_event task at (task_skipped k) m = state_of-update task k on_skipped m
state_of-apply_event task at (hint_requested k l) m = state_of-update task k (on_hint l) m
state_of-apply_event task at _ m = refl

-- A task passed or failed, from the events alone.
abbrev pub is_pass : ℕ → AttemptEvent → Bool
is_pass task (task_passed k) = k == task
is_pass task _ = false

abbrev pub is_fail : ℕ → AttemptEvent → Bool
is_fail task (task_failed k) = k == task
is_fail task _ = false

abbrev pub is_skip : ℕ → AttemptEvent → Bool
is_skip task (task_skipped k) = k == task
is_skip task _ = false

abbrev pub hint_level : ℕ → AttemptEvent → ℕ
hint_level task (hint_requested k level) = if k == task then level else 0
hint_level task _ = 0

-- How many results a task got, and its deepest hint.
abbrev pub results : ℕ → List AttemptEventRow → ℕ
results task [] = 0
results task (e ∷ es) =
    if is_pass task e.event || is_fail task e.event then suc (results task es) else results task es

abbrev pub deepest_hint : ℕ → List AttemptEventRow → ℕ
deepest_hint task [] = 0
deepest_hint task (e ∷ es) = max (hint_level task e.event) (deepest_hint task es)

-- When the first pass came.
abbrev pub first_pass : ℕ → List AttemptEventRow → Option ℕ
first_pass task [] = none
first_pass task (e ∷ es) = if is_pass task e.event then some e.occurred_at else first_pass task es

abbrev pub ever_skipped : ℕ → List AttemptEventRow → Bool
ever_skipped task = any λ (e : AttemptEventRow). is_skip task e.event

-- One event adds its own count, level and skip.
own_counts :
    (task at : ℕ) (e : AttemptEvent) (s : TaskState)
    → ((own task at e s).attempts_count
        ≡ (if is_pass task e || is_fail task e then s.attempts_count + 1 else s.attempts_count))
      × ((own task at e s).hints_used_max_level ≡ max s.hints_used_max_level (hint_level task e))
      × ((own task at e s).skipped ≡ (s.skipped || is_skip task e))
      × ((own task at e s).assisted ≡ (s.assisted || is_skip task e))
unfolding own
own_counts task at (task_passed k) s = ground arith
own_counts task at (task_failed k) s = ground arith
own_counts task at (task_skipped k) s = ground arith
own_counts task at (hint_requested k l) s = ground arith
own_counts task at _ s = ground arith

-- The events' effect on one task, one after the other.
own_fold : ℕ → List AttemptEventRow → TaskState → TaskState
own_fold task [] s = s
own_fold task (e ∷ es) s = own_fold task es (own task e.occurred_at e.event s)

-- The state of a task depends on nothing but the events and its own state.
state_of-derive_from :
    (task : ℕ) (es : List AttemptEventRow) (m : List (ℕ × TaskState))
    → state_of task (derive_from m es) ≡ own_fold task es (state_of task m)
unfolding derive_from own_fold
state_of-derive_from task [] m = refl
state_of-derive_from task (e ∷ es) m =
    state_of-derive_from task es (apply_event e.occurred_at e.event m)
    ∙ ap (own_fold task es) (state_of-apply_event task e.occurred_at e.event m)

own_fold_counts :
    (task : ℕ) (es : List AttemptEventRow) (s : TaskState)
    → ((own_fold task es s).attempts_count ≡ s.attempts_count + results task es)
      × ((own_fold task es s).hints_used_max_level
          ≡ max s.hints_used_max_level (deepest_hint task es))
      × ((own_fold task es s).skipped ≡ (s.skipped || ever_skipped task es))
      × ((own_fold task es s).assisted ≡ (s.assisted || ever_skipped task es))
unfolding own_fold
own_fold_counts task [] s = (omega arith, omega arith, ground arith, ground arith)
own_fold_counts task (e ∷ es) s =
    let (a, h, k, d) = own_fold_counts task es (own task e.occurred_at e.event s) in
    let (a', h', k', d') = own_counts task e.occurred_at e.event s in
    (ground (arith, a, a'), omega (arith, h, h'), ground (arith, k, k'), ground (arith, d, d'))

state_of-derive_task_state :
    (task : ℕ) (es : List AttemptEventRow)
    → state_of task (derive_task_state es) ≡ own_fold task es pending_task
unfolding derive_task_state lookup
state_of-derive_task_state task es = state_of-derive_from task es []

-- Whatever the log, the derived state of a task counts its results, holds the deepest level of hint
-- requested for it, and marks it as skipped and as assisted exactly if it was skipped.
pub derive_task_state_counts :
    (task : ℕ) (es : List AttemptEventRow)
    → ((state_of task (derive_task_state es)).attempts_count ≡ results task es)
      × ((state_of task (derive_task_state es)).hints_used_max_level ≡ deepest_hint task es)
      × ((state_of task (derive_task_state es)).skipped ≡ ever_skipped task es)
      × ((state_of task (derive_task_state es)).assisted ≡ ever_skipped task es)
derive_task_state_counts task es =
    let (a, h, k, d) = own_fold_counts task es pending_task in
    rw (state_of-derive_task_state task es) (omega (arith, a), omega (arith, h), k, d)

own_passes :
    (task at : ℕ) (e : AttemptEvent) (s : TaskState)
    → is_skip task e ≡ false
    → (is_passed (own task at e s).status ≡ (is_passed s.status || is_pass task e))
      × ((own task at e s).first_pass_at ≡ (
          if is_passed s.status
          then s.first_pass_at
          else if is_pass task e
          then some at
          else s.first_pass_at))
unfolding own
own_passes task at (task_passed k) s h = ground arith
own_passes task at (task_failed k) s h = ground arith
own_passes task at (task_skipped k) s h = ground arith
own_passes task at (hint_requested k l) s h = ground arith
own_passes task at _ s h = ground arith

abbrev pub ever_passed : ℕ → List AttemptEventRow → Bool
ever_passed task = any λ (e : AttemptEventRow). is_pass task e.event

abbrev or_else : Option ℕ → Option ℕ → Option ℕ
or_else (some a) b = some a
or_else none b = b

own_fold_passes :
    (task : ℕ) (es : List AttemptEventRow) (s : TaskState)
    → ever_skipped task es ≡ false
    → (is_passed (own_fold task es s).status ≡ (is_passed s.status || ever_passed task es))
      × ((own_fold task es s).first_pass_at ≡ (
          if is_passed s.status
          then s.first_pass_at
          else or_else (first_pass task es) s.first_pass_at))
unfolding own_fold
own_fold_passes task [] s h = (ground arith, ground arith)
own_fold_passes task (e ∷ es) s h =
    let ih = own_fold_passes task es (own task e.occurred_at e.event s) (ground arith) in
    let here = own_passes task e.occurred_at e.event s (ground arith) in
    (ground (arith, ih, here), ground (arith, ih, here))

-- A pass is sticky: in a log that never skips the task, the derived status is passed exactly if some
-- event passed the task, whatever failures came before or after, and the time of the first pass is
-- that of the first such event, if any.
pub derive_task_state_passes :
    (task : ℕ) (es : List AttemptEventRow)
    → ever_skipped task es ≡ false
    → (is_passed (state_of task (derive_task_state es)).status ≡ ever_passed task es)
      × ((state_of task (derive_task_state es)).first_pass_at ≡ first_pass task es)
derive_task_state_passes task es h =
    let (p, f) = own_fold_passes task es pending_task h in
    rw (state_of-derive_task_state task es) (p, ground (arith, f))

own_fold-append :
    (task : ℕ) (es fs : List AttemptEventRow) (s : TaskState)
    → own_fold task (es ++ fs) s ≡ own_fold task fs (own_fold task es s)
unfolding own_fold
own_fold-append task [] fs s = refl
own_fold-append task (e ∷ es) fs s = own_fold-append task es fs (own task e.occurred_at e.event s)

-- A skip overrides a pass: after any log that ends in a skip of the task, also one that passed it,
-- the derived status is skipped.
pub skip_overrides_pass :
    (task : ℕ) (es : List AttemptEventRow) (e : AttemptEventRow)
    → e.event ≡ task_skipped task
    → (state_of task (derive_task_state (es ++ e ∷ []))).status ≡ skipped
unfolding own_fold own
skip_overrides_pass task es e h =
    rw (state_of-derive_task_state task (es ++ e ∷ []), own_fold-append task es (e ∷ []), h, own)
      (ground arith)
