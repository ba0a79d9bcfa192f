-- ===== src/EventStore/Replay.antt =====
-- practice-core/src/modules/event-store/replay.service.ts: the per-task state derived from the
-- event log, and the table `attempt_task_state` that the services read.
pub mod Laws
pub mod Rebuild
use skillfyme_hands_on.Base.{
  ℕ, ◌+◌, max, Bool, true, false, not, ◌&&◌, Option, none, some, List, [], ◌∷◌, ◌++◌, map, ◌==◌,
  if◌then◌else◌, get_or, filter, find, lookup, insert,
}
use skillfyme_hands_on.EventStore.Events.{
  AttemptEvent, AttemptEventRow, task_passed, task_failed, task_skipped, hint_requested,
}
use skillfyme_hands_on.EventStore.Log.{replay}

pub data TaskStatus : Type 0 where
  pending passed failed skipped : TaskStatus

pub record TaskState : Type 0 where
  pub status : TaskStatus
  pub first_pass_at : Option ℕ
  pub attempts_count : ℕ
  pub hints_used_max_level : ℕ
  pub skipped : Bool
  pub assisted : Bool

-- What `ensure` puts in for a task that is new, and the column defaults of the table.
abbrev pub pending_task : TaskState
pending_task = record {
  status = pending;
  first_pass_at = none;
  attempts_count = 0;
  hints_used_max_level = 0;
  skipped = false;
  assisted = false;
}

abbrev pub is_passed : TaskStatus → Bool
is_passed passed = true
is_passed _ = false

-- One case of the switch, on the state of the task that the event names.
abbrev pub on_passed : ℕ → TaskState → TaskState
on_passed at s =
    if is_passed s.status then record s { attempts_count = s.attempts_count + 1 } else record s {
      attempts_count = s.attempts_count + 1;
      status = passed;
      first_pass_at = some at;
    }

abbrev pub on_failed : TaskState → TaskState
on_failed s = record s {
  attempts_count = s.attempts_count + 1;
  status = if is_passed s.status then s.status else failed;
}

abbrev pub on_skipped : TaskState → TaskState
on_skipped s = record s { status = skipped; skipped = true; assisted = true }

abbrev pub on_hint : ℕ → TaskState → TaskState
on_hint level s = record s { hints_used_max_level = max s.hints_used_max_level level }

abbrev pub update : ℕ → (TaskState → TaskState) → List (ℕ × TaskState) → List (ℕ × TaskState)
update task f m = insert task (f (get_or (lookup task m) pending_task)) m

-- The body of the loop.
pub apply_event : ℕ → AttemptEvent → List (ℕ × TaskState) → List (ℕ × TaskState)
apply_event at (task_passed task) m = update task (on_passed at) m
apply_event at (task_failed task) m = update task on_failed m
apply_event at (task_skipped task) m = update task on_skipped m
apply_event at (hint_requested task level) m = update task (on_hint level) m
apply_event at _ m = m

pub derive_from : List (ℕ × TaskState) → List AttemptEventRow → List (ℕ × TaskState)
derive_from m [] = m
derive_from m (e ∷ es) = derive_from (apply_event e.occurred_at e.event m) es

unfoldable pub derive_task_state : List AttemptEventRow → List (ℕ × TaskState)
unfolding derive_from apply_event
derive_task_state es = derive_from [] es

-- A row of `attempt_task_state`.
pub record TaskRow : Type 0 where
  pub attempt_id : ℕ
  pub task_key : ℕ
  pub state : TaskState

abbrev pub rows_of : ℕ → List (ℕ × TaskState) → List TaskRow
rows_of id = map λ e. record { attempt_id = id; task_key = e.0; state = e.1 }

-- `rebuildForAttempt`: the attempt's rows are deleted and the derived ones inserted.
unfoldable pub rebuild_for_attempt : ℕ → List AttemptEventRow → List TaskRow → List TaskRow
rebuild_for_attempt id events rows =
    filter (λ r. not (r.attempt_id == id)) rows ++ rows_of id (derive_task_state (replay id events))

-- The row of a task, as the services select it.
unfoldable pub task_row : ℕ → ℕ → List TaskRow → Option TaskState
task_row id task [] = none
task_row id task (r ∷ rows) =
    if (r.attempt_id == id) && (r.task_key == task) then some r.state else task_row id task rows

-- `INSERT … ON CONFLICT DO UPDATE` on one task's row.
unfoldable pub upsert_task : ℕ → ℕ → (TaskState → TaskState) → List TaskRow → List TaskRow
upsert_task id task f [] = record { attempt_id = id; task_key = task; state = f pending_task } ∷ []
upsert_task id task f (r ∷ rows) =
    if (r.attempt_id == id) && (r.task_key == task)
    then record r { state = f r.state } ∷ rows
    else r ∷ upsert_task id task f rows
