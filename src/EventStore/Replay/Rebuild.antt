-- ===== src/EventStore/Replay/Rebuild.antt =====
-- `rebuildForAttempt` of replay.service.ts recovers the rows of one attempt from its log.
use mathlib.Core.List.{append-nil}
use skillfyme_hands_on.Base.{
  ℕ, ◌≡◌, refl, false, not, Option, none, some, List, [], ◌∷◌, ◌++◌, ◌==◌, ==_refl, if◌then◌else◌,
  filter, filter-append, lookup, inl, inr, Bool-cases, ==_iff, arith,
}
use skillfyme_hands_on.EventStore.Events.{AttemptEventRow}
use skillfyme_hands_on.EventStore.Log.{replay}
use skillfyme_hands_on.EventStore.Replay.{
  TaskState, TaskRow, rows_of, derive_task_state, rebuild_for_attempt, task_row,
}

abbrev kept : ℕ → List TaskRow → List TaskRow
kept id = filter λ (r : TaskRow). not (r.attempt_id == id)

abbrev or_row : Option TaskState → Option TaskState → Option TaskState
or_row (some s) o = some s
or_row none o = o

task_row-append :
    (id task : ℕ) (xs ys : List TaskRow)
    → task_row id task (xs ++ ys) ≡ or_row (task_row id task xs) (task_row id task ys)
unfolding task_row
task_row-append id task [] ys = refl
task_row-append id task (r ∷ xs) ys = ground (arith, task_row-append id task xs ys)

task_row-kept_self : (id task : ℕ) (rows : List TaskRow) → task_row id task (kept id rows) ≡ none
unfolding task_row
task_row-kept_self id task [] = refl
task_row-kept_self id task (r ∷ rows) = ground (arith, task_row-kept_self id task rows)

task_row-kept_other :
    (id j task : ℕ) (rows : List TaskRow)
    → (j == id) ≡ false
    → task_row j task (kept id rows) ≡ task_row j task rows
unfolding task_row
task_row-kept_other id j task [] e = refl
task_row-kept_other id j task (r ∷ rows) e = ground (arith, task_row-kept_other id j task rows e)

task_row-rows_of :
    (id j task : ℕ) (m : List (ℕ × TaskState))
    → task_row j task (rows_of id m) ≡ (if id == j then lookup task m else none)
unfolding task_row lookup
task_row-rows_of id j task [] = ground arith
task_row-rows_of id j task ((k, s) ∷ m) = ground (arith, task_row-rows_of id j task m)

-- After a rebuild the attempt's rows are exactly the states that its log derives, whatever rows were
-- there before, and every other attempt's rows are what they were.
pub task_row-rebuild_for_attempt :
    (id j task : ℕ) (events : List AttemptEventRow) (rows : List TaskRow)
    → task_row j task (rebuild_for_attempt id events rows) ≡ (
        if id == j
        then lookup task (derive_task_state (replay id events))
        else task_row j task rows)
unfolding rebuild_for_attempt
task_row-rebuild_for_attempt id j task events rows = elim (Bool-cases (id == j)) [
  | inl e ↦ rw (task_row-append, task_row-rows_of, e, ← (==_iff id j).0 e, task_row-kept_self)
  | inr e ↦
      rw (task_row-append, task_row-rows_of, e, task_row-kept_other id j task rows (ground arith))
        (ground arith)
]

kept_twice : (id : ℕ) (rows : List TaskRow) → kept id (kept id rows) ≡ kept id rows
kept_twice id [] = refl
kept_twice id (r ∷ rows) = ground (arith, kept_twice id rows)

kept-rows_of : (id : ℕ) (m : List (ℕ × TaskState)) → kept id (rows_of id m) ≡ []
kept-rows_of id [] = refl
kept-rows_of id ((k, s) ∷ m) = rw (==_refl id) (kept-rows_of id m)

-- A second rebuild from the same log changes nothing.
pub rebuild_for_attempt_idempotent :
    (id : ℕ) (events : List AttemptEventRow) (rows : List TaskRow)
    → rebuild_for_attempt id events (rebuild_for_attempt id events rows)
      ≡ rebuild_for_attempt id events rows
unfolding rebuild_for_attempt
rebuild_for_attempt_idempotent id events rows = rw (
  filter-append,
  kept_twice id rows,
  kept-rows_of id (derive_task_state (replay id events)),
  append-nil,
)
