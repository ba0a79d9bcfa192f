-- ===== src/EventStore/Tests.antt =====
-- Runs of the event store, and its theorems at concrete inputs.
use skillfyme_hands_on.Base.{ℕ, ◌≡◌, refl, false, none, some, List, [], ◌∷◌, lookup, insert}
use skillfyme_hands_on.EventStore.Events.{
  system, learner, AttemptEvent, AppendEventInput, AttemptEventRow, task_passed, task_failed,
  task_skipped, hint_requested,
}
use skillfyme_hands_on.EventStore.Log.{append, replay, list_since}
use skillfyme_hands_on.EventStore.Log.Order.{appends, seqs, IsCounted, appends-IsCounted}
use skillfyme_hands_on.EventStore.Replay.{TaskRow, passed, pending_task, derive_task_state}
use skillfyme_hands_on.EventStore.Replay.Laws.{
  state_of, results, deepest_hint, ever_skipped, derive_task_state_counts,
}

abbrev at_attempt : ℕ → AttemptEvent → AppendEventInput
at_attempt id e = record { attempt_id = id; actor = learner; event = e; occurred_at = none }

-- Two attempts, 1 and 2, and the tasks 5 and 6.
abbrev history : List (ℕ × AppendEventInput)
history =
    (10, at_attempt 1 (task_failed 5))
    ∷ (20, at_attempt 2 (task_passed 5))
    ∷ (30, at_attempt 1 (hint_requested 5 2))
    ∷ (40, at_attempt 1 (task_passed 5))
    ∷ (50, at_attempt 1 (task_failed 5))
    ∷ []

log : List AttemptEventRow
unfolding appends append
log = appends history []

abbrev skip_row : AttemptEventRow
skip_row = record {
  attempt_id = 1;
  seq = 5;
  occurred_at = 60;
  actor = system;
  event = task_skipped 5;
}

abbrev stale_rows : List TaskRow
stale_rows =
    record { attempt_id = 1; task_key = 6; state = pending_task }
    ∷ record { attempt_id = 2; task_key = 5; state = pending_task }
    ∷ []

log-seqs : seqs (replay 1 log) ≡ 1 ∷ 2 ∷ 3 ∷ 4 ∷ []
unfolding log replay
log-seqs = refl

since_run : seqs (list_since 1 2 log) ≡ 3 ∷ 4 ∷ []
unfolding log list_since
since_run = refl

derive_run : state_of 5 (derive_task_state (replay 1 log)) ≡ record {
  status = passed;
  first_pass_at = some 40;
  attempts_count = 3;
  hints_used_max_level = 2;
  skipped = false;
  assisted = false;
}
unfolding log replay derive_task_state lookup insert
derive_run = refl

appends-IsCounted_example : IsCounted 1 (appends history [])
appends-IsCounted_example = appends-IsCounted 1 history

derive_task_state_counts_example :
    ((state_of 5 (derive_task_state (replay 1 log))).attempts_count ≡ results 5 (replay 1 log))
    × ((state_of 5 (derive_task_state (replay 1 log))).hints_used_max_level
        ≡ deepest_hint 5 (replay 1 log))
    × ((state_of 5 (derive_task_state (replay 1 log))).skipped ≡ ever_skipped 5 (replay 1 log))
    × ((state_of 5 (derive_task_state (replay 1 log))).assisted ≡ ever_skipped 5 (replay 1 log))
derive_task_state_counts_example = derive_task_state_counts 5 (replay 1 log)
