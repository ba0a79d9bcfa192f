-- ===== src/Attempt/Hints/Tests.antt =====
-- The theorems about hints at a task whose hints are authored out of order.
use skillfyme_hands_on.Base.{◌≡◌, refl, true, none, List, [], ◌∷◌}
use skillfyme_hands_on.Common.Status.{in_progress}
use skillfyme_hands_on.EventStore.Log.{replay}
use skillfyme_hands_on.EventStore.Replay.{task_row}
use skillfyme_hands_on.EventStore.Replay.Laws.{ever_skipped}
use skillfyme_hands_on.Store.Rows.{Attempt, HintSpec, TaskSpec, World}
use skillfyme_hands_on.Store.Monad.{ok, left}
use skillfyme_hands_on.Store.Repository.{find_by_id}
use skillfyme_hands_on.Evaluation.Service.{rebuild}
use skillfyme_hands_on.Attempt.Hints.{activity_tasks, sort_hints, guided_fallback}
use skillfyme_hands_on.Attempt.Hints.Reveals.{assisted_of, guided_fallback-rebuild}
use skillfyme_hands_on.Attempt.Tests.{attempt, version, store}

abbrev first : HintSpec
first = record { level = 1; penalty = 100; text = 11 }

abbrev second : HintSpec
second = record { level = 2; penalty = 300; text = 12 }

abbrev laddered : TaskSpec
laddered = record { key = 1; required = true; validators = []; hints = second ∷ first ∷ [] }

abbrev bare : TaskSpec
bare = record { key = 2; required = true; validators = []; hints = [] }

abbrev hint_store : List Attempt → World
hint_store as_found = record (store as_found) {
  versions = record version { tasks = laddered ∷ bare ∷ [] } ∷ [];
}

abbrev begun : World
begun = hint_store (attempt 3 in_progress ∷ [])

abbrev flagged_attempt : Attempt
flagged_attempt = record (attempt 3 in_progress) { assistance_flags = 1 ∷ [] }

abbrev flagged : World
flagged = hint_store (flagged_attempt ∷ [])

guided_fallback-rebuild_example :
    (x : World) × (guided_fallback 3 2 begun ≡ ok none x)
    × (assisted_of (task_row 3 2 x.tasks) ≡ true)
    × (assisted_of (task_row 3 2 (left (rebuild 3 x)).tasks) ≡ ever_skipped 2 (replay 3 []))
unfolding activity_tasks find_by_id sort_hints
guided_fallback-rebuild_example =
    guided_fallback-rebuild 3 2 begun (laddered ∷ bare ∷ []) bare refl refl (attempt 3 in_progress)
      refl refl refl
