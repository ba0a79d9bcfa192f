-- ===== src/Attempt/Hints.antt =====
-- practice-core/src/modules/attempt/hint.service.ts: the ladder of a task's authored hints, the
-- penalty of a revealed one, and the guided fallback at its end; with the read of the activity's tasks
-- of practice-core/src/common/activity-spec-reader.ts. A hint's text is a number; the text that the
-- fallback makes up for a task with no hints is none.
pub mod Laws
pub mod Reveals
mod Tests
use skillfyme_hands_on.Base.{
  ℕ, ◌+◌, Bool, true, false, Option, none, some, List, [], ◌∷◌, ◌++◌, ◌==◌, ltb, leb, if◌then◌else◌,
  any, find,
}
use skillfyme_hands_on.EventStore.Events.{learner, hint_requested, solution_viewed}
use skillfyme_hands_on.EventStore.Replay.{TaskState, task_row, upsert_task}
use skillfyme_hands_on.Store.Rows.{Attempt, HintSpec, TaskSpec, World}
use skillfyme_hands_on.Store.Monad.{
  ok, err, bad_request, M, ◌>>=◌, ◌>>◌, return, throw, modify, find_or_throw, append_typed_event,
}
use skillfyme_hands_on.Store.Repository.{find_by_id, update_row}
use skillfyme_hands_on.Evaluation.Service.{find_version}
use skillfyme_hands_on.Attempt.Service.Handlers.{get}

-- `getActivitySpec`, the tasks of it
unfoldable pub activity_tasks : ℕ → World → Option (List TaskSpec)
activity_tasks id w = elim (find_by_id id w) [
  | none ↦ none
  | some a ↦ elim (find_version a.activity_version_id w) [ none ↦ none | some v ↦ some v.tasks ]
]

abbrev pub or_bad_request {ℓ} : {A : Type ℓ} → Option A → M A
or_bad_request none w = err bad_request w
or_bad_request (some a) w = ok a w

abbrev pub find_task : ℕ → List TaskSpec → Option TaskSpec
find_task key ts = find (λ t. t.key == key) ts

-- `getTaskSpec`
unfoldable pub get_task_spec : ℕ → ℕ → M TaskSpec
get_task_spec id key = do
  w ← get
  ts ← find_or_throw (activity_tasks id w)
  or_bad_request (find_task key ts)

abbrev pub max_level_of : Option TaskState → ℕ
max_level_of none = 0
max_level_of (some s) = s.hints_used_max_level

-- `getUsedMaxLevel`
unfoldable pub get_used_max_level : ℕ → ℕ → World → ℕ
get_used_max_level id key w = max_level_of (task_row id key w.tasks)

-- `.sort((a, b) => a.level - b.level)`
unfoldable pub insert_hint : HintSpec → List HintSpec → List HintSpec
insert_hint h [] = h ∷ []
insert_hint h (g ∷ gs) = if leb h.level g.level then h ∷ g ∷ gs else g ∷ insert_hint h gs

unfoldable pub sort_hints : List HintSpec → List HintSpec
unfolding insert_hint
sort_hints [] = []
sort_hints (h ∷ hs) = insert_hint h (sort_hints hs)

-- `hints.find((h) => h.level > usedMaxLevel)`
unfoldable pub next_hint : ℕ → List HintSpec → Option HintSpec
unfolding sort_hints
next_hint used hs = find (λ h. ltb used h.level) (sort_hints hs)

-- `HintPreview`
pub record HintPreview : Type 0 where
  pub next_level : ℕ
  pub penalty : ℕ
  pub has_more_after_this : Bool

abbrev pub preview_of : List HintSpec → HintSpec → HintPreview
preview_of hs next = record {
  next_level = next.level;
  penalty = next.penalty;
  has_more_after_this = any (λ h. ltb next.level h.level) hs;
}

abbrev pub preview_option : List HintSpec → Option HintSpec → Option HintPreview
preview_option hs none = none
preview_option hs (some next) = some (preview_of hs next)

-- `preview`: none when the ladder is exhausted
unfoldable pub preview : ℕ → ℕ → M (Option HintPreview)
unfolding next_hint
preview id key = do
  task ← get_task_spec id key
  w ← get
  return (preview_option task.hints (next_hint (get_used_max_level id key w) task.hints))

-- The transaction of `reveal`
unfoldable pub charge_hint : ℕ → ℕ → HintSpec → World → World
charge_hint id key next w = record w {
  tasks = upsert_task id key (λ s. record s { hints_used_max_level = next.level }) w.tasks;
  attempts =
      update_row id (λ a. record a { hint_penalty_total = a.hint_penalty_total + next.penalty })
        w.attempts;
}

-- `reveal`: the hint with its text
unfoldable pub reveal : ℕ → ℕ → M (HintPreview × ℕ)
unfolding charge_hint
reveal id key = do
  task ← get_task_spec id key
  w ← get
  next ← or_bad_request (next_hint (get_used_max_level id key w) task.hints)
  append_typed_event id learner (hint_requested key next.level)
  modify (charge_hint id key next)
  return (preview_of task.hints next, next.text)

-- `GUIDED_FALLBACK_FLAG`, as one of the flags of an attempt
abbrev pub guided_fallback_flag : ℕ
guided_fallback_flag = 1

abbrev pub is_flagged : Attempt → Bool
is_flagged a = any (λ f. f == guided_fallback_flag) a.assistance_flags

-- The transaction of `guidedFallback`
unfoldable pub mark_assisted : ℕ → ℕ → World → World
mark_assisted id key w = record w {
  attempts =
      update_row id
        (λ a. record a { assistance_flags = a.assistance_flags ++ (guided_fallback_flag ∷ []) })
        w.attempts;
  tasks = upsert_task id key (λ s. record s { assisted = true }) w.tasks;
}

-- `hints[hints.length - 1].text`
abbrev pub last_text : List HintSpec → Option ℕ
last_text [] = none
last_text (h ∷ []) = some h.text
last_text (h ∷ g ∷ gs) = last_text (g ∷ gs)

-- `guidedFallback`
unfoldable pub guided_fallback : ℕ → ℕ → M (Option ℕ)
unfolding mark_assisted
guided_fallback id key = do
  task ← get_task_spec id key
  w ← get
  (if any (λ h. ltb (get_used_max_level id key w) h.level) task.hints
      then throw bad_request
      else return tt)
  a ← find_or_throw (find_by_id id w)
  (if is_flagged a
      then return tt
      else (do append_typed_event id learner (solution_viewed key); modify (mark_assisted id key)))
  return (last_text (sort_hints task.hints))
