-- ===== src/Evaluation/ValidatorRunner/Laws.antt =====
-- When a task passes validation, and what a run leaves.
use skillfyme_hands_on.Base.{
  ℕ, ◌≡◌, ◌↔◌, ◌⊎◌, refl, true, false, Option, none, some, List, [], ◌∷◌, get_or, all, All, arith,
}
use skillfyme_hands_on.Store.Rows.{blocking, warn, ValidatorSpec}
use skillfyme_hands_on.Evaluation.ValidatorRunner.{
  ResultStatus, pass, error, is_pass, is_empty, ValidatorResult, task_passes, blocking_results,
  execute_with,
}

-- A result that cannot fail the task: a warning, an error of the platform, or a pass.
abbrev pub IsHarmless : ValidatorResult → Type 0
IsHarmless r = (get_or r.spec.severity blocking ≡ warn) ⊎ (r.status ≡ error) ⊎ (r.status ≡ pass)

-- A result that can pass it.
abbrev pub IsBlockingPass : ValidatorResult → Type 0
IsBlockingPass r = (get_or r.spec.severity blocking ≡ blocking) × (r.status ≡ pass)

abbrev pub AnyOf : (ValidatorResult → Type 0) → List ValidatorResult → Type 0
AnyOf P [] = ⊥
AnyOf P (r ∷ rs) = P r ⊎ AnyOf P rs

all-blocking_results :
    (rs : List ValidatorResult)
    → (all (λ r. is_pass r.status) (blocking_results rs) ≡ true) ↔ All IsHarmless rs
unfolding blocking_results
all-blocking_results [] = ground arith
all-blocking_results (r ∷ rs) =
    elim r.spec.severity
      as (λ s.
        (all (λ x. is_pass x.status)
            (blocking_results (record r { spec = record r.spec { severity = s } } ∷ rs))
          ≡ true)
        ↔ All IsHarmless (record r { spec = record r.spec { severity = s } } ∷ rs)) [
          | none ↦ ground (arith, all-blocking_results rs)
          | some blocking ↦ ground (arith, all-blocking_results rs)
          | some warn ↦ ground (arith, all-blocking_results rs)
        ]

is_empty-blocking_results :
    (rs : List ValidatorResult)
    → All IsHarmless rs
    → (is_empty (blocking_results rs) ≡ false) ↔ AnyOf IsBlockingPass rs
unfolding blocking_results
is_empty-blocking_results [] h = ground arith
is_empty-blocking_results (r ∷ rs) h = ground (arith, is_empty-blocking_results rs h.1)

-- A task passes exactly if some blocking validator passed and every other result is a warning's, an
-- error of the platform, or a pass.
pub task_passes_iff :
    (rs : List ValidatorResult)
    → (task_passes rs ≡ true) ↔ (AnyOf IsBlockingPass rs × All IsHarmless rs)
unfolding task_passes
task_passes_iff rs = ground (arith, all-blocking_results rs, is_empty-blocking_results rs)

-- A validator's result is an error exactly if each of its three tries throws or answers with an
-- error.
pub execute_with_lem :
    (execute : ValidatorSpec → ℕ → Option ResultStatus) (v : ValidatorSpec)
    → (execute_with execute 3 v ≡ error)
      ↔ All (λ n. (execute v n ≡ none) ⊎ (execute v n ≡ some error)) (1 ∷ 2 ∷ 3 ∷ [])
unfolding execute_with
execute_with_lem execute v = ground arith

-- A task all of whose results are errors does not pass, though none of them found a fault.
pub errors_fail_task :
    (rs : List ValidatorResult) → All (λ r. r.status ≡ error) rs → task_passes rs ≡ false
unfolding task_passes
errors_fail_task [] h = refl
errors_fail_task (r ∷ rs) h = ground (arith, errors_fail_task rs h.1)
