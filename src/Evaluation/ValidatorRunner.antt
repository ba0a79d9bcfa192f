-- ===== src/Evaluation/ValidatorRunner.antt =====
-- practice-core/src/modules/evaluation/validator-runner.service.ts. The executor, which runs one
-- validator in the environment and is reached over the network, is the parameter `execute`: what it
-- answers for a validator at its first, second and third try, `none` standing for an exception or a
-- timeout. The table `validation_run` and the stored observations are left out.
pub mod Laws
use skillfyme_hands_on.Base.{
  ℕ, zero, suc, ◌-◌, Bool, true, false, ◌&&◌, not, Option, none, some, List, [], ◌∷◌, map, ◌==◌,
  if◌then◌else◌, get_or, all, filter,
}
use skillfyme_hands_on.EventStore.Events.{
  system, validator, validation_requested, validator_result, task_passed, task_failed,
}
use skillfyme_hands_on.Store.Rows.{Severity, blocking, warn, ValidatorSpec, TaskSpec}
use skillfyme_hands_on.Store.Monad.{Outcome, ok, M, ◌>>=◌, ◌>>◌, return, append_typed_event}

pub data ResultStatus : Type 0 where
  pass fail error skip : ResultStatus

-- A validator with what came of it.
pub record ValidatorResult : Type 0 where
  pub spec : ValidatorSpec
  pub status : ResultStatus

-- `TaskValidationSummary`
pub record TaskSummary : Type 0 where
  pub task_key : ℕ
  pub required : Bool
  pub passed : Bool
  pub results : List ValidatorResult

abbrev pub is_error : ResultStatus → Bool
is_error error = true
is_error _ = false

abbrev pub is_pass : ResultStatus → Bool
is_pass pass = true
is_pass _ = false

abbrev pub is_blocking : Severity → Bool
is_blocking blocking = true
is_blocking warn = false

-- `taskPassed`: the blocking results that are no errors, one at least, all pass.
unfoldable pub blocking_results : List ValidatorResult → List ValidatorResult
blocking_results rs =
    filter (λ r. is_blocking (get_or r.spec.severity blocking))
      (filter (λ r. not (is_error r.status)) rs)

abbrev pub is_empty : List ValidatorResult → Bool
is_empty [] = true
is_empty (r ∷ rs) = false

unfoldable pub task_passes : List ValidatorResult → Bool
unfolding blocking_results
task_passes rs =
    not (is_empty (blocking_results rs)) && all (λ r. is_pass r.status) (blocking_results rs)

-- One try, when `left` more may follow: an error or an exception is tried again if any may.
abbrev pub settle : Option ResultStatus → ℕ → ResultStatus → ResultStatus
settle (some pass) left rest = pass
settle (some fail) left rest = fail
settle (some skip) left rest = skip
settle (some error) left rest = if left == 0 then error else rest
settle none left rest = if left == 0 then error else rest

-- `validatorMeta.get`: of several validators with one id a `Map` keeps the last.
unfoldable pub validator_meta : List ValidatorSpec → ValidatorSpec → ValidatorSpec
validator_meta [] v = v
validator_meta (u ∷ us) v = if u.id == v.id then validator_meta us u else validator_meta us v

module _ (execute : ValidatorSpec → ℕ → Option ResultStatus) where
  -- `executeWithTimeoutAndRetry` with a number of tries left; the tries are numbered from 1.
  unfoldable pub execute_with : ℕ → ValidatorSpec → ResultStatus
  execute_with zero v = error
  execute_with (suc left) v =
      let rest = execute_with left v in settle (execute v (3 - left)) left rest

  -- The validators in the order in which they run, each with the severity and the weight that are kept
  -- for its id.
  unfoldable pub results_of : List ValidatorSpec → List ValidatorResult
  unfolding execute_with validator_meta
  results_of vs =
      map
        (λ v. record {
          spec = record v {
            severity = (validator_meta vs v).severity;
            weight = (validator_meta vs v).weight;
          };
          status = execute_with 3 v;
        })
        vs

  abbrev pub record_results : ℕ → List ValidatorResult → M (Unit {0})
  record_results attempt_id [] = return tt
  record_results attempt_id (r ∷ rs) =
      append_typed_event attempt_id validator validator_result >> record_results attempt_id rs

  abbrev pub summary_of : TaskSpec → TaskSummary
  summary_of t = record {
    task_key = t.key;
    required = t.required;
    passed = task_passes (results_of t.validators);
    results = results_of t.validators;
  }

  -- The body of the loop over the tasks.
  unfoldable pub run_task : ℕ → TaskSpec → M TaskSummary
  run_task attempt_id t = do
    record_results attempt_id (results_of t.validators)
    append_typed_event attempt_id system
        (if task_passes (results_of t.validators) then task_passed t.key else task_failed t.key)
    return (summary_of t)

  unfoldable pub run_tasks : ℕ → List TaskSpec → M (List TaskSummary)
  unfolding run_task
  run_tasks attempt_id [] = return []
  run_tasks attempt_id (t ∷ ts) = do
    s ← run_task attempt_id t
    ss ← run_tasks attempt_id ts
    return (s ∷ ss)

  -- `run` with scope 'all'
  unfoldable pub run : ℕ → List TaskSpec → M (List TaskSummary)
  unfolding run_tasks
  run attempt_id tasks = do
    append_typed_event attempt_id system validation_requested
    run_tasks attempt_id tasks
