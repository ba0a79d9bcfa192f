-- ===== src/Project/Service/Operations.antt =====
-- `submitMilestone` and what it calls, of practice-core/src/modules/project/project.service.ts.
use skillfyme_hands_on.Base.{
  ℕ, ◌+◌, Bool, true, false, ◌&&◌, Option, none, some, List, ◌∷◌, map, ◌==◌, if◌then◌else◌, find,
}
use skillfyme_hands_on.EventStore.Events.{
  learner, system, milestone_submitted, milestone_gated, evaluated,
}
use skillfyme_hands_on.Store.Milestones.{
  Milestone, final, MilestoneStatus, milestone_locked, milestone_open, gated_pass, same_key,
  MilestoneStateRow,
}
use skillfyme_hands_on.Store.Rows.{
  Attempt, ValidatorSpec, World, suspend_request, provision_milestone_request,
}
use skillfyme_hands_on.Store.Monad.{
  ok, project_error, milestone_is_locked, milestone_already_passed, M, ◌>>=◌, ◌>>◌, return, throw,
  modify, left, find_or_throw, append_typed_event, send,
}
use skillfyme_hands_on.Store.Repository.{find_by_id, update_row}
use skillfyme_hands_on.Evaluation.ValidatorRunner.{ResultStatus}
use skillfyme_hands_on.Project.Repository.{
  GateOutcome, mark_submitted, apply_gate_outcome, record_submission, stamp_submission_outcome,
  list_rows,
}
use skillfyme_hands_on.Project.Ports.{Ports, resolve_repo_ref, record_milestone_submission}
use skillfyme_hands_on.Project.Scoring.{MilestoneScoreInput, ProjectRollupResult, rollup}
use skillfyme_hands_on.Project.Defence.{defence_component_score}
use skillfyme_hands_on.Project.Service.Specs.{
  MilestoneSpec, MilestoneView, load_milestone_specs, spec_by_key, list_milestones,
}
use skillfyme_hands_on.Project.Service.Gates.{
  ValidatorSummary, RubricResult, uses_rubric, clears, compute_milestone_score,
  run_milestone_validators, grade_if_used,
}

-- The input of `submitMilestone`
pub record SubmitInput : Type 0 where
  pub attempt_id : ℕ
  pub milestone_key : Milestone
  pub design_text : Option ℕ
  pub commit_sha : Option ℕ

-- `SubmitMilestoneResult`; `passed` is whether the outcome is GATED_PASS.
pub record SubmitMilestoneResult : Type 0 where
  pub milestone_key : Milestone
  pub passed : Bool
  pub score : ℕ
  pub rubric_level : Option ℕ
  pub provisional : Bool
  pub next_milestone_opened : Option Milestone
  pub validator_summary : List ValidatorSummary

abbrev pub level_of : Option RubricResult → Option ℕ
level_of none = none
level_of (some r) = some r.gate_level

abbrev provisional_of : Option RubricResult → Bool
provisional_of none = false
provisional_of (some r) = r.provisional

-- What a gate comes to.
abbrev pub outcome_of : MilestoneSpec → List ValidatorSummary → Option RubricResult → GateOutcome
outcome_of s ss r = record {
  passed = clears s ss r;
  score = compute_milestone_score s ss r;
  rubric_level = level_of r;
}

-- The spec of the milestone: `specs.find`, which takes the first.
abbrev pub find_spec : Milestone → List MilestoneSpec → Option MilestoneSpec
find_spec key specs = find (λ s. same_key s.key key) specs

abbrev pub find_view : Milestone → List MilestoneView → Option MilestoneView
find_view key vs = find (λ v. same_key v.key key) vs

-- The refusals by the milestone's status.
unfoldable pub admit : MilestoneStatus → M (Unit {0})
admit milestone_locked = throw (project_error milestone_is_locked)
admit gated_pass = throw (project_error milestone_already_passed)
admit _ = return tt

unfoldable pub next_opened_milestone : ℕ → Milestone → Bool → World → Option Milestone
next_opened_milestone id key passed w =
    if passed
    then current (find (λ r. same_key r.milestone_key key) (list_rows id w.milestones))
    else none
  where
    is_open : MilestoneStatus → Bool
    is_open milestone_open = true
    is_open _ = false

    following : Option MilestoneStateRow → Option Milestone
    following none = none
    following (some r) = if is_open r.status then some r.milestone_key else none

    current : Option MilestoneStateRow → Option Milestone
    current none = none
    current (some r) =
        following (find (λ x. x.ordinal == r.ordinal + 1) (list_rows id w.milestones))

module _ (ports : Ports) where
  abbrev suspend_if : Option ℕ → M (Unit {0})
  suspend_if none = return tt
  suspend_if (some env) = send (suspend_request env)

  abbrev set_environment : ℕ → Option ℕ → M (Unit {0})
  set_environment id none w = ok tt w
  set_environment id (some env) w = ok tt (record w {
    attempts = update_row id (λ a. record a { environment_id = some env }) w.attempts;
  })

  abbrev provision_if : ℕ → Milestone → Option ℕ → M (Unit {0})
  provision_if id key (some env) = return tt
  provision_if id key none =
      send (provision_milestone_request id key)
      >> set_environment id (ports.provision_for_milestone id key)

  abbrev environment_of : Option Attempt → Option ℕ
  environment_of none = none
  environment_of (some a) = a.environment_id

  unfoldable pub apply_env_lifecycle : ℕ → MilestoneSpec → Bool → M (Unit {0})
  apply_env_lifecycle id s passed w =
      if s.environment_required
      then if passed
        then suspend_if (environment_of (find_by_id id w)) w
        else provision_if id s.key (environment_of (find_by_id id w)) w
      else ok tt w

  abbrev ai_derived_of : Option MilestoneSpec → Bool
  ai_derived_of none = false
  ai_derived_of (some s) = uses_rubric s.gate

  unfoldable pub score_inputs : List MilestoneSpec → List MilestoneView → List MilestoneScoreInput
  score_inputs specs vs =
      map
        (λ v. record {
          key = v.key;
          score = v.score;
          ai_derived = ai_derived_of (spec_by_key v.key specs);
        })
        vs

  -- The row of `attempt_score` and the event EVALUATED.
  abbrev store_score : ℕ → ProjectRollupResult → M (Unit {0})
  store_score id r =
      modify (λ w. record w {
        project_scores =
            record {
              attempt_id = id;
              final_score = r.final_score;
              passed = r.passed;
              ai_fraction = r.ai_fraction;
            }
            ∷ w.project_scores;
      })
      >> append_typed_event id system (evaluated r.final_score r.passed)

  unfoldable pub finalize_project_score : ℕ → M (Unit {0})
  unfolding score_inputs
  finalize_project_score id = do
    vs ← list_milestones ports.read_numeric 2 id
    specs ← load_milestone_specs id
    λ w. store_score id (rollup (score_inputs specs vs) (defence_component_score id w)) w

  -- `submitMilestone` up to the refusals: the spec of the milestone.
  unfoldable pub admitted : SubmitInput → M MilestoneSpec
  unfolding admit
  admitted i = do
    specs ← load_milestone_specs i.attempt_id
    s ← find_or_throw (find_spec i.milestone_key specs)
    vs ← list_milestones ports.read_numeric 2 i.attempt_id
    v ← find_or_throw (find_view i.milestone_key vs)
    admit v.status
    return s

  abbrev record_pointer : SubmitInput → ℕ → Option ℕ → World → World
  record_pointer i n none w = record_submission i.attempt_id i.milestone_key none i.commit_sha n w
  record_pointer i n (some repo) w =
      record_milestone_submission ports i.attempt_id i.milestone_key repo n i.commit_sha w

  -- The milestone is marked, the submission recorded: the number of the submission.
  unfoldable pub enter_gate : SubmitInput → M ℕ
  enter_gate i = do
    n ← mark_submitted i.attempt_id i.milestone_key
    modify (λ w. record_pointer i n (resolve_repo_ref i.attempt_id w) w)
    append_typed_event i.attempt_id learner (milestone_submitted (some (i.milestone_key, n)))
    return n

  abbrev pub finalize_if : ℕ → Bool → M (Unit {0})
  finalize_if id false w = ok tt w
  finalize_if id true w = ok tt (left (finalize_project_score id w))

  abbrev pub is_final : Milestone → Bool
  is_final final = true
  is_final _ = false

  -- What is reported once the gate is settled. An error of the roll-up is logged and dropped.
  unfoldable pub conclude :
      SubmitInput
      → MilestoneSpec
      → List ValidatorSummary
      → Option RubricResult
      → Option Milestone
      → M SubmitMilestoneResult
  unfolding finalize_project_score
  conclude i s ss r next = do
    append_typed_event i.attempt_id system
        (milestone_gated i.milestone_key (clears s ss r) (compute_milestone_score s ss r))
    finalize_if i.attempt_id (is_final i.milestone_key && clears s ss r)
    return (record {
      milestone_key = i.milestone_key;
      passed = clears s ss r;
      score = compute_milestone_score s ss r;
      rubric_level = level_of r;
      provisional = provisional_of r;
      next_milestone_opened = next;
      validator_summary = ss;
    })

  -- From the outcome of the gate on.
  unfoldable pub settle_gate :
      SubmitInput
      → MilestoneSpec
      → ℕ
      → List ValidatorSummary
      → Option RubricResult
      → M SubmitMilestoneResult
  unfolding apply_env_lifecycle next_opened_milestone conclude
  settle_gate i s n ss r = do
    apply_gate_outcome i.attempt_id i.milestone_key (outcome_of s ss r)
    modify (
        stamp_submission_outcome i.attempt_id i.milestone_key n (clears s ss r)
          (compute_milestone_score s ss r))
    apply_env_lifecycle i.attempt_id s (clears s ss r)
    λ w. conclude i s ss r (next_opened_milestone i.attempt_id i.milestone_key (clears s ss r) w) w

  unfoldable pub submit_milestone :
      (Option ℕ → ValidatorSpec → ℕ → Option ResultStatus) → SubmitInput → M SubmitMilestoneResult
  unfolding admitted enter_gate settle_gate
  submit_milestone execute i = do
    s ← admitted i
    n ← enter_gate i
    ss ← run_milestone_validators execute i.attempt_id s
    r ← grade_if_used ports s i.design_text
    settle_gate i s n ss r
