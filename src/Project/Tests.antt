-- ===== src/Project/Tests.antt =====
-- A small project, and the theorems about the project mode at it.
use skillfyme_hands_on.Base.{
  ℕ, Bool, ◌≡◌, ◌≤◌, ◌+◌, refl, true, false, Option, none, some, List, [], ◌∷◌, arith, lookup,
}
use skillfyme_hands_on.Common.Mode.{project}
use skillfyme_hands_on.Common.Status.{in_progress}
use skillfyme_hands_on.Store.Milestones.{
  Milestone, design, infra, implementation, hardening, final, milestone_open, milestone_locked,
  gated_pass, MilestoneStateRow, VivaState, ProjectScore,
}
use skillfyme_hands_on.Store.Rows.{Attempt, ActivityVersion, ValidatorSpec, World, published}
use skillfyme_hands_on.Store.Monad.{ok, err, left, project_error, milestone_is_locked}
use skillfyme_hands_on.Store.Repository.{find_by_id}
use skillfyme_hands_on.Evaluation.ValidatorRunner.{ResultStatus, pass}
use skillfyme_hands_on.Project.Repository.{
  GateOutcome, gate_table, list_rows, seed_rows, seeded_row, get_milestone, order_by_ordinal,
  insert_by_ordinal,
}
use skillfyme_hands_on.Project.Ports.{a_text, a_number, Ports}
use skillfyme_hands_on.Project.Scoring.{rollup}
use skillfyme_hands_on.Project.Scoring.Bounds.{scores, rollup_ai_share}
use skillfyme_hands_on.Project.Progress.{working, IsAt}
use skillfyme_hands_on.Project.Progress.Race.{late_verdict}
use skillfyme_hands_on.Project.Progress.Seeds.{DistinctSpecs, seed_rows-IsAt}
use skillfyme_hands_on.Project.Defence.Laws.{FinalReached, IsRunning}
use skillfyme_hands_on.Project.Service.Specs.{
  MilestoneSpec, attempt_version, default_spec, specs_of, seed_inputs, views, list_milestones,
  load_milestone_specs, specs_from,
}
use skillfyme_hands_on.Project.Service.Operations.{
  SubmitInput, submit_milestone, finalize_project_score,
}
use skillfyme_hands_on.Project.Service.Submits.{IsAt-HasRows, row_of}
use skillfyme_hands_on.Project.Service.Refines.{Refines, submit_milestone-Refines}
use skillfyme_hands_on.Project.Service.Refused.{submit_milestone-refused}
use skillfyme_hands_on.Project.Service.Listing.{list_milestones-seeds}
use skillfyme_hands_on.Project.Service.Finals.{finalize_project_score-fails}

abbrev learners_project : Attempt
learners_project = record {
  id = 1;
  tenant_id = 1;
  user_id = 7;
  activity_id = 3;
  activity_version_id = 4;
  mode = project;
  status = in_progress;
  retry_of_attempt_id = none;
  retry_index = 0;
  assistance_flags = [];
  environment_id = some 9;
  idempotency_key = none;
  created_at = 10;
  started_at = none;
  submitted_at = none;
  completed_at = none;
  last_activity_at = 10;
  hint_penalty_total = 0;
  version = 1;
  snapshot_id = none;
  snapshot_taken_at = none;
}

-- A version that leaves its milestones out.
abbrev project_version : ActivityVersion
project_version = record {
  id = 4;
  activity_id = 3;
  mode = project;
  status = published;
  tasks = [];
  faults = [];
  milestones = [];
}

abbrev project_store : List MilestoneStateRow → World
project_store rows = record {
  now = 100;
  next_id = 5;
  attempts = learners_project ∷ [];
  events = [];
  tasks = [];
  versions = project_version ∷ [];
  activity_skills = [];
  learner_states = [];
  requests = [];
  milestones = rows;
  submissions = [];
  project_scores = [];
  vivas = (1, record { questions = 11 ∷ 12 ∷ []; asked = 1; closed = false }) ∷ [];
}

abbrev ports : Ports
ports = record {
  has_rubric = λ r. true;
  grade_artifact = λ r t.
      some (record { overall = some 3; first_level = 4; other_levels = []; provisional = true });
  grade_transcript = λ ts cs.
      some (record { overall = none; first_level = 4; other_levels = 2 ∷ []; provisional = true });
  provision_for_milestone = λ id k. some 8;
  head_commit = λ r. none;
  list_commits = λ r. some (21 ∷ []);
  generate_questions = λ r. some (11 ∷ 12 ∷ []);
  always_reviewed = true;
  read_numeric = a_text;
}

abbrev execute : Option ℕ → ValidatorSpec → ℕ → Option ResultStatus
execute env v n = some pass

abbrev later_specs : List MilestoneSpec
later_specs =
    default_spec infra
    ∷ default_spec implementation
    ∷ default_spec hardening
    ∷ default_spec final
    ∷ []

abbrev seeded_rows : List MilestoneStateRow
seeded_rows = seed_rows 1 (seed_inputs 0 (default_spec design ∷ later_specs)) []

later_specs_distinct : DistinctSpecs (default_spec design ∷ later_specs)
later_specs_distinct = ground arith

fresh-IsAt : IsAt 1 (working 0 milestone_open 4) seeded_rows
fresh-IsAt = seed_rows-IsAt 1 (default_spec design) later_specs [] refl later_specs_distinct

loads :
    (rows : List MilestoneStateRow)
    → load_milestone_specs 1 (project_store rows)
      ≡ ok (default_spec design ∷ later_specs) (project_store rows)
unfolding load_milestone_specs specs_from specs_of attempt_version find_by_id
loads rows = refl

abbrev submission : Milestone → SubmitInput
submission key = record {
  attempt_id = 1;
  milestone_key = key;
  design_text = some 1;
  commit_sha = none;
}

-- The design passes, which opens the second milestone.
submit_milestone-Refines_example :
    Refines 1
      (working 0 milestone_open 4)
      (submit_milestone ports execute (submission design) (project_store seeded_rows))
submit_milestone-Refines_example =
    submit_milestone-Refines ports execute (submission design) (working 0 milestone_open 4)
      (project_store seeded_rows) fresh-IsAt

infra_row :
    row_of (submission infra) (project_store seeded_rows)
    ≡ some (seeded_row 1 (record { milestone_key = infra; ordinal = 1; status = milestone_locked }))
unfolding list_rows order_by_ordinal seed_rows seed_inputs insert_by_ordinal
infra_row = refl

submit_milestone-refused_example :
    submit_milestone ports execute (submission infra) (project_store seeded_rows)
    ≡ err (project_error milestone_is_locked) (project_store seeded_rows)
submit_milestone-refused_example =
    submit_milestone-refused ports execute (submission infra) (working 0 milestone_open 4)
      (project_store seeded_rows) (default_spec design ∷ later_specs) (default_spec infra)
      (seeded_row 1 (record { milestone_key = infra; ordinal = 1; status = milestone_locked }))
      fresh-IsAt (loads seeded_rows) refl infra_row refl

list_milestones-seeds_example :
    (u : World) × (list_milestones a_text 5 1 (project_store [])
      ≡ ok (views a_text (default_spec design ∷ later_specs) (list_rows 1 u.milestones)) u)
    × IsAt 1 (working 0 milestone_open 4) u.milestones
list_milestones-seeds_example =
    list_milestones-seeds a_text 3 1 (project_store []) (default_spec design) later_specs (loads [])
      refl later_specs_distinct

finalize_project_score-fails_example :
    (s : ProjectScore) × ((left
        (finalize_project_score ports 1 (project_store seeded_rows))).project_scores
      ≡ s ∷ [])
    × (s.passed ≡ false)
finalize_project_score-fails_example =
    finalize_project_score-fails ports (λ n. refl) 1 (project_store seeded_rows)
      (default_spec design ∷ later_specs)
      (IsAt-HasRows 1 (working 0 milestone_open 4) (project_store seeded_rows) fresh-IsAt)
      (loads seeded_rows)

rollup_ai_share_example :
    (let r =
        rollup
          (scores false false false none none (some (a_number 9_000)) none none)
          (some 30_000) in
      let q = rollup (scores false false false none none (some (a_number 9_000)) none none) none in
      r.final_score ≤ q.final_score + 4_000)
rollup_ai_share_example =
    rollup_ai_share none (some (a_number 9_000)) none none none none none (some 30_000) none

abbrev passed_rows : List MilestoneStateRow
passed_rows = seeded_row 1 (record { milestone_key = final; ordinal = 0; status = gated_pass }) ∷ []

final_reached : FinalReached 1 (project_store passed_rows)
unfolding get_milestone
final_reached = record {
  row = seeded_row 1 (record { milestone_key = final; ordinal = 0; status = gated_pass });
  found = refl;
  reached = refl;
}

abbrev running_viva : VivaState
running_viva = record { questions = 11 ∷ 12 ∷ []; asked = 1; closed = false }

abbrev failing : Ports
failing = record ports { grade_transcript = λ ts cs. none }

abbrev asked_viva : VivaState
asked_viva = record { questions = 11 ∷ []; asked = 1; closed = false }

abbrev asked_store : World
asked_store = record (project_store passed_rows) { vivas = (1, asked_viva) ∷ [] }

asked : IsRunning failing 1 asked_viva asked_store
unfolding lookup get_milestone
asked = record {
  final_reached = record {
    row = seeded_row 1 (record { milestone_key = final; ordinal = 0; status = gated_pass });
    found = refl;
    reached = refl;
  };
  viva = refl;
  open_still = refl;
}

abbrev verdict : Bool → GateOutcome
verdict passes = record { passed = passes; score = 0; rubric_level = none }

design_row :
    row_of (submission design) (project_store seeded_rows)
    ≡ some (seeded_row 1 (record { milestone_key = design; ordinal = 0; status = milestone_open }))
unfolding list_rows order_by_ordinal seed_rows seed_inputs insert_by_ordinal
design_row = refl

late_verdict_example :
    ¬ IsAt 1 (working 1 milestone_open 3) (
      gate_table 1 design 60 0
        (verdict false)
        (gate_table 1 design 50 0 (verdict true) seeded_rows))
late_verdict_example =
    late_verdict 1 design 0 3 50 60 milestone_open (verdict true) (verdict false)
      (working 1 milestone_open 3) seeded_rows
      (seeded_row 1 (record { milestone_key = design; ordinal = 0; status = milestone_open }))
      fresh-IsAt design_row refl refl refl
