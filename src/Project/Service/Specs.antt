-- ===== src/Project/Service/Specs.antt =====
-- `loadMilestoneSpecs`, `initProjectAttempt` and `listMilestones` of
-- practice-core/src/modules/project/project.service.ts.
use skillfyme_hands_on.Base.{
  ℕ, zero, suc, Bool, true, false, not, Option, none, some, List, [], ◌∷◌, map, get_or,
  if◌then◌else◌,
}
use skillfyme_hands_on.Common.Mode.{ActivityMode, project}
use skillfyme_hands_on.EventStore.Events.{system, milestone_submitted}
use skillfyme_hands_on.Store.Milestones.{
  Milestone, design, infra, implementation, hardening, final, MilestoneStatus, milestone_locked,
  milestone_open, Gate, all_validators_pass, rubric_min_level, AuthoredMilestone, MilestoneStateRow,
  same_key,
}
use skillfyme_hands_on.Store.Rows.{Attempt, ActivityVersion, World}
use skillfyme_hands_on.Store.Monad.{
  ok, err, fault, project_error, project_attempt_not_found, not_a_project, M, ◌>>=◌, ◌>>◌, bind,
  return, throw, modify, append_typed_event,
}
use skillfyme_hands_on.Store.Repository.{find_by_id}
use skillfyme_hands_on.Evaluation.Service.{find_version}
use skillfyme_hands_on.Project.Repository.{SeedMilestoneInput, seed_milestones, list_rows}
use skillfyme_hands_on.Project.Ports.{Scalar}

-- `MilestoneSpec`
pub record MilestoneSpec : Type 0 where
  pub key : Milestone
  pub gate : Gate
  pub blocking : Bool
  pub environment_required : Bool
  pub task_keys : List ℕ
  pub rubric : Option ℕ
  pub min_level : Option ℕ

-- `MilestoneView`; the score is what the database's driver hands over.
pub record MilestoneView : Type 0 where
  pub key : Milestone
  pub status : MilestoneStatus
  pub ordinal : ℕ
  pub gate : Gate
  pub blocking : Bool
  pub environment_required : Bool
  pub score : Option Scalar
  pub rubric_level : Option ℕ
  pub attempt_count : ℕ

-- rub.architecture.v3
abbrev pub architecture_rubric : ℕ
architecture_rubric = 3

abbrev is_design : Milestone → Bool
is_design design = true
is_design _ = false

abbrev pub default_spec : Milestone → MilestoneSpec
default_spec key = record {
  key = key;
  gate = if is_design key then rubric_min_level else all_validators_pass;
  blocking = true;
  environment_required = not (is_design key);
  task_keys = [];
  rubric = if is_design key then some architecture_rubric else none;
  min_level = if is_design key then some 3 else none;
}

-- `MILESTONE_SEQUENCE`
abbrev pub milestone_sequence : List Milestone
milestone_sequence = design ∷ infra ∷ implementation ∷ hardening ∷ final ∷ []

abbrev pub spec_of : AuthoredMilestone → MilestoneSpec
spec_of m = record {
  key = m.key;
  gate = m.gate;
  blocking = get_or m.blocking true;
  environment_required = m.environment_required;
  task_keys = m.task_keys;
  rubric = m.rubric;
  min_level = m.min_level;
}

unfoldable pub specs_of : List AuthoredMilestone → List MilestoneSpec
specs_of [] = map default_spec milestone_sequence
specs_of (m ∷ ms) = map spec_of (m ∷ ms)

-- The attempt's row joined with its activity's version.
unfoldable pub attempt_version : ℕ → World → Option (Attempt × ActivityVersion)
attempt_version id w = elim (find_by_id id w) [
  | none ↦ none
  | some a ↦ elim (find_version a.activity_version_id w) [ none ↦ none | some v ↦ some (a, v) ]
]

abbrev pub is_project : ActivityMode → Bool
is_project project = true
is_project _ = false

unfoldable pub specs_from : Option (Attempt × ActivityVersion) → M (List MilestoneSpec)
unfolding specs_of
specs_from none w = err (project_error project_attempt_not_found) w
specs_from (some (a, v)) w =
    if is_project a.mode then ok (specs_of v.milestones) w else err (project_error not_a_project) w

unfoldable pub load_milestone_specs : ℕ → M (List MilestoneSpec)
unfolding attempt_version specs_from
load_milestone_specs id w = specs_from (attempt_version id w) w

abbrev pub seed_status : ℕ → MilestoneStatus
seed_status zero = milestone_open
seed_status (suc n) = milestone_locked

unfoldable pub seed_inputs : ℕ → List MilestoneSpec → List SeedMilestoneInput
seed_inputs n [] = []
seed_inputs n (s ∷ ss) =
    record { milestone_key = s.key; ordinal = n; status = seed_status n } ∷ seed_inputs (suc n) ss

-- `new Map(…).get(key)`: a later entry replaces an earlier one.
unfoldable pub spec_by_key : Milestone → List MilestoneSpec → Option MilestoneSpec
spec_by_key key [] = none
spec_by_key key (s ∷ ss) = elim (spec_by_key key ss) [
  | some t ↦ some t
  | none ↦ if same_key s.key key then some s else none
]

abbrev pub read_score : (ℕ → Scalar) → Option ℕ → Option Scalar
read_score read none = none
read_score read (some n) = some (read n)

abbrev gate_of : Option MilestoneSpec → Gate
gate_of none = all_validators_pass
gate_of (some s) = s.gate

abbrev blocking_of : Option MilestoneSpec → Bool
blocking_of none = true
blocking_of (some s) = s.blocking

abbrev needs_environment : Option MilestoneSpec → Milestone → Bool
needs_environment none key = not (is_design key)
needs_environment (some s) key = s.environment_required

abbrev pub view_of : (ℕ → Scalar) → Option MilestoneSpec → MilestoneStateRow → MilestoneView
view_of read spec r = record {
  key = r.milestone_key;
  status = r.status;
  ordinal = r.ordinal;
  gate = gate_of spec;
  blocking = blocking_of spec;
  environment_required = needs_environment spec r.milestone_key;
  score = read_score read r.score;
  rubric_level = r.rubric_level;
  attempt_count = r.attempt_count;
}

unfoldable pub views :
    (ℕ → Scalar) → List MilestoneSpec → List MilestoneStateRow → List MilestoneView
unfolding spec_by_key
views read specs rs = map (λ r. view_of read (spec_by_key r.milestone_key specs) r) rs

-- The seeding, up to the list that it ends with.
unfoldable pub seed : ℕ → M (Unit {0})
unfolding seed_inputs load_milestone_specs
seed id = do
  specs ← load_milestone_specs id
  modify (seed_milestones id (seed_inputs 0 specs))
  append_typed_event id system (milestone_submitted none)

module _ (read : ℕ → Scalar) where
  abbrev seeded_or :
      ℕ
      → List MilestoneStateRow
      → M (List MilestoneView)
      → List MilestoneSpec
      → M (List MilestoneView)
  seeded_or id [] again specs = seed id >> (again >>= λ _. again)
  seeded_or id (r ∷ rs) again specs = return (views read specs (r ∷ rs))

  -- `listMilestones` on fuel: it seeds what has no milestones and starts again. The list that
  -- `initProjectAttempt` ends with is made before the one that is returned.
  unfoldable pub list_milestones : ℕ → ℕ → M (List MilestoneView)
  unfolding load_milestone_specs seed
  list_milestones zero id = throw fault
  list_milestones (suc n) id =
      let again = list_milestones n id in
      λ w.
        bind (load_milestone_specs id w)
          λ specs u. seeded_or id (list_rows id u.milestones) again specs u

  -- `initProjectAttempt`
  unfoldable pub init_project_attempt : ℕ → M (List MilestoneView)
  unfolding list_milestones seed
  init_project_attempt id = seed id >> list_milestones 1 id
