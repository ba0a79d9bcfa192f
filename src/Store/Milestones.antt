-- ===== src/Store/Milestones.antt =====
-- The project mode's tables of practice-core/src/db/schema.ts and the milestones of an activity's spec
-- (catalog/activity-spec.ts). A rubric, a repository, a commit and a text are numbers; a score is
-- counted in ten-thousandths. A milestone's title is left out.
use skillfyme_hands_on.Base.{ℕ, Bool, Option, List, ◌==◌}

-- `ProjectMilestoneKey`
pub data Milestone : Type 0 where
  design infra implementation hardening final : Milestone

-- `ProjectMilestoneStatus`
pub data MilestoneStatus : Type 0 where
  milestone_locked milestone_open milestone_in_gate gated_pass gated_fail : MilestoneStatus

pub data Gate : Type 0 where
  all_validators_pass rubric_min_level both : Gate

abbrev number : Milestone → ℕ
number design = 0
number infra = 1
number implementation = 2
number hardening = 3
number final = 4

abbrev pub same_key : Milestone → Milestone → Bool
same_key a b = number a == number b

-- An entry of an activity's `milestones`, with what it may leave out.
pub record AuthoredMilestone : Type 0 where
  pub key : Milestone
  pub gate : Gate
  pub blocking : Option Bool
  pub environment_required : Bool
  pub task_keys : List ℕ
  pub rubric : Option ℕ
  pub min_level : Option ℕ

-- `MilestoneStateRow`
pub record MilestoneStateRow : Type 0 where
  pub attempt_id : ℕ
  pub milestone_key : Milestone
  pub status : MilestoneStatus
  pub ordinal : ℕ
  pub submitted_at : Option ℕ
  pub gated_at : Option ℕ
  pub score : Option ℕ
  pub rubric_level : Option ℕ
  pub attempt_count : ℕ

-- `SubmissionRow`: the repository "none" and the commit "" are `none`; `outcome` is whether the
-- submission has passed its gate.
pub record SubmissionRow : Type 0 where
  pub attempt_id : ℕ
  pub milestone_key : Milestone
  pub repo_ref : Option ℕ
  pub commit_sha : Option ℕ
  pub attempt_number : ℕ
  pub outcome : Option Bool
  pub score : Option ℕ
  pub submitted_at : ℕ

-- `AttemptScoreTable` under the profile sp.project.default
pub record ProjectScore : Type 0 where
  pub attempt_id : ℕ
  pub final_score : ℕ
  pub passed : Bool
  pub ai_fraction : ℕ

-- `VivaState` of practice-core/src/modules/project/defence.service.ts
pub record VivaState : Type 0 where
  pub questions : List ℕ
  pub asked : ℕ
  pub closed : Bool
