-- ===== src/Store/Rows.antt =====
-- The tables of practice-core/src/db/schema.ts that the modelled services read and write, each a
-- list of rows. Ids and texts that are only compared are numbers; times are milliseconds; a penalty
-- and a score are counted in ten-thousandths. Columns that no modelled code reads or writes are left
-- out.
use skillfyme_hands_on.Base.{ℕ, Bool, Option, List}
use skillfyme_hands_on.Common.Mode.{ActivityMode}
use skillfyme_hands_on.Common.Status.{AttemptStatus}
use skillfyme_hands_on.EventStore.Events.{AttemptEventRow, DestroyReason}
use skillfyme_hands_on.EventStore.Replay.{TaskRow}
use skillfyme_hands_on.Store.Milestones.{
  Milestone, AuthoredMilestone, MilestoneStateRow, SubmissionRow, ProjectScore, VivaState,
}

-- `AttemptTable`
pub record Attempt : Type 0 where
  pub id : ℕ
  pub tenant_id : ℕ
  pub user_id : ℕ
  pub activity_id : ℕ
  pub activity_version_id : ℕ
  pub mode : ActivityMode
  pub status : AttemptStatus
  pub retry_of_attempt_id : Option ℕ
  pub retry_index : ℕ
  pub assistance_flags : List ℕ
  pub environment_id : Option ℕ
  pub idempotency_key : Option ℕ
  pub created_at : ℕ
  pub started_at : Option ℕ
  pub submitted_at : Option ℕ
  pub completed_at : Option ℕ
  pub last_activity_at : ℕ
  pub hint_penalty_total : ℕ
  pub version : ℕ
  pub snapshot_id : Option ℕ
  pub snapshot_taken_at : Option ℕ

pub data VersionStatus : Type 0 where
  draft in_review approved published canary deprecated retired rolled_back : VersionStatus

-- A fault of an activity's `faults`: its id, and whether its `apply_at` is "T0".
pub record FaultSpec : Type 0 where
  pub id : ℕ
  pub at_t0 : Bool

pub record HintSpec : Type 0 where
  pub level : ℕ
  pub penalty : ℕ
  pub text : ℕ

pub data Severity : Type 0 where
  blocking warn : Severity

pub record ValidatorSpec : Type 0 where
  pub id : ℕ
  pub severity : Option Severity
  pub weight : ℕ

pub record TaskSpec : Type 0 where
  pub key : ℕ
  pub required : Bool
  pub validators : List ValidatorSpec
  pub hints : List HintSpec

-- `ActivityVersionTable`, joined with the activity's mode; the parts of `spec_jsonb` that the services
-- read are fields.
pub record ActivityVersion : Type 0 where
  pub id : ℕ
  pub activity_id : ℕ
  pub mode : ActivityMode
  pub status : VersionStatus
  pub tasks : List TaskSpec
  pub faults : List FaultSpec
  pub milestones : List AuthoredMilestone

-- `ActivitySkillTable`
pub record ActivitySkill : Type 0 where
  pub activity_version_id : ℕ
  pub skill_id : ℕ
  pub is_primary : Bool

-- `LearnerActivityStateTable`
pub record LearnerActivityState : Type 0 where
  pub user_id : ℕ
  pub activity_id : ℕ
  pub best_score : ℕ
  pub latest_score : ℕ
  pub passed : Bool
  pub attempts_count : ℕ
  pub cooldown_until : Option ℕ

-- The calls that leave for the orchestrator, newest first.
pub data Request : Type 0 where
  provision_request : ℕ → Request
  inject_fault_request : ℕ → ℕ → Request
  destroy_request : ℕ → DestroyReason → Request
  connect_request : ℕ → Request
  suspend_request : ℕ → Request
  provision_milestone_request : ℕ → Milestone → Request

pub record World : Type 0 where
  pub now : ℕ
  pub next_id : ℕ
  pub attempts : List Attempt
  pub events : List AttemptEventRow
  pub tasks : List TaskRow
  pub versions : List ActivityVersion
  pub activity_skills : List ActivitySkill
  pub learner_states : List LearnerActivityState
  pub requests : List Request
  pub milestones : List MilestoneStateRow
  pub submissions : List SubmissionRow
  pub project_scores : List ProjectScore
  pub vivas : List (ℕ × VivaState)
