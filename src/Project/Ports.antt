-- ===== src/Project/Ports.antt =====
-- What the project mode asks of code outside it, and practice-core/src/modules/project/git.service.ts.
-- The graders are language models and the repositories are Forgejo's; both answer over the network.
use skillfyme_hands_on.Base.{ℕ, ◌+◌, ◌*◌, ◌/◌, Bool, Option, none, some, List, [], ◌∷◌, min, get_or}
use skillfyme_hands_on.EventStore.Events.{DefenceRole}
use skillfyme_hands_on.Store.Milestones.{Milestone, SubmissionRow}
use skillfyme_hands_on.Store.Rows.{World}
use skillfyme_hands_on.Project.Repository.{record_submission, list_submissions}

-- `GradingResult`: the level of the criterion "overall", if the rubric has it, and those of the other
-- criteria, of which there is one at least.
pub record GradingResult : Type 0 where
  pub overall : Option ℕ
  pub first_level : ℕ
  pub other_levels : List ℕ
  pub provisional : Bool

-- A number as the database's driver hands it over, in ten-thousandths: a JavaScript number or its text.
pub data Scalar : Type 0 where
  a_number a_text : ℕ → Scalar

-- A turn of a defence, as `transcript` gives it.
pub record Turn : Type 0 where
  pub turn : ℕ
  pub role : DefenceRole
  pub text : ℕ

-- `provision_for_milestone` and the graders answer `none` for an exception, `head_commit` also where
-- Forgejo is not configured or the repository has no commit. `list_commits` is
-- `GitService.listCommits`, which answers an empty list where Forgejo is not configured and `none` for
-- an exception. `always_reviewed` is
-- whether the defence's rubric has the policy ALWAYS_PROVISIONAL_UNTIL_CALIBRATED.
pub record Ports : Type 0 where
  pub has_rubric : ℕ → Bool
  pub grade_artifact : ℕ → Option ℕ → Option GradingResult
  pub grade_transcript : List Turn → List ℕ → Option GradingResult
  pub provision_for_milestone : ℕ → Milestone → Option ℕ
  pub head_commit : ℕ → Option ℕ
  pub list_commits : ℕ → Option (List ℕ)
  pub generate_questions : Option ℕ → Option (List ℕ)
  pub always_reviewed : Bool
  pub read_numeric : ℕ → Scalar

abbrev pub lowest : ℕ → List ℕ → ℕ
lowest n [] = n
lowest n (m ∷ ms) = min n (lowest m ms)

-- The level of the criterion "overall", or the lowest one.
unfoldable pub grading_level : GradingResult → ℕ
grading_level g = get_or g.overall (lowest g.first_level g.other_levels)

-- `round4` of a fraction, in ten-thousandths, where `num` already counts them
unfoldable pub round_div : ℕ → ℕ → ℕ
round_div num den = (2 * num + den) / (2 * den)

-- `resolveRepoRef`: the repository of the newest submission that has one
abbrev pub first_repo : List SubmissionRow → Option ℕ
first_repo [] = none
first_repo (s ∷ ss) = elim s.repo_ref [ some r ↦ some r | none ↦ first_repo ss ]

unfoldable pub resolve_repo_ref : ℕ → World → Option ℕ
resolve_repo_ref id w = first_repo (list_submissions id w)

-- `GitService.recordMilestoneSubmission`
unfoldable pub record_milestone_submission :
    Ports → ℕ → Milestone → ℕ → ℕ → Option ℕ → World → World
record_milestone_submission ports id key repo n commit w =
    record_submission id key (some repo)
      (elim commit [ some c ↦ some c | none ↦ ports.head_commit repo ]) n w
