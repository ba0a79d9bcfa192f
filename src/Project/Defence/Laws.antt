-- ===== src/Project/Defence/Laws.antt =====
-- The course of a defence.
use skillfyme_hands_on.Base.{ℕ, ◌≡◌, true, false, Option, some, none, List, [], ◌∷◌, lookup}
use skillfyme_hands_on.EventStore.Events.{
  defence_message, learner_role, scored_viva, AttemptEventRow,
}
use skillfyme_hands_on.Store.Milestones.{final, MilestoneStateRow, VivaState}
use skillfyme_hands_on.Store.Rows.{World}
use skillfyme_hands_on.Store.Monad.{left}
use skillfyme_hands_on.Project.Repository.{get_milestone, is_locked}
use skillfyme_hands_on.Project.Ports.{Turn, GradingResult, Ports}
use skillfyme_hands_on.Project.Defence.{viva_rubric_id, post_message}

-- The last milestone of the attempt is there and not locked.
pub record FinalReached (id : ℕ) (w : World) : Type 0 where
  pub row : MilestoneStateRow
  pub found : get_milestone id final w ≡ some row
  pub reached : is_locked row.status ≡ false

module _ (ports : Ports) (id : ℕ) where
  -- The learner's messages, one after another.
  unfoldable pub post_all : List ℕ → World → World
  unfolding post_message
  post_all [] w = w
  post_all (t ∷ ts) w = post_all ts (left (post_message ports id learner_role (some t) w))

  -- A viva that has asked so many of its questions and goes on.
  pub record IsRunning (v : VivaState) (w : World) : Type 0 where
    pub final_reached : FinalReached id w
    pub viva : lookup id w.vivas ≡ some v
    pub open_still : v.closed ≡ false

  -- The viva has ended, and the newest event is the marker of its score.
  pub record IsScored (v : VivaState) (w : World) : Type 0 where
    pub viva : lookup id w.vivas ≡ some (record v { closed = true })
    pub turn : ℕ
    pub level : ℕ
    pub event : AttemptEventRow
    pub earlier : List AttemptEventRow
    pub logged : w.events ≡ event ∷ earlier
    pub marks : event.event ≡ defence_message (scored_viva turn level)

  module _ (rubric : ports.has_rubric viva_rubric_id ≡ true) (commits : ℕ → List ℕ)
      (listed : (repo : ℕ) → ports.list_commits repo ≡ some (commits repo))
      (grade : List Turn → List ℕ → GradingResult)
      (graded : (ts : List Turn) (cs : List ℕ)
        → ports.grade_transcript ts cs ≡ some (grade ts cs)) where
    -- What the commits of the repository are, where there is one.
    commits_in : Option ℕ → List ℕ
    commits_in none = []
    commits_in (some repo) = commits repo
