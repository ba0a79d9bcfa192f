-- ===== src/Project/Service/Finals.antt =====
-- The roll-up of a project whose scores come from the database.
use skillfyme_hands_on.Base.{ℕ, ◌≡◌, refl, false, Option, none, some, List, [], ◌∷◌, All}
use skillfyme_hands_on.Store.Milestones.{MilestoneStateRow, ProjectScore}
use skillfyme_hands_on.Store.Rows.{World}
use skillfyme_hands_on.Store.Monad.{ok, left}
use skillfyme_hands_on.Project.Repository.{list_rows}
use skillfyme_hands_on.Project.Ports.{a_text, Ports}
use skillfyme_hands_on.Project.Scoring.{clamp01, rollup}
use skillfyme_hands_on.Project.Scoring.Bounds.{NoNumber, rollup-fails}
use skillfyme_hands_on.Project.Defence.{defence_component_score}
use skillfyme_hands_on.Project.Service.Specs.{
  MilestoneSpec, read_score, load_milestone_specs, views,
}
use skillfyme_hands_on.Project.Service.Operations.{score_inputs, finalize_project_score}
use skillfyme_hands_on.Project.Service.Keeps.{HasRows, list_milestones_lem}

module _ (ports : Ports) (reads : (n : ℕ) → ports.read_numeric n ≡ a_text n) where
  read_score-NoNumber : (s : Option ℕ) → clamp01 (read_score ports.read_numeric s) ≡ 0
  read_score-NoNumber none = refl
  read_score-NoNumber (some n) = rw (reads n) refl

  score_inputs-NoNumber :
      (specs all_specs : List MilestoneSpec) (rs : List MilestoneStateRow)
      → All NoNumber (score_inputs ports all_specs (views ports.read_numeric specs rs))
  unfolding score_inputs views
  score_inputs-NoNumber specs all_specs [] = tt
  score_inputs-NoNumber specs all_specs (r ∷ rs) =
      (read_score-NoNumber r.score, score_inputs-NoNumber specs all_specs rs)

  -- Where the database's driver hands over a numeric column as its text, the score that is stored for
  -- a finished project has not passed, whatever its milestones and its defence scored.
  pub finalize_project_score-fails :
      (id : ℕ) (w : World) (specs : List MilestoneSpec)
      → HasRows id w
      → load_milestone_specs id w ≡ ok specs w
      → (s : ProjectScore) × ((left (finalize_project_score ports id w)).project_scores
          ≡ s ∷ w.project_scores)
        × (s.passed ≡ false)
  unfolding finalize_project_score
  finalize_project_score-fails id w specs h e =
      let ms =
        score_inputs ports specs (views ports.read_numeric specs (list_rows id w.milestones)) in
      let r = rollup ms (defence_component_score id w) in
      let s : ProjectScore = record {
        attempt_id = id;
        final_score = r.final_score;
        passed = r.passed;
        ai_fraction = r.ai_fraction;
      } in
      (
        s,
        rw (list_milestones_lem ports.read_numeric 1 id w specs h e, e) refl,
        rollup-fails ms _ (score_inputs-NoNumber specs specs (list_rows id w.milestones)),
      )
