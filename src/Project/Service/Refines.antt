-- ===== src/Project/Service/Refines.antt =====
-- `submitMilestone` refines the sequence of the milestones.
use skillfyme_hands_on.Base.{
  ℕ, zero, suc, ◌+◌, ◌≡◌, ◌∙◌, refl, subst, Bool, true, false, Option, some, List, [], ◌∷◌, map,
  find, ◌⊎◌, inl, inr, Bool-cases, arith,
}
use skillfyme_hands_on.Store.Milestones.{Milestone, MilestoneStateRow}
use skillfyme_hands_on.Store.Rows.{ValidatorSpec, World}
use skillfyme_hands_on.Store.Monad.{Outcome, ok, err, bind, left}
use skillfyme_hands_on.Evaluation.ValidatorRunner.{ResultStatus}
use skillfyme_hands_on.Project.Repository.{
  is_row, set_where, submitted_row, list_rows, get_milestone, level_allowed,
}
use skillfyme_hands_on.Project.Repository.Rows.{has_key, get_milestone-list_rows, list_rows-map}
use skillfyme_hands_on.Project.Ports.{Ports}
use skillfyme_hands_on.Project.Progress.{
  Progress, finished, working, submittable, enter, decide, Laid, IsAt,
}
use skillfyme_hands_on.Project.Progress.Updates.{mark-IsAt, gate-IsAt}
use skillfyme_hands_on.Project.Service.Specs.{MilestoneSpec}
use skillfyme_hands_on.Project.Service.Gates.{
  ValidatorSummary, RubricResult, clears, run_milestone_validators, grade_if_used,
}
use skillfyme_hands_on.Project.Service.Operations.{
  SubmitInput, SubmitMilestoneResult, outcome_of, enter_gate, settle_gate, submit_milestone,
}
use skillfyme_hands_on.Project.Service.Keeps.{
  Keeps, run_milestone_validators-Keeps, grade_if_used-Looks,
}
use skillfyme_hands_on.Project.Service.Submits.{IsAt-HasRows, row_of, admitted_cases}
use skillfyme_hands_on.Project.Service.Gated.{
  ok_of, Ends, enter_gate-marks, gated_table, settle_gate-refused, settle_gate-Ends,
}

decide-enter : (b : Bool) (p : Progress) → decide b (enter p) ≡ decide b p
unfolding decide enter
decide-enter b (finished n) = refl
decide-enter false (working d s l) = refl
decide-enter true (working d s zero) = refl
decide-enter true (working d s (suc l)) = refl

-- The row that has been marked is found marked.
find-marked :
    (id : ℕ) (key : Milestone) (now k : ℕ) (rs : List MilestoneStateRow) (r : MilestoneStateRow)
    → Laid id k rs
    → find (has_key key) rs ≡ some r
    → find (has_key key) (map (set_where (is_row id key) (submitted_row now)) rs)
      ≡ some (submitted_row now r)
find-marked id key now k [] r p e = cc
find-marked id key now k (x ∷ xs) r (a, o, d, ps) e =
    ground (arith, find-marked id key now (k + 1) xs r ps)

-- What a submission may leave of a project's milestones: the verdict that it returns is entered, and
-- an error leaves them as they were, or the milestone at its gate.
abbrev pub Refines : ℕ → Progress → Outcome SubmitMilestoneResult → Type 0
Refines id p (ok res u) = IsAt id (decide res.passed p) u.milestones
Refines id p (err e u) = IsAt id p u.milestones ⊎ IsAt id (enter p) u.milestones

module _ (ports : Ports) (execute : Option ℕ → ValidatorSpec → ℕ → Option ResultStatus)
    (i : SubmitInput) (p : Progress) where
  -- The milestone is at its gate.
  record AtGate (w : World) : Type 0 where
    row : MilestoneStateRow
    found : row_of i w ≡ some row
    open_for : submittable row.status ≡ true
    at : IsAt i.attempt_id (enter p) w.milestones

  AtGate-same : (w v : World) → v.milestones ≡ w.milestones → AtGate w → AtGate v
  AtGate-same w v k g = record {
    row = g.row;
    found = rw k g.found;
    open_for = g.open_for;
    at = rw k g.at;
  }

  settle_gate-Refines :
      (s : MilestoneSpec) (n : ℕ) (ss : List ValidatorSummary) (r : Option RubricResult) (w : World)
      → AtGate w
      → Refines i.attempt_id p (settle_gate ports i s n ss r w)
  settle_gate-Refines s n ss r w g =
      elim (Bool-cases (level_allowed (outcome_of s ss r).rubric_level)) [
        | inr a ↦ rw (settle_gate-refused ports i s n ss r w g.row there a) (inr g.at)
        | inl a ↦ by_end _ (
            settle_gate-Ends ports i s n ss r w g.row there a (
              IsAt-HasRows i.attempt_id (decide (clears s ss r) p)
                (record w { milestones = gated_table ports i s ss r g.row w }) gated))
      ]
    where
      there : get_milestone i.attempt_id i.milestone_key w ≡ some g.row
      there = get_milestone-list_rows i.attempt_id i.milestone_key w g.at.distinct ∙ g.found

      gated : IsAt i.attempt_id (decide (clears s ss r) p) (gated_table ports i s ss r g.row w)
      gated =
          subst (λ q. IsAt i.attempt_id q (gated_table ports i s ss r g.row w))
            (decide-enter (clears s ss r) p)
            (gate-IsAt i.attempt_id i.milestone_key w.milestones g.row g.found g.open_for (enter p)
              w.now (outcome_of s ss r) g.at)

      by_end :
          (o : Outcome SubmitMilestoneResult)
          → Ends (clears s ss r) (gated_table ports i s ss r g.row w) o
          → Refines i.attempt_id p o
      by_end (ok res u) (a, b) = rw (a, b) gated
      by_end (err e u) h = absurd h

  graded-Refines :
      (s : MilestoneSpec) (n : ℕ) (ss : List ValidatorSummary) (w : World)
      → AtGate w
      → Refines i.attempt_id p
          (bind (grade_if_used ports s i.design_text w) (settle_gate ports i s n ss))
  graded-Refines s n ss w g = elim (grade_if_used-Looks ports s i.design_text w) [
    | inl (r, e) ↦ rw e (settle_gate-Refines s n ss r w g)
    | inr (x, e) ↦ rw e (inr g.at)
  ]

  validated-Refines :
      (s : MilestoneSpec) (n : ℕ) (w : World) (o : Outcome (List ValidatorSummary))
      → Keeps w o
      → AtGate w
      → Refines i.attempt_id p (
          bind o
            (λ ss v. bind (grade_if_used ports s i.design_text v) (settle_gate ports i s n ss)))
  validated-Refines s n w (ok ss v) k g = graded-Refines s n ss v (AtGate-same w v k g)
  validated-Refines s n w (err e v) k g = inr (AtGate-same w v k g).at

  entered :
      (w : World) (r : MilestoneStateRow)
      → IsAt i.attempt_id p w.milestones
      → row_of i w ≡ some r
      → submittable r.status ≡ true
      → AtGate (left (enter_gate ports i w))
  entered w r h f a =
      let e = get_milestone-list_rows i.attempt_id i.milestone_key w h.distinct ∙ f in
      let m = (enter_gate-marks ports i w r e).1 in
      record {
        row = submitted_row w.now r;
        found =
            rw
              (
                m,
                list_rows-map
                    (set_where (is_row i.attempt_id i.milestone_key) (submitted_row w.now))
                    (λ x. ground arith) (λ x. ground arith) i.attempt_id w.milestones,
              )
              (find-marked i.attempt_id i.milestone_key w.now 0
                (list_rows i.attempt_id w.milestones) r h.laid f);
        open_for = refl;
        at = rw m (mark-IsAt i.attempt_id i.milestone_key w.milestones r f a p w.now h);
      }

  -- Whatever milestone is submitted for a project whose milestones are at a point of the sequence,
  -- they are at one afterwards: the one that the returned verdict leads to, or, where the submission
  -- ends with an error, the same one or the same one with its milestone at the gate.
  pub submit_milestone-Refines :
      (w : World)
      → IsAt i.attempt_id p w.milestones
      → Refines i.attempt_id p (submit_milestone ports execute i w)
  unfolding submit_milestone
  submit_milestone-Refines w h = elim (admitted_cases ports i w (IsAt-HasRows i.attempt_id p w h)) [
    | inr (x, e) ↦ rw e (inl h)
    | inl a ↦
        let e = get_milestone-list_rows i.attempt_id i.milestone_key w h.distinct ∙ a.found in
        let (n, f) = ok_of (enter_gate ports i w) (enter_gate-marks ports i w a.row e).0 in
        let u = left (enter_gate ports i w) in
        rw (a.lets, f)
          (validated-Refines a.spec n u (run_milestone_validators execute i.attempt_id a.spec u)
            (run_milestone_validators-Keeps execute i.attempt_id a.spec u)
            (entered w a.row h a.found a.open_for))
  ]
