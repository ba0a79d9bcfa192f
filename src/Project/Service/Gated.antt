-- ===== src/Project/Service/Gated.antt =====
-- `submitMilestone` refines the sequence of the milestones.
use skillfyme_hands_on.Base.{
  ℕ, ◌+◌, ◌≡◌, refl, sym, subst, Bool, true, false, ◌&&◌, Option, some, List, map, inl, inr,
  Bool-cases, Option-cases, arith,
}
use skillfyme_hands_on.Store.Milestones.{Milestone, MilestoneStateRow}
use skillfyme_hands_on.Store.Rows.{World}
use skillfyme_hands_on.Store.Monad.{Outcome, ok, err, fault, left}
use skillfyme_hands_on.Project.Repository.{
  GateOutcome, is_row, set_where, submitted_row, get_milestone, mark_submitted, level_allowed,
  apply_gate_outcome, gate_table, stamp_submission_outcome, record_submission,
}
use skillfyme_hands_on.Project.Ports.{Ports, record_milestone_submission, resolve_repo_ref}
use skillfyme_hands_on.Project.Service.Specs.{MilestoneSpec}
use skillfyme_hands_on.Project.Service.Gates.{
  ValidatorSummary, RubricResult, clears, compute_milestone_score,
}
use skillfyme_hands_on.Project.Service.Operations.{
  SubmitInput, SubmitMilestoneResult, outcome_of, is_final, conclude, enter_gate,
  next_opened_milestone, settle_gate, apply_env_lifecycle,
}
use skillfyme_hands_on.Project.Service.Keeps.{HasRows, apply_env_lifecycle-Keeps, finalize-Keeps}

abbrev pub is_ok {ℓ} : {A : Type ℓ} → Outcome A → Bool
is_ok (ok a w) = true
is_ok (err e w) = false

pub ok_of {ℓ} : {A : Type ℓ} (o : Outcome A) → is_ok o ≡ true → (a : A) × (o ≡ ok a (left o))
ok_of (ok a w) e = (a, refl)
ok_of (err x w) e = absurd (ground arith)

-- The submission ends well with that verdict, and leaves those milestones.
abbrev pub Ends : Bool → List MilestoneStateRow → Outcome SubmitMilestoneResult → Type 0
Ends b t (ok res u) = (res.passed ≡ b) × (u.milestones ≡ t)
Ends b t (err e u) = ⊥

module _ (ports : Ports) (i : SubmitInput) where
  abbrev pub gated_table :
      MilestoneSpec
      → List ValidatorSummary
      → Option RubricResult
      → MilestoneStateRow
      → World
      → List MilestoneStateRow
  gated_table s ss g r w =
      gate_table i.attempt_id i.milestone_key w.now r.ordinal (outcome_of s ss g) w.milestones

  abbrev pub marked : World → List MilestoneStateRow
  marked w =
      map (set_where (is_row i.attempt_id i.milestone_key) (submitted_row w.now)) w.milestones

  mark_submitted_lem :
      (w : World) (r : MilestoneStateRow)
      → get_milestone i.attempt_id i.milestone_key w ≡ some r
      → mark_submitted i.attempt_id i.milestone_key w
        ≡ ok (r.attempt_count + 1) (record w { milestones = marked w })
  unfolding mark_submitted
  mark_submitted_lem w r e = rw (e, mark_submitted) refl

  pub enter_gate-marks :
      (w : World) (r : MilestoneStateRow)
      → get_milestone i.attempt_id i.milestone_key w ≡ some r
      → (is_ok (enter_gate ports i w) ≡ true)
        × ((left (enter_gate ports i w)).milestones ≡ marked w)
        × ((left (enter_gate ports i w)).now ≡ w.now)
  unfolding enter_gate record_submission record_milestone_submission
  enter_gate-marks w r e =
      let v = record w { milestones = marked w } in
      let m = mark_submitted_lem w r e in
      elim (Option-cases (resolve_repo_ref i.attempt_id v)) [
        | inl f ↦ rw (m, f) (refl, refl, refl)
        | inr (repo, f) ↦ rw (m, f) (refl, refl, refl)
      ]

  env_is_ok :
      (id : ℕ) (s : MilestoneSpec) (passed : Bool) (w : World)
      → is_ok (apply_env_lifecycle ports id s passed w) ≡ true
  unfolding apply_env_lifecycle
  env_is_ok id s passed w = ground arith

  conclude-Ends :
      (s : MilestoneSpec) (ss : List ValidatorSummary) (g : Option RubricResult)
      (next : Option Milestone) (w : World)
      → HasRows i.attempt_id w
      → Ends (clears s ss g) w.milestones (conclude ports i s ss g next w)
  unfolding conclude
  conclude-Ends s ss g next w h =
      elim (Bool-cases (is_final ports i.milestone_key && clears s ss g)) [
        | inl b ↦ rw b (refl, finalize-Keeps ports i.attempt_id _ h)
        | inr b ↦ rw b (refl, refl)
      ]

  apply_gate_lem :
      (o : GateOutcome) (w : World) (r : MilestoneStateRow)
      → get_milestone i.attempt_id i.milestone_key w ≡ some r
      → level_allowed o.rubric_level ≡ true
      → apply_gate_outcome i.attempt_id i.milestone_key o w
        ≡ ok tt (record w {
          milestones = gate_table i.attempt_id i.milestone_key w.now r.ordinal o w.milestones;
        })
  unfolding apply_gate_outcome
  apply_gate_lem o w r e a = rw (e, apply_gate_outcome, a) refl

  -- A level that the table does not take ends the submission, with the milestone at its gate.
  pub settle_gate-refused :
      (s : MilestoneSpec) (n : ℕ) (ss : List ValidatorSummary) (g : Option RubricResult) (w : World)
      (r : MilestoneStateRow)
      → get_milestone i.attempt_id i.milestone_key w ≡ some r
      → level_allowed (outcome_of s ss g).rubric_level ≡ false
      → settle_gate ports i s n ss g w ≡ err fault w
  unfolding settle_gate apply_gate_outcome
  settle_gate-refused s n ss g w r e a = rw (e, apply_gate_outcome, a) refl

  -- The gate's outcome is written, and the submission ends well.
  pub settle_gate-Ends :
      (s : MilestoneSpec) (n : ℕ) (ss : List ValidatorSummary) (g : Option RubricResult) (w : World)
      (r : MilestoneStateRow)
      → get_milestone i.attempt_id i.milestone_key w ≡ some r
      → level_allowed (outcome_of s ss g).rubric_level ≡ true
      → HasRows i.attempt_id (record w { milestones = gated_table s ss g r w })
      → Ends (clears s ss g) (gated_table s ss g r w) (settle_gate ports i s n ss g w)
  unfolding settle_gate stamp_submission_outcome
  settle_gate-Ends s n ss g w r e a h =
      let y : World =
        stamp_submission_outcome i.attempt_id i.milestone_key n (clears s ss g)
          (compute_milestone_score s ss g) (record w { milestones = gated_table s ss g r w }) in
      let z = left (apply_env_lifecycle ports i.attempt_id s (clears s ss g) y) in
      let (_, f) = ok_of _ (env_is_ok i.attempt_id s (clears s ss g) y) in
      let k = apply_env_lifecycle-Keeps ports i.attempt_id s (clears s ss g) y in
      rw (apply_gate_lem (outcome_of s ss g) w r e a, f)
        (subst
          (λ t. Ends (clears s ss g) t (
            conclude ports i s ss g
              (next_opened_milestone i.attempt_id i.milestone_key (clears s ss g) z) z))
          k
          (conclude-Ends s ss g
            (next_opened_milestone i.attempt_id i.milestone_key (clears s ss g) z) z
            (subst (λ t. HasRows i.attempt_id (record w { milestones = t })) (sym k) h)))
