-- ===== src/Project/Service/Refused.antt =====
-- The refusals of `submitMilestone`.
use skillfyme_hands_on.Base.{
  ℕ, zero, suc, ◌+◌, ◌<◌, ◌≡◌, refl, false, some, List, [], ◌∷◌, find, inl, inr, Bool-cases, arith,
  Option, ltb, ◌==◌, if◌then◌else◌,
}
use skillfyme_hands_on.Store.Milestones.{
  Milestone, MilestoneStatus, milestone_locked, gated_pass, MilestoneStateRow,
}
use skillfyme_hands_on.Store.Rows.{ValidatorSpec, World}
use skillfyme_hands_on.Store.Monad.{
  project_error, milestone_is_locked, milestone_already_passed, ok, err,
}
use skillfyme_hands_on.Evaluation.ValidatorRunner.{ResultStatus}
use skillfyme_hands_on.Project.Repository.Rows.{has_key}
use skillfyme_hands_on.Project.Ports.{Ports}
use skillfyme_hands_on.Project.Progress.{
  Progress, finished, working, passed_count, Laid, AllPassed, Working, Shows, IsAt,
}
use skillfyme_hands_on.Project.Progress.Steps.{find-Locked, find-AllPassed}
use skillfyme_hands_on.Project.Progress.Race.{find-beyond}
use skillfyme_hands_on.Project.Service.Specs.{MilestoneSpec, load_milestone_specs}
use skillfyme_hands_on.Project.Service.Operations.{SubmitInput, find_spec, admit, submit_milestone}
use skillfyme_hands_on.Project.Service.Submits.{IsAt-HasRows, find-views, row_of, admitted_lem}

-- A milestone before the point reached has passed, one after it is locked.
Working-status :
    (id : ℕ) (key : Milestone) (k d l : ℕ) (s : MilestoneStatus) (rs : List MilestoneStateRow)
    (r : MilestoneStateRow)
    → Laid id k rs
    → Working d s l rs
    → find (has_key key) rs ≡ some r
    → (r.ordinal < k + d → r.status ≡ gated_pass)
      × (k + d < r.ordinal → r.status ≡ milestone_locked)
Working-status id key k zero l s [] r p h e = absurd h
Working-status id key k (suc d) l s [] r p h e = absurd h
Working-status id key k zero l s (x ∷ xs) r (a, o, n, ps) (h, hs) e =
    elim (Bool-cases (has_key key x)) [
      | inl y ↦ (λ i. absurd (ground arith), λ i. absurd (ground arith))
      | inr y ↦
          let f : find (has_key key) xs ≡ some r = ground arith in
          let b = find-beyond id key (k + 1) xs r ps f in
          (λ i. absurd (omega arith), λ i. find-Locked key l xs r hs f)
    ]
Working-status id key k (suc d) l s (x ∷ xs) r (a, o, n, ps) (h, hs) e =
    elim (Bool-cases (has_key key x)) [
      | inl y ↦ (λ i. ground arith, λ i. absurd (ground arith))
      | inr y ↦
          let (f, g) = Working-status id key (k + 1) d l s xs r ps hs (ground arith) in
          (λ i. f (omega arith), λ i. g (omega arith))
    ]

AllPassed-below :
    (id : ℕ) (key : Milestone) (k n : ℕ) (rs : List MilestoneStateRow) (r : MilestoneStateRow)
    → Laid id k rs
    → AllPassed n rs
    → find (has_key key) rs ≡ some r
    → r.ordinal < k + n
AllPassed-below id key k n [] r p h e = absurd (ground arith)
AllPassed-below id key k zero (x ∷ xs) r p h e = absurd h
AllPassed-below id key k (suc n) (x ∷ xs) r (a, o, m, ps) (h, hs) e =
    ground (arith, AllPassed-below id key (k + 1) n xs r ps hs)

IsAt-status :
    (id : ℕ) (key : Milestone) (p : Progress) (rs : List MilestoneStateRow) (r : MilestoneStateRow)
    → Laid id 0 rs
    → Shows p rs
    → find (has_key key) rs ≡ some r
    → (r.ordinal < passed_count p → r.status ≡ gated_pass)
      × (passed_count p < r.ordinal → r.status ≡ milestone_locked)
IsAt-status id key (finished n) rs r p h e = (
  λ i. find-AllPassed key n rs r h e,
  λ i. absurd (let b = AllPassed-below id key 0 n rs r p h e in omega arith),
)
IsAt-status id key (working d s l) rs r p h e =
    let (f, g) = Working-status id key 0 d l s rs r p h e in
    (λ i. f (omega arith), λ i. g (omega arith))

module _ (ports : Ports) (execute : Option ℕ → ValidatorSpec → ℕ → Option ResultStatus)
    (i : SubmitInput) where
  -- A submission of a milestone that stands before the point a project has reached is refused as
  -- passed already, and one of a milestone that stands after it as locked; neither changes anything.
  pub submit_milestone-refused :
      (p : Progress) (w : World) (specs : List MilestoneSpec) (s : MilestoneSpec)
      (r : MilestoneStateRow)
      → IsAt i.attempt_id p w.milestones
      → load_milestone_specs i.attempt_id w ≡ ok specs w
      → find_spec i.milestone_key specs ≡ some s
      → row_of i w ≡ some r
      → (r.ordinal == passed_count p) ≡ false
      → submit_milestone ports execute i w
        ≡ err
            (project_error (
              if ltb r.ordinal (passed_count p)
              then milestone_already_passed
              else milestone_is_locked))
            w
  unfolding submit_milestone admit
  submit_milestone-refused p w specs s r h e f g n =
      let (b, c) = IsAt-status i.attempt_id i.milestone_key p _ r h.laid h.shows g in
      let a = admitted_lem ports i w specs s (IsAt-HasRows i.attempt_id p w h) e f in
      let v = find-views ports.read_numeric specs i.milestone_key _ r g in
      elim (Bool-cases (ltb r.ordinal (passed_count p))) [
        | inl j ↦ rw (a, v, j, b (ground arith)) refl
        | inr j ↦ rw (a, v, j, c (ground arith)) refl
      ]
