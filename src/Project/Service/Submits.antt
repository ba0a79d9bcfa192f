-- ===== src/Project/Service/Submits.antt =====
-- The milestones of a project under `submitMilestone`.
use skillfyme_hands_on.Base.{
  ℕ, zero, suc, ◌≡◌, ◌∙◌, refl, true, Option, some, none, List, [], ◌∷◌, find, ◌⊎◌, inl, inr,
  Option-cases, arith,
}
use skillfyme_hands_on.Store.Milestones.{
  Milestone, MilestoneStatus, milestone_locked, milestone_open, milestone_in_gate, gated_pass,
  gated_fail, MilestoneStateRow,
}
use skillfyme_hands_on.Store.Rows.{World}
use skillfyme_hands_on.Store.Monad.{
  return, Error, not_found, Outcome, ok, err, M, bind, find_or_throw,
}
use skillfyme_hands_on.Project.Repository.{list_rows}
use skillfyme_hands_on.Project.Repository.Rows.{has_key}
use skillfyme_hands_on.Project.Ports.{Scalar, Ports}
use skillfyme_hands_on.Project.Progress.{
  Progress, finished, working, submittable, IsLive, Shows, IsAt,
}
use skillfyme_hands_on.Project.Service.Specs.{
  MilestoneSpec, MilestoneView, load_milestone_specs, view_of, spec_by_key, views,
}
use skillfyme_hands_on.Project.Service.Operations.{
  SubmitInput, find_spec, find_view, admit, admitted,
}
use skillfyme_hands_on.Project.Service.Keeps.{load-Looks, HasRows, list_milestones_lem}

-- A project's milestones are listed.
pub IsAt-HasRows : (id : ℕ) (p : Progress) (w : World) → IsAt id p w.milestones → HasRows id w
IsAt-HasRows id p w h = rows p (list_rows id w.milestones) refl h.shows h.live
  where
    rows :
        (p : Progress) (rs : List MilestoneStateRow)
        → list_rows id w.milestones ≡ rs
        → Shows p rs
        → IsLive p
        → HasRows id w
    rows (finished zero) rs e s l = absurd l
    rows (finished (suc n)) [] e s l = absurd s
    rows (working zero q m) [] e s l = absurd s
    rows (working (suc d) q m) [] e s l = absurd s
    rows (finished (suc n)) (r ∷ rs) e s l = (r, rs, e)
    rows (working d q m) (r ∷ rs) e s l = (r, rs, e)

-- The view of a milestone is that of its row.
pub find-views :
    (read : ℕ → Scalar) (specs : List MilestoneSpec) (key : Milestone) (rs : List MilestoneStateRow)
    (r : MilestoneStateRow)
    → find (has_key key) rs ≡ some r
    → find_view key (views read specs rs)
      ≡ some (view_of read (spec_by_key r.milestone_key specs) r)
unfolding views
find-views read specs key [] r e = cc
find-views read specs key (x ∷ xs) r e = ground (arith, find-views read specs key xs r)

find-views-none :
    (read : ℕ → Scalar) (specs : List MilestoneSpec) (key : Milestone) (rs : List MilestoneStateRow)
    → find (has_key key) rs ≡ none
    → find_view key (views read specs rs) ≡ none
unfolding views
find-views-none read specs key [] e = refl
find-views-none read specs key (x ∷ xs) e = ground (arith, find-views-none read specs key xs)

admit-submittable :
    (s : MilestoneStatus) (w : World)
    → ((submittable s ≡ true) × (admit s w ≡ ok tt w)) ⊎ ((e : Error) × (admit s w ≡ err e w))
unfolding admit
admit-submittable milestone_locked w = inr (_, refl)
admit-submittable gated_pass w = inr (_, refl)
admit-submittable milestone_open w = inl (refl, refl)
admit-submittable milestone_in_gate w = inl (refl, refl)
admit-submittable gated_fail w = inl (refl, refl)

-- The row of the milestone that a submission names.
abbrev pub row_of : SubmitInput → World → Option MilestoneStateRow
row_of i w = find (has_key i.milestone_key) (list_rows i.attempt_id w.milestones)

-- A submission that is let through to the gate: its milestone may be submitted, and nothing has
-- changed yet.
pub record IsAdmitted (i : SubmitInput) (w : World) (o : Outcome MilestoneSpec) : Type 0 where
  pub spec : MilestoneSpec
  pub row : MilestoneStateRow
  pub found : row_of i w ≡ some row
  pub open_for : submittable row.status ≡ true
  pub lets : o ≡ ok spec w

module _ (ports : Ports) (i : SubmitInput) where
  abbrev rest_of : MilestoneSpec → MilestoneView → M MilestoneSpec
  rest_of s v w = bind (admit v.status w) λ _. return s

  pub admitted_lem :
      (w : World) (specs : List MilestoneSpec) (s : MilestoneSpec)
      → HasRows i.attempt_id w
      → load_milestone_specs i.attempt_id w ≡ ok specs w
      → find_spec i.milestone_key specs ≡ some s
      → admitted ports i w
        ≡ bind
            (find_or_throw
              (find_view i.milestone_key
                (views ports.read_numeric specs (list_rows i.attempt_id w.milestones)))
              w)
            (rest_of s)
  unfolding admitted
  admitted_lem w specs s h e f =
      rw (e, f, list_milestones_lem ports.read_numeric 1 i.attempt_id w specs h e) refl

  pub admitted_cases :
      (w : World)
      → HasRows i.attempt_id w
      → IsAdmitted i w (admitted ports i w) ⊎ ((e : Error) × (admitted ports i w ≡ err e w))
  unfolding admitted
  admitted_cases w h = elim (load-Looks i.attempt_id w) [
    | inr (x, e) ↦ inr (x, rw e refl)
    | inl (specs, e) ↦ elim (Option-cases (find_spec i.milestone_key specs)) [
      | inl f ↦ inr (not_found, rw (e, f) refl)
      | inr (s, f) ↦ elim (Option-cases (row_of i w)) [
        | inl g ↦ inr (
          not_found,
          admitted_lem w specs s h e f
              ∙ rw (find-views-none ports.read_numeric specs i.milestone_key _ g) refl,
        )
        | inr (r, g) ↦ elim (admit-submittable r.status w) [
          | inr (x, a) ↦ inr (
            x,
            admitted_lem w specs s h e f
                ∙ rw (find-views ports.read_numeric specs i.milestone_key _ r g, a) refl,
          )
          | inl (b, a) ↦ inl (record {
            spec = s;
            row = r;
            found = g;
            open_for = b;
            lets =
                admitted_lem w specs s h e f
                ∙ rw (find-views ports.read_numeric specs i.milestone_key _ r g, a) refl;
          })
        ]
      ]
    ]
  ]
