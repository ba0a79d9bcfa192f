-- ===== src/Project/Service/Listing.antt =====
-- `listMilestones` on an attempt without milestones: the seeding, and its end.
use skillfyme_hands_on.Base.{
  ℕ, suc, ◌≡◌, ◌∙◌, refl, Bool-cases, none, some, List, [], ◌∷◌, inl, inr, Option, arith, length,
  filter,
}
use skillfyme_hands_on.EventStore.Events.{system, milestone_submitted}
use skillfyme_hands_on.Store.Milestones.{milestone_open, MilestoneStateRow}
use skillfyme_hands_on.Store.Rows.{Attempt, ActivityVersion, World}
use skillfyme_hands_on.Store.Monad.{M, ◌>>=◌, ◌>>◌, bind, ok, left, append_typed_event}
use skillfyme_hands_on.Store.Repository.{find_by_id}
use skillfyme_hands_on.Project.Repository.{of_attempt, list_rows, seed_rows, order_by_ordinal}
use skillfyme_hands_on.Project.Ports.{Scalar}
use skillfyme_hands_on.Project.Progress.{working, IsAt}
use skillfyme_hands_on.Project.Progress.Seeds.{DistinctSpecs, seed_rows-IsAt}
use skillfyme_hands_on.Project.Service.Specs.{
  MilestoneSpec, MilestoneView, attempt_version, is_project, specs_from, load_milestone_specs,
  seed_inputs, seed, views, list_milestones,
}
use skillfyme_hands_on.Project.Service.Keeps.{list_milestones_lem}
use skillfyme_hands_on.Project.Service.Submits.{IsAt-HasRows}

specs_from-same :
    (o : Option (Attempt × ActivityVersion)) (w u : World) (specs : List MilestoneSpec)
    → specs_from o w ≡ ok specs w
    → specs_from o u ≡ ok specs u
unfolding specs_from
specs_from-same none w u specs h = cc
specs_from-same (some (a, v)) w u specs h = elim (Bool-cases (is_project a.mode)) [
  | inl b ↦ ground arith
  | inr b ↦ ground arith
]

-- The seeding of an attempt whose specs are there.
seeded : ℕ → List MilestoneSpec → World → World
seeded id specs w = left (
    append_typed_event id system (milestone_submitted none)
      (record w { milestones = seed_rows id (seed_inputs 0 specs) w.milestones }))

seed_lem :
    (id : ℕ) (w : World) (specs : List MilestoneSpec)
    → load_milestone_specs id w ≡ ok specs w
    → seed id w ≡ ok tt (seeded id specs w)
unfolding seed seeded
seed_lem id w specs e = rw e refl

again_lem :
    (again : M (List MilestoneView)) (id : ℕ) (w : World) (specs : List MilestoneSpec)
    → load_milestone_specs id w ≡ ok specs w
    → (seed id >> (again >>= λ _. again)) w ≡ bind (again (seeded id specs w)) (λ _. again)
again_lem again id w specs e = rw (seed_lem id w specs e) refl

module _ (read : ℕ → Scalar) where
  list_unseeded :
      (n id : ℕ) (w : World) (specs : List MilestoneSpec)
      → load_milestone_specs id w ≡ ok specs w
      → list_rows id w.milestones ≡ []
      → list_milestones read (suc n) id w
        ≡ bind (list_milestones read n id (seeded id specs w)) (λ _. list_milestones read n id)
  unfolding list_milestones
  list_unseeded n id w specs e h =
      rw (e, h, list_milestones) (again_lem (list_milestones read n id) id w specs e)

  empty_rows :
      (id : ℕ) (t : List MilestoneStateRow) → filter (of_attempt id) t ≡ [] → list_rows id t ≡ []
  unfolding list_rows order_by_ordinal
  empty_rows id t e = rw e refl

  -- A project that has no milestones yet gets those of its specs when they are first listed, on any
  -- fuel of at least two: the list is that of the rows that are there then, and they are at the
  -- beginning of the sequence, with the first milestone open and the others locked.
  pub list_milestones-seeds :
      (n id : ℕ) (w : World) (s : MilestoneSpec) (ss : List MilestoneSpec)
      → load_milestone_specs id w ≡ ok (s ∷ ss) w
      → filter (of_attempt id) w.milestones ≡ []
      → DistinctSpecs (s ∷ ss)
      → (u : World) × (list_milestones read (suc (suc n)) id w
          ≡ ok (views read (s ∷ ss) (list_rows id u.milestones)) u)
        × IsAt id (working 0 milestone_open (length ss)) u.milestones
  unfolding seeded load_milestone_specs find_by_id
  list_milestones-seeds n id w s ss e f d =
      let u = seeded id (s ∷ ss) w in
      let at = seed_rows-IsAt id s ss w.milestones f d in
      let g : load_milestone_specs id u ≡ ok (s ∷ ss) u =
        specs_from-same (attempt_version id w) w u (s ∷ ss) e in
      let l = list_milestones_lem read n id u (s ∷ ss) (IsAt-HasRows id _ u at) g in
      (u, list_unseeded (suc n) id w (s ∷ ss) e (empty_rows id w.milestones f) ∙ rw (l, l) refl, at)
