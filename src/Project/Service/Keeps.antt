-- ===== src/Project/Service/Keeps.antt =====
-- The steps of the project mode that leave the milestones alone.
use skillfyme_hands_on.Base.{
  ℕ, suc, ◌≡◌, ◌∙◌, refl, Bool, Option, some, none, List, [], ◌∷◌, ◌⊎◌, inl, inr, Bool-cases,
  Option-cases, arith,
}
use skillfyme_hands_on.Store.Milestones.{MilestoneStateRow}
use skillfyme_hands_on.Store.Rows.{TaskSpec, ValidatorSpec, World}
use skillfyme_hands_on.Store.Monad.{
  Error, fault, project_error, project_attempt_not_found, not_a_project, Outcome, ok, err, M, bind,
  left,
}
use skillfyme_hands_on.Evaluation.ValidatorRunner.{
  ResultStatus, ValidatorResult, results_of, record_results, run_task, run_tasks, run,
}
use skillfyme_hands_on.Evaluation.Service.{take_or_throw}
use skillfyme_hands_on.Project.Repository.{list_rows}
use skillfyme_hands_on.Project.Ports.{Scalar, Ports}
use skillfyme_hands_on.Project.Service.Specs.{
  MilestoneSpec, attempt_version, specs_of, load_milestone_specs, views, list_milestones,
  is_project,
}
use skillfyme_hands_on.Project.Service.Gates.{
  uses_rubric, has_none, run_milestone_validators, grade_milestone_rubric, grade_if_used,
}
use skillfyme_hands_on.Project.Service.Operations.{apply_env_lifecycle, finalize_project_score}

-- The world that is left has the milestones of `w`.
abbrev pub Keeps {ℓ} : {A : Type ℓ} → World → Outcome A → Type 0
Keeps w o = (left o).milestones ≡ w.milestones

pub Keeps-bind {ℓ κ} :
    {A : Type ℓ} {B : Type κ} (w : World) (o : Outcome A) (f : A → M B)
    → Keeps w o
    → ((a : A) (v : World) → v.milestones ≡ w.milestones → Keeps v (f a v))
    → Keeps w (bind o f)
Keeps-bind w (ok a v) f k h = h a v k ∙ k
Keeps-bind w (err e v) f k h = k

-- A step that only looks: it ends with a result or an error in the world it began in.
abbrev pub Looks {ℓ} : {A : Type ℓ} → World → Outcome A → Type ℓ
Looks {A = A} w o = ((a : A) × (o ≡ ok a w)) ⊎ ((e : Error) × (o ≡ err e w))

pub Looks-bind {ℓ κ} :
    {A : Type ℓ} {B : Type κ} (w : World) (o : Outcome A) (f : A → M B)
    → Looks w o
    → ((a : A) → Keeps w (f a w))
    → Keeps w (bind o f)
Looks-bind w o f (inl (a, h)) k = rw h (k a)
Looks-bind w o f (inr (e, h)) k = rw h refl

pub load-Looks : (id : ℕ) (w : World) → Looks w (load_milestone_specs id w)
unfolding load_milestone_specs specs_of
load-Looks id w = elim (Option-cases (attempt_version id w)) [
  | inl e ↦ inr (project_error project_attempt_not_found, rw (e, load_milestone_specs) refl)
  | inr ((a, v), e) ↦ elim (Bool-cases (is_project a.mode)) [
    | inl b ↦ inl (specs_of v.milestones, rw (e, load_milestone_specs, b) refl)
    | inr b ↦ inr (project_error not_a_project, rw (e, load_milestone_specs, b) refl)
  ]
]

-- The attempt has milestones.
abbrev pub HasRows : ℕ → World → Type 0
HasRows id w =
    (r : MilestoneStateRow) × (rs : List MilestoneStateRow) × (list_rows id w.milestones ≡ r ∷ rs)

-- Where an attempt has milestones they are listed, on any fuel.
pub list_milestones_lem :
    (read : ℕ → Scalar) (n id : ℕ) (w : World) (specs : List MilestoneSpec)
    → HasRows id w
    → load_milestone_specs id w ≡ ok specs w
    → list_milestones read (suc n) id w ≡ ok (views read specs (list_rows id w.milestones)) w
unfolding list_milestones
list_milestones_lem read n id w specs (r, rs, h) e = rw (e, h, list_milestones) refl

pub list_milestones-Looks :
    (read : ℕ → Scalar) (n id : ℕ) (w : World)
    → HasRows id w
    → Looks w (list_milestones read (suc n) id w)
unfolding list_milestones
list_milestones-Looks read n id w h = elim (load-Looks id w) [
  | inl (specs, e) ↦ inl (_, list_milestones_lem read n id w specs h e)
  | inr (x, e) ↦ inr (x, rw (e, list_milestones) refl)
]

module _ (execute : ValidatorSpec → ℕ → Option ResultStatus) where
  record_results-Keeps :
      (id : ℕ) (rs : List ValidatorResult) (w : World) → Keeps w (record_results execute id rs w)
  record_results-Keeps id [] w = refl
  record_results-Keeps id (r ∷ rs) w = record_results-Keeps id rs _

  run_tasks-Keeps : (id : ℕ) (ts : List TaskSpec) (w : World) → Keeps w (run_tasks execute id ts w)
  unfolding run_tasks run_task
  run_tasks-Keeps id [] w = refl
  run_tasks-Keeps id (t ∷ ts) w =
      Keeps-bind w (run_task execute id t w) _
        (Keeps-bind w (record_results execute id (results_of execute t.validators) w) _
          (record_results-Keeps id (results_of execute t.validators) w) (λ a v k. refl))
        (λ s v k.
          Keeps-bind v (run_tasks execute id ts v) _ (run_tasks-Keeps id ts v) (λ ss u j. refl))

  run-Keeps : (id : ℕ) (ts : List TaskSpec) (w : World) → Keeps w (run execute id ts w)
  unfolding run
  run-Keeps id ts w = run_tasks-Keeps id ts _

take_or_throw-Looks {ℓ} : {A : Type ℓ} (o : Option A) (w : World) → Looks w (take_or_throw o w)
take_or_throw-Looks none w = inr (_, refl)
take_or_throw-Looks (some a) w = inl (a, refl)

pub run_milestone_validators-Keeps :
    (execute : Option ℕ → ValidatorSpec → ℕ → Option ResultStatus) (id : ℕ) (s : MilestoneSpec)
    (w : World)
    → Keeps w (run_milestone_validators execute id s w)
unfolding run_milestone_validators
run_milestone_validators-Keeps execute id s w = elim (Bool-cases (has_none s.task_keys)) [
  | inl b ↦ rw (b, run_milestone_validators) refl
  | inr b ↦
      rw (b, run_milestone_validators)
        (Looks-bind w (take_or_throw (attempt_version id w) w) _ (take_or_throw-Looks _ w) λ (a, v).
          Keeps-bind w (run (execute a.environment_id) id _ w) _
            (run-Keeps (execute a.environment_id) id _ w) (λ ss u k. refl))
]

module _ (ports : Ports) where
  pub grade_if_used-Looks :
      (s : MilestoneSpec) (text : Option ℕ) (w : World) → Looks w (grade_if_used ports s text w)
  unfolding grade_if_used
  grade_if_used-Looks s text w = elim (Bool-cases (uses_rubric s.gate)) [
    | inr b ↦ inl (none, rw (b, grade_if_used) refl)
    | inl b ↦ elim (Option-cases (grade_milestone_rubric ports s text)) [
      | inl e ↦ inr (fault, rw (b, grade_if_used, e) refl)
      | inr (r, e) ↦ inl (some r, rw (b, grade_if_used, e) refl)
    ]
  ]

  pub apply_env_lifecycle-Keeps :
      (id : ℕ) (s : MilestoneSpec) (passed : Bool) (w : World)
      → Keeps w (apply_env_lifecycle ports id s passed w)
  unfolding apply_env_lifecycle
  apply_env_lifecycle-Keeps id s passed w = ground arith

  pub finalize-Keeps :
      (id : ℕ) (w : World) → HasRows id w → Keeps w (finalize_project_score ports id w)
  unfolding finalize_project_score
  finalize-Keeps id w h =
      Looks-bind w (list_milestones ports.read_numeric 2 id w) _
        (list_milestones-Looks ports.read_numeric 1 id w h)
        λ vs. Looks-bind w (load_milestone_specs id w) _ (load-Looks id w) λ specs. refl
