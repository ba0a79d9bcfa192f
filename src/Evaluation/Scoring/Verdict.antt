-- ===== src/Evaluation/Scoring/Verdict.antt =====
-- The scoring of an attempt within practice-core/src/modules/evaluation/evaluation.service.ts: what it
-- hands to the engine, and what an evaluation with the engine records.
use skillfyme_hands_on.Base.{
  ℕ, ◌≡◌, refl, ◌∙◌, ◌&&◌, subst, ap, find, Bool, true, false, ◌||◌, Option, none, some, List, [],
  ◌∷◌, all, map, ◌==◌, if◌then◌else◌, arith, Text, ◌↔◌,
}
use skillfyme_hands_on.Common.Status.{submitted, evaluating, passed, failed, same_status}
use skillfyme_hands_on.Common.Number.{Number, IsOrdered, ◌≼◌, nat}
use skillfyme_hands_on.Store.Rows.{
  Attempt, ValidatorSpec, ActivityVersion, LearnerActivityState, World,
}
use skillfyme_hands_on.Store.Monad.{ok}
use skillfyme_hands_on.Store.Repository.{find_by_id}
use skillfyme_hands_on.Evaluation.ValidatorRunner.{ResultStatus, TaskSummary, summary_of}
use skillfyme_hands_on.Evaluation.Service.{find_version, is_state_of, evaluate}
use skillfyme_hands_on.Evaluation.Service.Laws.{evaluate-verdict}
use skillfyme_hands_on.Evaluation.Scoring.Profile.{
  Criterion, technical_correctness, task_completion, efficiency, diagnostic_efficiency,
  hypothesis_ordering, troubleshooting, technical_implementation, reliability, unregistered,
  ScoringProfile, ProfileId, guided_lab_default, production_sim_default, unknown_profile,
  profile_of,
}
use skillfyme_hands_on.Evaluation.Scoring.Criteria.{CriterionInput, criterion_registry}
use skillfyme_hands_on.Evaluation.Scoring.Engine.{
  CriterionScore, ScoreBreakdown, weigh, weigh_with, breakdown_with, score,
}
use skillfyme_hands_on.Evaluation.Scoring.Bounds.{score_bounds}

-- What an evaluation reads beside the attempt's row and the summaries: the activity's profile, the
-- estimate, the counts of resets, of earlier validation runs and of the signals, and the commands with
-- the canonical paths of the faults.
pub record Evidence : Type 0 where
  pub profile : Option ProfileId
  pub estimated_minutes : ℕ
  pub reset_count : ℕ
  pub pre_submit_validation_run_count : ℕ
  pub blast_radius_violations : ℕ
  pub good_count : ℕ
  pub bad_count : ℕ
  pub command_sequence : List Text
  pub canonical_diagnostic_paths : List (List Text)

abbrev pub is_some {κ} : {A : Type κ} → Option A → Bool
is_some none = false
is_some (some x) = true

abbrev pub is_registered : Criterion → Bool
is_registered (unregistered k) = false
is_registered _ = true

module _ {ℓ} (W : Type ℓ) ⦃n : Number W⦄ where
  registry-is_some :
      (key : Criterion) → is_some (criterion_registry {W = W} key) ≡ is_registered key
  unfolding criterion_registry
  registry-is_some technical_correctness = refl
  registry-is_some task_completion = refl
  registry-is_some efficiency = refl
  registry-is_some diagnostic_efficiency = refl
  registry-is_some hypothesis_ordering = refl
  registry-is_some troubleshooting = refl
  registry-is_some technical_implementation = refl
  registry-is_some reliability = refl
  registry-is_some (unregistered k) = refl

  registered_profile :
      (o : Option ProfileId)
      → all (λ (key, weight). is_registered key) (profile_of {W = W} o).weights ≡ true
  unfolding profile_of
  registered_profile none = refl
  registered_profile (some guided_lab_default) = refl
  registered_profile (some production_sim_default) = refl
  registered_profile (some (unknown_profile k)) = refl

module _ {ℓ} {W : Type ℓ} ⦃n : Number W⦄ where
  weigh_with-is_some :
      (o : Option (CriterionInput W → W)) (i : CriterionInput W) (key : Criterion) (weight : W)
      (rest : Option (List (CriterionScore W)))
      → is_some (weigh_with o i key weight rest) ≡ is_some o && is_some rest
  weigh_with-is_some none i key weight rest = refl
  weigh_with-is_some (some fn) i key weight none = refl
  weigh_with-is_some (some fn) i key weight (some cs) = refl

  weigh-is_some :
      (i : CriterionInput W) (ws : List (Criterion × W))
      → is_some (weigh i ws) ≡ all (λ (key, weight). is_registered key) ws
  unfolding weigh
  weigh-is_some i [] = refl
  weigh-is_some i ((key, weight) ∷ ws) =
      weigh_with-is_some (criterion_registry key) i key weight (weigh i ws)
      ∙ cc (registry-is_some W key, weigh-is_some i ws)

  breakdown_with-is_some :
      (p : ScoringProfile W) (i : CriterionInput W) (first : Bool)
      (o : Option (List (CriterionScore W)))
      → is_some (breakdown_with p i first o) ≡ is_some o
  breakdown_with-is_some p i first none = refl
  breakdown_with-is_some p i first (some cs) = refl

  -- The engine throws exactly if the profile weighs a criterion that is not registered.
  pub score-is_some :
      (i : CriterionInput W) (p : ScoringProfile W) (first : Bool)
      → is_some (score i p first) ≡ all (λ (key, weight). is_registered key) p.weights
  unfolding score
  score-is_some i p first =
      breakdown_with-is_some p i first (weigh i p.weights) ∙ weigh-is_some i p.weights

  -- `criterionInput`; the times are in milliseconds.
  unfoldable pub criterion_input : Evidence → Attempt → List TaskSummary → CriterionInput W
  criterion_input e a ts = record {
    task_results = ts;
    hint_penalty_total = n.ratio a.hint_penalty_total 10_000;
    reset_count = e.reset_count;
    retry_index = a.retry_index;
    active_minutes = elim a.started_at [
      | none ↦ nat 0
      | some started ↦ elim a.submitted_at [
        | none ↦ nat 0
        | some ended ↦ n.div (n.sub (nat ended) (nat started)) (nat 60_000)
      ]
    ];
    estimated_minutes = nat e.estimated_minutes;
    pre_submit_validation_run_count = e.pre_submit_validation_run_count;
    blast_radius_violations = e.blast_radius_violations;
    good_count = e.good_count;
    bad_count = e.bad_count;
    command_sequence = e.command_sequence;
    canonical_diagnostic_paths = e.canonical_diagnostic_paths;
  }

  -- `stored` is what the numeric column of the score keeps of a number.
  module _ (stored : W → ℕ) (evidence : Attempt → Evidence) where
    abbrev pub engine_score : Attempt → List TaskSummary → Option (ScoreBreakdown W)
    engine_score a ts =
        score (criterion_input (evidence a) a ts) (profile_of (evidence a).profile)
          (a.retry_index == 0)

    -- What an evaluation records. The engine does not throw on any of the profiles that there are, as
    -- `engine_score-some` shows: the first clause is for a case that does not arise. `finalScore` stands
    -- as the column keeps it.
    abbrev recorded_verdict : Option (ScoreBreakdown W) → ℕ × Bool
    recorded_verdict none = (0, false)
    recorded_verdict (some b) = (stored b.final_score, b.passed)

    abbrev pub score_attempt : Attempt → List TaskSummary → ℕ × Bool
    score_attempt a ts = recorded_verdict (engine_score a ts)

    engine_score-some :
        (a : Attempt) (ts : List TaskSummary)
        → (b : ScoreBreakdown W) × (engine_score a ts ≡ some b)
    engine_score-some a ts = of_some (engine_score a ts) (
        score-is_some (criterion_input (evidence a) a ts) (profile_of (evidence a).profile)
          (a.retry_index == 0)
        ∙ registered_profile W (evidence a).profile)
      where
        of_some :
            (o : Option (ScoreBreakdown W))
            → is_some o ≡ true
            → (b : ScoreBreakdown W) × (o ≡ some b)
        of_some none h = absurd (ground arith)
        of_some (some b) h = (b, refl)

    module _ (laws : IsOrdered W)
        (execute : Option ℕ → ValidatorSpec → ℕ → Option ResultStatus) where
      -- An attempt that is submitted or being evaluated, and whose version is there, is scored by the
      -- engine on the summaries of its tasks: the evaluation returns the engine's score, as the column
      -- keeps it, and its verdict, and both are recorded for the learner and the activity. The row has
      -- passed or failed by the verdict, the engine's score is between 0 and 1, and the verdict is a pass
      -- exactly if the score reaches the threshold of the activity's profile. The writes to the skill
      -- tables, which come before the row's, are taken to succeed.
      pub evaluate-scores :
          (id : ℕ) (w : World) (a : Attempt) (v : ActivityVersion)
          → find_by_id id w ≡ some a
          → (same_status a.status evaluating || same_status a.status submitted) ≡ true
          → find_version a.activity_version_id w ≡ some v
          → (b : ScoreBreakdown W) × (x : World) × (c : Attempt) × (s : LearnerActivityState)
            × (engine_score a (map (summary_of (execute a.environment_id)) v.tasks) ≡ some b)
            × (evaluate execute score_attempt id w ≡ ok (stored b.final_score, b.passed) x)
            × (find_by_id id x ≡ some c)
            × (c.status ≡ (if b.passed then passed else failed))
            × (find (is_state_of a.user_id a.activity_id) x.learner_states ≡ some s)
            × (s.latest_score ≡ stored b.final_score)
            × (s.passed ≡ b.passed)
            × (nat 0 ≼ b.final_score)
            × (b.final_score ≼ nat 1)
            × ((b.passed ≡ true)
                ↔ ((profile_of (evidence a).profile).pass_threshold ≼ b.final_score))
      evaluate-scores id w a v e g f =
          let ts = map (summary_of (execute a.environment_id)) v.tasks in
          let (b, h) = engine_score-some a ts in
          let (x, c, s, r, k, t, i, j, q) = evaluate-verdict execute score_attempt id w a v e g f in
          let ((l, u), _, y) =
            score_bounds laws (criterion_input (evidence a) a ts) (profile_of (evidence a).profile)
              (a.retry_index == 0) b h in
          (
            b,
            x,
            c,
            s,
            h,
            subst (λ o. evaluate execute score_attempt id w ≡ ok (recorded_verdict o) x) h r,
            k,
            subst (λ o. c.status ≡ (if (recorded_verdict o).1 then passed else failed)) h t,
            i,
            j ∙ ap (λ o. (recorded_verdict o).0) h,
            q ∙ ap (λ o. (recorded_verdict o).1) h,
            l,
            u,
            y,
          )
