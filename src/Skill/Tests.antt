-- ===== src/Skill/Tests.antt =====
-- Evaluations of a learner's work, with numbers in ten-thousandths.
use skillfyme_hands_on.Base.{ℕ, ◌+◌, ◌*◌, ◌≡◌, refl, true, false, none, some, [], ◌∷◌, map}
use skillfyme_hands_on.Common.Number.{ten_thousandths}
use skillfyme_hands_on.Skill.Bkt.{mastered, BktParams, BktUpdateInput, bkt_update}
use skillfyme_hands_on.Skill.Review.{IsDueWithin, compute_review_due_at, compute_review_due_at_lem}
use skillfyme_hands_on.Skill.Mastery.{Skills, Evaluated, record_mastery, record_all}
use skillfyme_hands_on.Skill.Explained.{IsExplained, record_all-IsExplained}

abbrev params : BktParams ℕ
params = record { p_init = 1_500; p_transit = 2_500; p_slip = 1_000; p_guess = 800 }

abbrev evidence : BktUpdateInput ℕ
evidence = record {
  prior_p = 5_000;
  params = params;
  score = 10_000;
  weight = 10_000;
  pass_threshold = 7_000;
  difficulty_adjust = 0;
  was_genuine_attempt = true;
}

-- A clean pass from 0.5: the posterior is 0.9183, and the transit takes it on.
clean_pass : (bkt_update evidence).p_after ≡ 9_387
unfolding bkt_update
clean_pass = refl

compute_review_due_at_lem_example :
    IsDueWithin true 1_000 (compute_review_due_at mastered 1_000 (some 2_000))
compute_review_due_at_lem_example = compute_review_due_at_lem mastered 1_000 (some 2_000)

-- Even on time, the review of what is mastered is due in 54 days.
grown : compute_review_due_at mastered 1_000 (some 2_000) ≡ some (1_000 + 54 * 86_400_000)
unfolding compute_review_due_at
grown = refl

abbrev tables : Skills ℕ
tables = record {
  now = 1_000;
  skills =
      record { id = 1; params = params; decay_half_life_days = 180 }
      ∷ record { id = 2; params = params; decay_half_life_days = 180 }
      ∷ [];
  masteries = [];
  evidence = [];
  versions = record { id = 4; difficulty_elo = none; attempts = 3 } ∷ [];
}

-- The third skill is not there, which ends the evaluation after the first two.
abbrev evaluated : Evaluated ℕ
evaluated = record {
  user_id = 7;
  attempt_id = 1;
  activity_version_id = 4;
  final_score = 10_000;
  passed = true;
  retry_index = 0;
  assisted = false;
  primary_skill = some 1;
  activity_skills = (1, 7_000) ∷ (2, 3_000) ∷ (3, 1_000) ∷ (2, 1_000) ∷ [];
}

two_recorded :
    map (λ r. r.evidence_count) (record_mastery (λ x. x) evaluated tables).masteries ≡ 1 ∷ 1 ∷ []
unfolding record_mastery
two_recorded = refl

record_all-IsExplained_example :
    IsExplained (record_all (λ x. x) (evaluated ∷ evaluated ∷ []) tables)
record_all-IsExplained_example =
    record_all-IsExplained (λ x. x) (evaluated ∷ evaluated ∷ []) tables (λ user skill. (refl, tt))
