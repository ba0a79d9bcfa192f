-- ===== src/Skill/Elo.antt =====
-- practice-core/src/modules/skill/elo.service.ts.
use skillfyme_hands_on.Base.{ℕ, ltb, if◌then◌else◌}
use skillfyme_hands_on.Common.Number.{Number, nat, least}

-- `EloOutcome`
pub data EloOutcome : Type 0 where
  first_try retried lost : EloOutcome

pub record EloUpdateInput {ℓ} (W : Type ℓ) : Type ℓ where
  pub learner_elo : W
  pub activity_elo : W
  pub learner_match_count : ℕ
  pub activity_attempt_count : ℕ
  pub outcome : EloOutcome

pub record EloUpdateResult {ℓ} (W : Type ℓ) : Type ℓ where
  pub expected_pass : W
  pub learner_elo : W
  pub activity_elo : W
  pub difficulty_adjust : W

module _ {ℓ} {W : Type ℓ} ⦃n : Number W⦄ where
  abbrev pub default_rating : W
  default_rating = nat 1200

  abbrev points : EloOutcome → W
  points first_try = nat 1
  points retried = n.ratio 5 10
  points lost = nat 0

  abbrev k_learner_for : ℕ → W
  k_learner_for matches =
      n.sub (nat 32)
        (n.mul (n.sub (nat 32) (nat 12)) (least (n.div (nat matches) (nat 20)) (nat 1)))

  unfoldable pub elo_update : EloUpdateInput W → EloUpdateResult W
  elo_update i =
      let expected =
        n.div (nat 1)
          (n.add (nat 1) (n.ten_to (n.div (n.sub i.activity_elo i.learner_elo) (nat 400)))) in
      let surprise = n.sub (points i.outcome) expected in
      let k_activity = if ltb 500 i.activity_attempt_count then nat 0 else nat 4 in
      record {
        expected_pass = expected;
        learner_elo = n.add i.learner_elo (n.mul (k_learner_for i.learner_match_count) surprise);
        activity_elo = n.sub i.activity_elo (n.mul k_activity surprise);
        difficulty_adjust = n.div (n.sub i.activity_elo i.learner_elo) (nat 400);
      }
