-- ===== src/Evaluation/Scoring/Profile.antt =====
-- practice-core/src/modules/evaluation/scoring-profile.ts, and the choice of a profile in
-- evaluation.service.ts. The ids of a profile and its version, which the score does not read, are left
-- out, and so is `perLevel`, which nothing reads.
use skillfyme_hands_on.Base.{ℕ, Option, none, some, List, [], ◌∷◌}
use skillfyme_hands_on.Common.Number.{Number}

-- The keys of `CRITERION_REGISTRY`, and any other text.
pub data Criterion : Type 0 where
  technical_correctness task_completion efficiency diagnostic_efficiency hypothesis_ordering
        troubleshooting technical_implementation reliability :
      Criterion
  unregistered : ℕ → Criterion

-- `{ perReset, cap }` and its like: a cost and what it may add up to.
pub record Cost {ℓ} (W : Type ℓ) : Type ℓ where
  pub each : W
  pub cap : W

pub record ScoringProfile {ℓ} (W : Type ℓ) : Type ℓ where
  pub pass_threshold : W
  pub weights : List (Criterion × W)
  pub hints_cap : Option W
  pub resets : Option (Cost W)
  pub retries : Option (Cost W)
  pub blast_radius : Option (Cost W)
  pub overtime : Option (Cost W)
  pub first_try_pass : Option W
  pub min_after_penalties : Option W

-- The keys of `SCORING_PROFILE_REGISTRY`, and any other text.
pub data ProfileId : Type 0 where
  guided_lab_default production_sim_default : ProfileId
  unknown_profile : ℕ → ProfileId

module _ {ℓ} {W : Type ℓ} ⦃n : Number W⦄ where
  abbrev pub guided_lab_default_profile : ScoringProfile W
  guided_lab_default_profile = record {
    pass_threshold = n.ratio 7 10;
    weights =
        (technical_correctness, n.ratio 7 10)
        ∷ (task_completion, n.ratio 2 10)
        ∷ (efficiency, n.ratio 1 10)
        ∷ [];
    hints_cap = some (n.ratio 2 10);
    resets = some (record { each = n.ratio 2 100; cap = n.ratio 6 100 });
    retries = some (record { each = n.ratio 5 100; cap = n.ratio 15 100 });
    blast_radius = none;
    overtime = none;
    first_try_pass = some (n.ratio 2 100);
    min_after_penalties = some (n.ratio 3 10);
  }

  abbrev pub production_sim_default_profile : ScoringProfile W
  production_sim_default_profile = record {
    pass_threshold = n.ratio 7 10;
    weights =
        (troubleshooting, n.ratio 55 100)
        ∷ (technical_implementation, n.ratio 3 10)
        ∷ (reliability, n.ratio 15 100)
        ∷ [];
    hints_cap = none;
    resets = some (record { each = n.ratio 2 100; cap = n.ratio 6 100 });
    retries = some (record { each = n.ratio 5 100; cap = n.ratio 15 100 });
    blast_radius = some (record { each = n.ratio 15 100; cap = n.ratio 3 10 });
    overtime = some (record { each = n.ratio 2 100; cap = n.ratio 1 10 });
    first_try_pass = some (n.ratio 2 100);
    min_after_penalties = some (n.ratio 3 10);
  }

  -- An id that is missing or unknown falls back to the guided lab's.
  unfoldable pub profile_of : Option ProfileId → ScoringProfile W
  profile_of (some production_sim_default) = production_sim_default_profile
  profile_of (some guided_lab_default) = guided_lab_default_profile
  profile_of (some (unknown_profile _)) = guided_lab_default_profile
  profile_of none = guided_lab_default_profile
