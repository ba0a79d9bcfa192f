-- ===== src/Attempt/Eligibility.antt =====
-- practice-core/src/modules/attempt/eligibility.service.ts: whether a learner may start an activity.
-- Whether the mastery gate of a skill's prerequisites is met for the learner is the parameter
-- `gate_met`; `DISABLE_LAB_QUOTA` is `quota_disabled`.
pub mod Laws
use skillfyme_hands_on.Base.{
  ℕ, suc, Bool, true, false, ◌&&◌, ◌||◌, not, Option, none, some, List, [], ◌∷◌, ◌++◌, ◌==◌, ltb,
  leb, if◌then◌else◌, find, filter, length,
}
use skillfyme_hands_on.Common.Status.{
  AttemptStatus, provisioning, ready, in_progress, submitted, evaluating, includes,
}
use skillfyme_hands_on.Store.Rows.{
  Attempt, VersionStatus, published, canary, ActivityVersion, ActivitySkill, LearnerActivityState,
  World,
}
use skillfyme_hands_on.Store.Monad.{
  AttemptErrorCode, activity_not_published, prerequisite_not_met, cooldown_active,
  concurrent_quota_exceeded,
}
use skillfyme_hands_on.Evaluation.Service.{find_version, is_state_of}

-- The statuses in which an attempt holds an environment.
abbrev pub holds_environment : List AttemptStatus
holds_environment = provisioning ∷ ready ∷ in_progress ∷ submitted ∷ evaluating ∷ []

abbrev pub max_concurrent_environments_per_learner : ℕ
max_concurrent_environments_per_learner = 1

abbrev pub is_offered : VersionStatus → Bool
is_offered published = true
is_offered canary = true
is_offered _ = false

abbrev pub is_active_of : ℕ → Attempt → Bool
is_active_of user a = (a.user_id == user) && includes holds_environment a.status

unfoldable pub active_attempts : ℕ → World → ℕ
active_attempts user w = length (filter (is_active_of user) w.attempts)

abbrev pub when : Bool → AttemptErrorCode → List AttemptErrorCode
when b c = if b then c ∷ [] else []

-- One reason for each primary skill whose gate is not met.
unfoldable pub gate_reasons : (ℕ → Bool) → ℕ → List ActivitySkill → List AttemptErrorCode
gate_reasons met version [] = []
gate_reasons met version (k ∷ ks) =
    (if (k.activity_version_id == version) && k.is_primary && not (met k.skill_id)
      then prerequisite_not_met ∷ []
      else [])
    ++ gate_reasons met version ks

abbrev pub cools_down : ℕ → Option LearnerActivityState → Bool
cools_down now none = false
cools_down now (some s) = elim s.cooldown_until [ none ↦ false | some until ↦ ltb now until ]

module _ (gate_met : ℕ → ℕ → Bool) (quota_disabled : Bool) where
  abbrev pub reasons_for : ℕ → World → ActivityVersion → List AttemptErrorCode
  reasons_for user w v =
      when (not (is_offered v.status)) activity_not_published
      ++ (gate_reasons (gate_met user) v.id w.activity_skills
          ++ (when (cools_down w.now (find (is_state_of user v.activity_id) w.learner_states))
                cooldown_active
              ++ when
                  (not quota_disabled
                    && leb max_concurrent_environments_per_learner (active_attempts user w))
                  concurrent_quota_exceeded))

  -- `check`: the reasons against; the learner is eligible if there are none.
  unfoldable pub check : ℕ → ℕ → World → List AttemptErrorCode
  check user version w = elim (find_version version w) [
    | none ↦ activity_not_published ∷ []
    | some v ↦ reasons_for user w v
  ]
