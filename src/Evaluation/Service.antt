-- ===== src/Evaluation/Service.antt =====
-- practice-core/src/modules/evaluation/evaluation.service.ts. The validators' executor and the scoring
-- of an attempt are the parameters `execute` and `score`; the grading of artifacts by the AI, which
-- changes neither score nor verdict, is left out, and so are the writes to the skill tables, which are
-- taken to succeed: in the code an exception of theirs leaves the row EVALUATED in the log only.
pub mod Laws
use skillfyme_hands_on.Base.{
  ℕ, ◌+◌, max, Bool, true, false, ◌&&◌, ◌||◌, not, Option, none, some, List, [], ◌∷◌, map, ◌==◌,
  if◌then◌else◌, any, find, filter,
}
use skillfyme_hands_on.Common.Status.{submitted, evaluating, passed, failed, same_status}
use skillfyme_hands_on.EventStore.Events.{system, evaluated}
use skillfyme_hands_on.EventStore.Replay.{rebuild_for_attempt}
use skillfyme_hands_on.Store.Rows.{
  Attempt, ValidatorSpec, ActivityVersion, ActivitySkill, LearnerActivityState, World,
}
use skillfyme_hands_on.Store.Monad.{
  ok, err, fault, M, ◌>>=◌, ◌>>◌, bind, return, throw, modify, append_typed_event,
}
use skillfyme_hands_on.Store.Repository.{find_by_id, transition, no_updates}
use skillfyme_hands_on.Evaluation.ValidatorRunner.{ResultStatus, TaskSummary, run}
use skillfyme_hands_on.Evaluation.Cooldown.{compute_cooldown_until}

-- `executeTakeFirstOrThrow`
abbrev pub take_or_throw {ℓ} : {A : Type ℓ} → Option A → M A
take_or_throw (some a) w = ok a w
take_or_throw none w = err fault w

abbrev pub find_version : ℕ → World → Option ActivityVersion
find_version id w = find (λ v. v.id == id) w.versions

-- `replay.rebuildForAttempt` on the world
unfoldable pub rebuild : ℕ → M (Unit {0})
rebuild id w = ok tt (record w { tasks = rebuild_for_attempt id w.events w.tasks })

abbrev pub is_state_of : ℕ → ℕ → LearnerActivityState → Bool
is_state_of user activity s = (s.user_id == user) && (s.activity_id == activity)

-- What an evaluation records of the learner and the activity, on the row that is there or a new one.
abbrev pub scored : ℕ → Bool → Option ℕ → LearnerActivityState → LearnerActivityState
scored score passes cooldown s = record s {
  best_score = max s.best_score score;
  latest_score = score;
  passed = passes;
  attempts_count = s.attempts_count + 1;
  cooldown_until = cooldown;
}

abbrev pub blank_state : ℕ → ℕ → LearnerActivityState
blank_state user activity = record {
  user_id = user;
  activity_id = activity;
  best_score = 0;
  latest_score = 0;
  passed = false;
  attempts_count = 0;
  cooldown_until = none;
}

unfoldable pub upsert_state :
    ℕ
    → ℕ
    → (LearnerActivityState → LearnerActivityState)
    → List LearnerActivityState
    → List LearnerActivityState
upsert_state user activity f [] = f (blank_state user activity) ∷ []
upsert_state user activity f (s ∷ ss) =
    if is_state_of user activity s then f s ∷ ss else s ∷ upsert_state user activity f ss

-- `av.activity_id` of the version of a row of `activity_skill`, through the join
abbrev pub skill_activity_is : ℕ → World → ActivitySkill → Bool
skill_activity_is activity w k =
    any (λ v. (v.id == k.activity_version_id) && (v.activity_id == activity)) w.versions

-- The activity has the skill as a primary one.
abbrev pub has_primary : ℕ → ℕ → World → Bool
has_primary activity skill w =
    any (λ k. k.is_primary && (k.skill_id == skill) && skill_activity_is activity w k)
      w.activity_skills

-- The two activities have a primary skill in common.
unfoldable pub shares_primary_skill : ℕ → ℕ → World → Bool
shares_primary_skill a b w =
    any (λ k. k.is_primary && skill_activity_is a w k && has_primary b k.skill_id w)
      w.activity_skills

abbrev pub is_remediated : ℕ → ℕ → World → LearnerActivityState → Bool
is_remediated user activity w s =
    (s.user_id == user)
    && not (s.activity_id == activity)
    && shares_primary_skill activity s.activity_id w

-- `clearCooldownsForRemediatedSkills`
unfoldable pub clear_cooldowns : ℕ → ℕ → World → World
clear_cooldowns user activity w = record w {
  learner_states =
      map (λ s. if is_remediated user activity w s then record s { cooldown_until = none } else s)
        w.learner_states;
}

unfoldable pub record_learner_state : Attempt → ℕ → Bool → World → World
record_learner_state a score passes w =
    let cooldown = if passes then none else some (compute_cooldown_until a.retry_index w.now) in
    let w' = record w {
      learner_states =
          upsert_state a.user_id a.activity_id (scored score passes cooldown) w.learner_states;
    } in
    if passes then clear_cooldowns a.user_id a.activity_id w' else w'

module _ (execute : Option ℕ → ValidatorSpec → ℕ → Option ResultStatus)
    (score : Attempt → List TaskSummary → ℕ × Bool) where
  -- From the validators' run on, once the guard is passed.
  unfoldable pub grade : Attempt → ActivityVersion → M (ℕ × Bool)
  unfolding rebuild
  grade a v = do
    summaries ← run (execute a.environment_id) a.id v.tasks
    rebuild a.id
    append_typed_event a.id system (evaluated (score a summaries).0 (score a summaries).1)
    updated ← (λ w.
        transition a.id a.version
          (record no_updates {
            status = some (if (score a summaries).1 then passed else failed);
            completed_at = some w.now;
          })
          w)
    modify (record_learner_state a (score a summaries).0 (score a summaries).1)
    return (score a summaries)

  unfoldable pub evaluate : ℕ → M (ℕ × Bool)
  evaluate id w = bind (take_or_throw (find_by_id id w) w) λ a.
      if same_status a.status evaluating || same_status a.status submitted
      then (λ u. bind (take_or_throw (find_version a.activity_version_id u) u) (grade a))
      else throw fault
