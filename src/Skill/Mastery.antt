-- ===== src/Skill/Mastery.antt =====
-- practice-core/src/modules/skill/mastery.service.ts, and the skill evidence of an evaluation in
-- practice-core/src/modules/evaluation/evaluation.service.ts. Each operation is a transaction: none is
-- an exception, which leaves everything as it was. `stored` is what a numeric column keeps of a number.
use skillfyme_hands_on.Base.{
  ℕ, ◌+◌, Bool, true, false, not, ◌&&◌, Option, none, some, List, [], ◌∷◌, length, find, filter,
  all, ◌==◌, if◌then◌else◌, get_or,
}
use skillfyme_hands_on.Common.Number.{Number, nat}
use skillfyme_hands_on.Skill.Bkt.{
  MasteryBand, BktParams, BktUpdateResult, bkt_update, decayed_mastery, band_for,
}
use skillfyme_hands_on.Skill.Elo.{
  EloOutcome, first_try, retried, lost, EloUpdateResult, default_rating, elo_update,
}
use skillfyme_hands_on.Skill.Review.{compute_review_due_at}

pub record SkillRow {ℓ} (W : Type ℓ) : Type ℓ where
  pub id : ℕ
  pub params : BktParams W
  pub decay_half_life_days : ℕ

-- `SkillMasteryTable`
pub record MasteryRow {ℓ} (W : Type ℓ) : Type ℓ where
  pub user_id : ℕ
  pub skill_id : ℕ
  pub p_mastery : W
  pub last_evidence_at : Option ℕ
  pub evidence_count : ℕ
  pub elo_rating : Option W
  pub review_due_at : Option ℕ
  pub band : Option MasteryBand

-- `MasteryEvidenceTable`
pub record EvidenceRow {ℓ} (W : Type ℓ) : Type ℓ where
  pub user_id : ℕ
  pub skill_id : ℕ
  pub attempt_id : ℕ
  pub delta : W
  pub p_before : W
  pub p_after : W
  pub weight : W

-- An activity's version with its difficulty and how many attempts it has had.
pub record RatedVersion {ℓ} (W : Type ℓ) : Type ℓ where
  pub id : ℕ
  pub difficulty_elo : Option W
  pub attempts : ℕ

-- The tables; the newest evidence is first.
pub record Skills {ℓ} (W : Type ℓ) : Type ℓ where
  pub now : ℕ
  pub skills : List (SkillRow W)
  pub masteries : List (MasteryRow W)
  pub evidence : List (EvidenceRow W)
  pub versions : List (RatedVersion W)

pub record RecordEvidenceInput {ℓ} (W : Type ℓ) : Type ℓ where
  pub user_id : ℕ
  pub skill_id : ℕ
  pub attempt_id : ℕ
  pub score : W
  pub weight : W
  pub pass_threshold : W
  pub difficulty_adjust : W
  pub was_genuine_attempt : Bool

pub record RecordEloMatchInput : Type 0 where
  pub user_id : ℕ
  pub skill_id : ℕ
  pub activity_version_id : ℕ
  pub outcome : EloOutcome

module _ {ℓ} {W : Type ℓ} where
  abbrev pub is_of : ℕ → ℕ → MasteryRow W → Bool
  is_of user skill r = (r.user_id == user) && (r.skill_id == skill)

  abbrev pub is_evidence_of : ℕ → ℕ → EvidenceRow W → Bool
  is_evidence_of user skill e = (e.user_id == user) && (e.skill_id == skill)

  -- `insert … on conflict (user_id, skill_id) do update`
  unfoldable pub upsert :
      ℕ
      → ℕ
      → (MasteryRow W → MasteryRow W)
      → MasteryRow W
      → List (MasteryRow W)
      → List (MasteryRow W)
  upsert user skill f new [] = new ∷ []
  upsert user skill f new (r ∷ rs) =
      let rest = upsert user skill f new rs in if is_of user skill r then f r ∷ rs else r ∷ rest

  unfoldable pub set_difficulty : ℕ → W → List (RatedVersion W) → List (RatedVersion W)
  set_difficulty id elo [] = []
  set_difficulty id elo (v ∷ vs) =
      (if v.id == id then record v { difficulty_elo = some elo } else v) ∷ set_difficulty id elo vs

module _ {ℓ} {W : Type ℓ} ⦃n : Number W⦄ (stored : W → W) where
  -- The estimate before the evidence.
  abbrev prior_of : SkillRow W → Option (MasteryRow W) → ℕ → W
  prior_of s none now = s.params.p_init
  prior_of s (some r) now =
      decayed_mastery r.p_mastery s.params.p_init (get_or r.last_evidence_at now)
        s.decay_half_life_days now

  abbrev previous_review : Option (MasteryRow W) → Option ℕ
  previous_review none = none
  previous_review (some r) = r.review_due_at

  -- The fields that evidence sets.
  abbrev pub with_evidence : BktUpdateResult W → ℕ → Option ℕ → MasteryRow W → MasteryRow W
  with_evidence b now previous r = record r {
    p_mastery = stored b.p_after;
    last_evidence_at = some now;
    evidence_count = r.evidence_count + 1;
    review_due_at = compute_review_due_at (band_for b.p_after) now previous;
    band = some (band_for b.p_after);
  }

  abbrev pub no_evidence : ℕ → ℕ → MasteryRow W
  no_evidence user skill = record {
    user_id = user;
    skill_id = skill;
    p_mastery = nat 0;
    last_evidence_at = none;
    evidence_count = 0;
    elo_rating = none;
    review_due_at = none;
    band = none;
  }

  abbrev pub updated_by :
      RecordEvidenceInput W → SkillRow W → Option (MasteryRow W) → ℕ → BktUpdateResult W
  updated_by i s existing now = bkt_update (record {
    prior_p = prior_of s existing now;
    params = s.params;
    score = i.score;
    weight = i.weight;
    pass_threshold = i.pass_threshold;
    difficulty_adjust = i.difficulty_adjust;
    was_genuine_attempt = i.was_genuine_attempt;
  })

  abbrev pub evidence_row : RecordEvidenceInput W → BktUpdateResult W → EvidenceRow W
  evidence_row i b = record {
    user_id = i.user_id;
    skill_id = i.skill_id;
    attempt_id = i.attempt_id;
    delta = stored b.delta;
    p_before = stored b.p_before;
    p_after = stored b.p_after;
    weight = i.weight;
  }

  abbrev pub evidence_recorded :
      RecordEvidenceInput W → BktUpdateResult W → Option ℕ → Skills W → Skills W
  evidence_recorded i b previous w = record w {
    masteries =
        upsert i.user_id i.skill_id (with_evidence b w.now previous)
          (with_evidence b w.now none (no_evidence i.user_id i.skill_id)) w.masteries;
    evidence = evidence_row i b ∷ w.evidence;
  }

  abbrev pub evidence_with :
      RecordEvidenceInput W → Skills W → Option (SkillRow W) → Option (Skills W)
  evidence_with i w none = none
  evidence_with i w (some s) =
      let existing = find (is_of i.user_id i.skill_id) w.masteries in
      some (evidence_recorded i (updated_by i s existing w.now) (previous_review existing) w)

  unfoldable pub record_evidence : RecordEvidenceInput W → Skills W → Option (Skills W)
  unfolding upsert bkt_update decayed_mastery band_for compute_review_due_at
  record_evidence i w = evidence_with i w (find (λ s. s.id == i.skill_id) w.skills)

  -- A rating that is there, or the population's.
  abbrev rating : Option W → W
  rating none = default_rating
  rating (some r) = r

  abbrev learner_rating : Option (MasteryRow W) → W
  learner_rating none = default_rating
  learner_rating (some r) = rating r.elo_rating

  abbrev pub with_rating : W → MasteryRow W → MasteryRow W
  with_rating elo r = record r { elo_rating = some (stored elo) }

  abbrev pub match_of : RecordEloMatchInput → RatedVersion W → Skills W → EloUpdateResult W
  match_of i v w = elo_update (record {
    learner_elo = learner_rating (find (is_of i.user_id i.skill_id) w.masteries);
    activity_elo = rating v.difficulty_elo;
    learner_match_count = length (filter (is_evidence_of i.user_id i.skill_id) w.evidence);
    activity_attempt_count = v.attempts;
    outcome = i.outcome;
  })

  abbrev pub rated : RecordEloMatchInput → EloUpdateResult W → W → Skills W → Skills W
  rated i e p_init w = record w {
    masteries =
        upsert i.user_id i.skill_id (with_rating e.learner_elo)
          (with_rating e.learner_elo
            (record (no_evidence i.user_id i.skill_id) { p_mastery = p_init }))
          w.masteries;
    versions = set_difficulty i.activity_version_id (stored e.activity_elo) w.versions;
  }

  -- With a row the skill is not read; without one it gives the estimate that a new row starts from.
  abbrev seed_of : Option (MasteryRow W) → Option (SkillRow W) → Option W
  seed_of (some r) s = some r.p_mastery
  seed_of none none = none
  seed_of none (some s) = some s.params.p_init

  abbrev pub match_with :
      RecordEloMatchInput → Skills W → Option (RatedVersion W) → Option W → Option (W × Skills W)
  match_with i w none seed = none
  match_with i w (some v) none = none
  match_with i w (some v) (some p) =
      some ((match_of i v w).difficulty_adjust, rated i (match_of i v w) p w)

  -- The difficulty adjustment and the tables after the match.
  unfoldable pub record_elo_match : RecordEloMatchInput → Skills W → Option (W × Skills W)
  unfolding upsert set_difficulty elo_update
  record_elo_match i w = match_with i w (find (λ v. v.id == i.activity_version_id) w.versions) (
      seed_of (find (is_of i.user_id i.skill_id) w.masteries)
        (find (λ s. s.id == i.skill_id) w.skills))

  -- `meetsRequiresGate`
  unfoldable pub meets_requires_gate : ℕ → List ℕ → Skills W → Bool
  meets_requires_gate user ancestors w =
      all (λ skill. n.le (n.ratio 55 100) (p_of (find (is_of user skill) w.masteries))) ancestors
    where
      p_of : Option (MasteryRow W) → W
      p_of none = nat 0
      p_of (some r) = r.p_mastery

-- What an evaluation hands to the service.
pub record Evaluated {ℓ} (W : Type ℓ) : Type ℓ where
  pub user_id : ℕ
  pub attempt_id : ℕ
  pub activity_version_id : ℕ
  pub final_score : W
  pub passed : Bool
  pub retry_index : ℕ
  pub assisted : Bool
  pub primary_skill : Option ℕ
  pub activity_skills : List (ℕ × W)

module _ {ℓ} {W : Type ℓ} ⦃n : Number W⦄ (stored : W → W) where
  abbrev outcome_of : Bool → ℕ → EloOutcome
  outcome_of true retries = if retries == 0 then first_try else retried
  outcome_of false retries = lost

  abbrev is_primary : Option ℕ → ℕ → Bool
  is_primary none skill = false
  is_primary (some p) skill = p == skill

  abbrev pub evidence_of : Evaluated W → W → ℕ → W → RecordEvidenceInput W
  evidence_of e adjust skill weight = record {
    user_id = e.user_id;
    skill_id = skill;
    attempt_id = e.attempt_id;
    score = e.final_score;
    weight = weight;
    pass_threshold = n.ratio 7 10;
    difficulty_adjust = if is_primary e.primary_skill skill then adjust else nat 0;
    was_genuine_attempt = not e.assisted;
  }

  -- What follows an operation; an exception ends all, and keeps what was recorded before.
  abbrev pub and_then {κ} : {A : Type κ} → Skills W → (A → Skills W) → Option A → Skills W
  and_then w k none = w
  and_then w k (some x) = k x

  -- The evidence, skill by skill.
  unfoldable pub record_skills : Evaluated W → W → List (ℕ × W) → Skills W → Skills W
  unfolding record_evidence
  record_skills e adjust [] w = w
  record_skills e adjust ((skill, weight) ∷ rest) w =
      and_then w (λ x. record_skills e adjust rest x)
        (record_evidence stored (evidence_of e adjust skill weight) w)

  abbrev pub mastery_with : Evaluated W → Skills W → Option ℕ → Skills W
  mastery_with e w none = record_skills e (nat 0) e.activity_skills w
  mastery_with e w (some skill) =
      and_then w (λ (adjust, x). record_skills e adjust e.activity_skills x)
        (record_elo_match stored
          (record {
            user_id = e.user_id;
            skill_id = skill;
            activity_version_id = e.activity_version_id;
            outcome = outcome_of e.passed e.retry_index;
          })
          w)

  -- The match on the primary skill, if there is one, and the evidence.
  unfoldable pub record_mastery : Evaluated W → Skills W → Skills W
  unfolding record_skills record_elo_match
  record_mastery e w = mastery_with e w e.primary_skill

  -- Evaluations, one after another.
  unfoldable pub record_all : List (Evaluated W) → Skills W → Skills W
  unfolding record_mastery
  record_all [] w = w
  record_all (e ∷ es) w = record_all es (record_mastery e w)
