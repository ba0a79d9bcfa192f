-- ===== src/Attempt/Eligibility/Laws.antt =====
-- When a learner may start an activity.
use skillfyme_hands_on.Base.{
  ℕ, ◌≡◌, ◌<◌, ◌↔◌, ◌⊎◌, inl, inr, refl, Bool, true, false, not, ◌&&◌, some, Option-cases, List, [],
  ◌∷◌, ◌++◌, All, ◌==◌, find, leb, arith, subst, sym,
}
use skillfyme_hands_on.Store.Rows.{ActivityVersion, ActivitySkill, World}
use skillfyme_hands_on.Store.Monad.{
  AttemptErrorCode, activity_not_published, cooldown_active, concurrent_quota_exceeded,
}
use skillfyme_hands_on.Evaluation.Service.{find_version, is_state_of}
use skillfyme_hands_on.Attempt.Eligibility.{
  is_offered, active_attempts, gate_reasons, when, cools_down, reasons_for, check,
}

-- Every primary skill of the version has its prerequisites met.
abbrev pub GatesMet : (ℕ → Bool) → ℕ → List ActivitySkill → Type 0
GatesMet met version = All (λ (k : ActivitySkill).
    ((k.activity_version_id == version) && k.is_primary) ≡ true → met k.skill_id ≡ true)

gate_reasons_iff :
    (met : ℕ → Bool) (version : ℕ) (ks : List ActivitySkill)
    → (gate_reasons met version ks ≡ []) ↔ GatesMet met version ks
unfolding gate_reasons
gate_reasons_iff met version [] = ground arith
gate_reasons_iff met version (k ∷ ks) = ground (arith, gate_reasons_iff met version ks)

append-empty : (xs ys : List AttemptErrorCode) → (xs ++ ys ≡ []) ↔ ((xs ≡ []) × (ys ≡ []))
append-empty [] ys = ground arith
append-empty (x ∷ xs) ys = ground arith

when-empty : (b : Bool) (c : AttemptErrorCode) → (when b c ≡ []) ↔ (b ≡ false)
when-empty true c = ground arith
when-empty false c = ground arith

module _ (gate_met : ℕ → ℕ → Bool) (quota_disabled : Bool) where
  -- The rules, in the words of the service's comment: the version is published, its gates are met, no
  -- cooldown of the activity runs, and the learner has no other lab open unless the quota is off.
  abbrev pub MayStart : ℕ → World → ActivityVersion → Type 0
  MayStart user w v =
      (is_offered v.status ≡ true)
      × GatesMet (gate_met user) v.id w.activity_skills
      × (cools_down w.now (find (is_state_of user v.activity_id) w.learner_states) ≡ false)
      × ((quota_disabled ≡ true) ⊎ (active_attempts user w < 1))

  reasons_for_iff :
      (user : ℕ) (w : World) (v : ActivityVersion)
      → (reasons_for gate_met quota_disabled user w v ≡ []) ↔ MayStart user w v
  reasons_for_iff user w v =
      let offered = when (not (is_offered v.status)) activity_not_published in
      let gates = gate_reasons (gate_met user) v.id w.activity_skills in
      let cooling = cools_down w.now (find (is_state_of user v.activity_id) w.learner_states) in
      let open_labs = not quota_disabled && leb 1 (active_attempts user w) in
      ground (
        arith,
        append-empty offered
            (gates ++ (when cooling cooldown_active ++ when open_labs concurrent_quota_exceeded)),
        append-empty gates
            (when cooling cooldown_active ++ when open_labs concurrent_quota_exceeded),
        append-empty (when cooling cooldown_active) (when open_labs concurrent_quota_exceeded),
        when-empty (not (is_offered v.status)) activity_not_published,
        gate_reasons_iff (gate_met user) v.id w.activity_skills,
        when-empty cooling cooldown_active,
        when-empty open_labs concurrent_quota_exceeded,
      )

  -- The check finds no reason against exactly if the version is there and offered, every primary
  -- skill's gate is met, no cooldown of the activity runs, and the learner has no attempt that
  -- holds an environment or the quota is off.
  pub check_iff :
      (user version : ℕ) (w : World)
      → (check gate_met quota_disabled user version w ≡ [])
        ↔ ((v : ActivityVersion) × (find_version version w ≡ some v) × MayStart user w v)
  unfolding check
  check_iff user version w = elim (Option-cases (find_version version w)) [
    | inl e ↦ rw (e, check) (ground arith)
    | inr (v, e) ↦ rw (e, check) (found v (reasons_for_iff user w v))
  ]
    where
      found :
          (v : ActivityVersion) {A : Type 0}
          → (A ↔ MayStart user w v)
          → A ↔ ((u : ActivityVersion) × (some v ≡ some u) × MayStart user w u)
      found v h = (
        λ a. (v, refl, h.0 a),
        λ (u, e, m). let same : v ≡ u = cc in h.1 (subst (MayStart user w) (sym same) m),
      )
