-- ===== src/Skill/Explained.antt =====
-- Every estimate of mastery is explained by the evidence that was recorded for it.
use skillfyme_hands_on.Base.{
  ℕ, ◌+◌, ◌≡◌, refl, subst, sym, ◌∙◌, Bool, true, false, ◌&&◌, Option, none, some, List, [], ◌∷◌,
  length, find, filter, ◌==◌, if◌then◌else◌, arith,
}
use skillfyme_hands_on.Common.Number.{Number, nat}
use skillfyme_hands_on.Skill.Bkt.{BktUpdateResult}
use skillfyme_hands_on.Skill.Elo.{EloUpdateResult}
use skillfyme_hands_on.Skill.Mastery.{
  SkillRow, MasteryRow, EvidenceRow, RatedVersion, Skills, RecordEvidenceInput, RecordEloMatchInput,
  is_of, is_evidence_of, upsert, with_evidence, no_evidence, updated_by, evidence_row,
  evidence_recorded, record_evidence, with_rating, match_of, match_with, evidence_with, and_then,
  mastery_with, rated, record_elo_match, Evaluated, evidence_of, record_skills, record_mastery,
  record_all,
}

module _ {ℓ} {W : Type ℓ} where
  abbrev pub count_of : Option (MasteryRow W) → ℕ
  count_of none = 0
  count_of (some r) = r.evidence_count

  -- The estimate is what the newest evidence left.
  abbrev pub LastIs : Option (MasteryRow W) → List (EvidenceRow W) → Type ℓ
  LastIs none es = Unit
  LastIs (some r) [] = Unit
  LastIs (some r) (e ∷ es) = r.p_mastery ≡ e.p_after

  abbrev pub Explained : Option (MasteryRow W) → List (EvidenceRow W) → Type ℓ
  Explained o es = (count_of o ≡ length es) × LastIs o es

  abbrev of_evidence : ℕ → ℕ → Skills W → List (EvidenceRow W)
  of_evidence user skill w = filter (is_evidence_of user skill) w.evidence

  abbrev pub IsExplained : Skills W → Type ℓ
  IsExplained w =
      (user skill : ℕ) → Explained (find (is_of user skill) w.masteries) (of_evidence user skill w)

  -- What an upsert leaves to be found under a key.
  abbrev upserted :
      Bool
      → (MasteryRow W → MasteryRow W)
      → MasteryRow W
      → Option (MasteryRow W)
      → Option (MasteryRow W)
  upserted false f new o = o
  upserted true f new none = some new
  upserted true f new (some r) = some (f r)

  find-upsert :
      (user skill u s : ℕ) (f : MasteryRow W → MasteryRow W) (new : MasteryRow W)
      (rs : List (MasteryRow W))
      → ((r : MasteryRow W) → ((f r).user_id ≡ r.user_id) × ((f r).skill_id ≡ r.skill_id))
      → (new.user_id ≡ u) × (new.skill_id ≡ s)
      → find (is_of user skill) (upsert u s f new rs)
        ≡ upserted ((u == user) && (s == skill)) f new (find (is_of user skill) rs)
  unfolding upsert
  find-upsert user skill u s f new [] k (a, b) = ground arith
  find-upsert user skill u s f new (r ∷ rs) k (a, b) =
      ground (arith, k r, find-upsert user skill u s f new rs k (a, b))

  -- A change that keeps the count and the estimate of a row, and a new row without evidence.
  upserted-Explained :
      (b : Bool) (f : MasteryRow W → MasteryRow W) (new : MasteryRow W) (o : Option (MasteryRow W))
      (es : List (EvidenceRow W))
      → ((r : MasteryRow W)
          → ((f r).evidence_count ≡ r.evidence_count) × ((f r).p_mastery ≡ r.p_mastery))
      → new.evidence_count ≡ 0
      → Explained o es
      → Explained (upserted b f new o) es
  upserted-Explained false f new o es k z h = h
  upserted-Explained true f new none [] k z h = (z, tt)
  upserted-Explained true f new none (e ∷ es) k z (h, l) = absurd (ground arith)
  upserted-Explained true f new (some r) [] k z (h, l) = ((k r).0 ∙ h, tt)
  upserted-Explained true f new (some r) (e ∷ es) k z (h, l) = ((k r).0 ∙ h, (k r).1 ∙ l)

  -- A change that counts one more evidence and takes its estimate.
  upserted-Explained_more :
      (b : Bool) (f : MasteryRow W → MasteryRow W) (new : MasteryRow W) (o : Option (MasteryRow W))
      (e : EvidenceRow W) (es : List (EvidenceRow W))
      → ((r : MasteryRow W)
          → ((f r).evidence_count ≡ r.evidence_count + 1) × ((f r).p_mastery ≡ e.p_after))
      → (new.evidence_count ≡ 1) × (new.p_mastery ≡ e.p_after)
      → Explained o es
      → Explained (upserted b f new o) (if b then e ∷ es else es)
  upserted-Explained_more false f new o e es k z h = h
  upserted-Explained_more true f new none e es k (z, y) (h, l) = (omega arith, y)
  upserted-Explained_more true f new (some r) e es k z (h, l) = let (c, p) = k r in (omega arith, p)

module _ {ℓ} {W : Type ℓ} ⦃n : Number W⦄ (stored : W → W) where
  abbrev OnTables : Option (Skills W) → Type ℓ
  OnTables none = Unit
  OnTables (some x) = IsExplained x

  evidence_recorded-IsExplained :
      (i : RecordEvidenceInput W) (b : BktUpdateResult W) (previous : Option ℕ) (w : Skills W)
      → IsExplained w
      → IsExplained (evidence_recorded stored i b previous w)
  evidence_recorded-IsExplained i b previous w h user skill =
      subst (λ o. Explained o (of_evidence user skill (evidence_recorded stored i b previous w)))
        (sym (
          find-upsert user skill i.user_id i.skill_id (with_evidence stored b w.now previous)
            (with_evidence stored b w.now none (no_evidence stored i.user_id i.skill_id))
            w.masteries (λ r. (refl, refl)) (refl, refl)))
        (upserted-Explained_more _ _ _ _ (evidence_row stored i b) _ (λ r. (refl, refl))
          (refl, refl) (h user skill))

  evidence_with-IsExplained :
      (i : RecordEvidenceInput W) (w : Skills W) (o : Option (SkillRow W))
      → IsExplained w
      → OnTables (evidence_with stored i w o)
  evidence_with-IsExplained i w none h = tt
  evidence_with-IsExplained i w (some s) h =
      evidence_recorded-IsExplained i
        (updated_by stored i s (find (is_of i.user_id i.skill_id) w.masteries) w.now) _ w h

  rated-IsExplained :
      (i : RecordEloMatchInput) (e : EloUpdateResult W) (p : W) (w : Skills W)
      → IsExplained w
      → IsExplained (rated stored i e p w)
  rated-IsExplained i e p w h user skill =
      subst (λ o. Explained o (of_evidence user skill w))
        (sym (
          find-upsert user skill i.user_id i.skill_id (with_rating stored e.learner_elo)
            (with_rating stored e.learner_elo
              (record (no_evidence stored i.user_id i.skill_id) { p_mastery = p }))
            w.masteries (λ r. (refl, refl)) (refl, refl)))
        (upserted-Explained _ _ _ _ _ (λ r. (refl, refl)) refl (h user skill))

  then_IsExplained :
      (w : Skills W) (k : Skills W → Skills W) (o : Option (Skills W))
      → IsExplained w
      → OnTables o
      → ((x : Skills W) → IsExplained x → IsExplained (k x))
      → IsExplained (and_then stored w k o)
  then_IsExplained w k none h u f = h
  then_IsExplained w k (some x) h u f = f x u

  record_skills-IsExplained :
      (e : Evaluated W) (adjust : W) (ss : List (ℕ × W)) (w : Skills W)
      → IsExplained w
      → IsExplained (record_skills stored e adjust ss w)
  unfolding record_skills record_evidence
  record_skills-IsExplained e adjust [] w h = h
  record_skills-IsExplained e adjust ((skill, weight) ∷ rest) w h =
      let i = evidence_of stored e adjust skill weight in
      let o = find (λ (s : SkillRow W). s.id == skill) w.skills in
      then_IsExplained w (λ x. record_skills stored e adjust rest x) (evidence_with stored i w o) h
        (evidence_with-IsExplained i w o h) (λ x k. record_skills-IsExplained e adjust rest x k)

  match-IsExplained :
      (i : RecordEloMatchInput) (e : Evaluated W) (w : Skills W) (v : Option (RatedVersion W))
      (seed : Option W)
      → IsExplained w
      → IsExplained (
          and_then stored w
            (λ (adjust, x). record_skills stored e adjust e.activity_skills x)
            (match_with stored i w v seed))
  match-IsExplained i e w none seed h = h
  match-IsExplained i e w (some v) none h = h
  match-IsExplained i e w (some v) (some p) h =
      record_skills-IsExplained e _ e.activity_skills _
        (rated-IsExplained i (match_of stored i v w) p w h)

  mastery_with-IsExplained :
      (e : Evaluated W) (w : Skills W) (o : Option ℕ)
      → IsExplained w
      → IsExplained (mastery_with stored e w o)
  unfolding record_elo_match
  mastery_with-IsExplained e w none h = record_skills-IsExplained e (nat 0) e.activity_skills w h
  mastery_with-IsExplained e w (some skill) h = match-IsExplained _ e w _ _ h

  -- After any evaluations, whatever they throw on, the row of a learner's skill counts exactly the
  -- evidence recorded for it, and its estimate is the one that the newest evidence left; where that held
  -- before.
  pub record_all-IsExplained :
      (es : List (Evaluated W)) (w : Skills W)
      → IsExplained w
      → IsExplained (record_all stored es w)
  unfolding record_all record_mastery
  record_all-IsExplained [] w h = h
  record_all-IsExplained (e ∷ es) w h =
      record_all-IsExplained es _ (mastery_with-IsExplained e w e.primary_skill h)
