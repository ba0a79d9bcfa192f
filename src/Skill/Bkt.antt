-- ===== src/Skill/Bkt.antt =====
-- practice-core/src/modules/skill/bkt.service.ts. Times are in milliseconds.
use skillfyme_hands_on.Base.{ℕ, ◌-◌, ◌≡◌, Bool, false, leb, if◌then◌else◌, arith}
use skillfyme_hands_on.Common.Number.{
  Number, IsOrdered, ◌≼◌, nat, lt, least, clamp, abs, clamp_bounds,
}

pub data MasteryBand : Type 0 where
  novice developing competent proficient mastered : MasteryBand

pub record BktParams {ℓ} (W : Type ℓ) : Type ℓ where
  pub p_init : W
  pub p_transit : W
  pub p_slip : W
  pub p_guess : W

pub record BktUpdateInput {ℓ} (W : Type ℓ) : Type ℓ where
  pub prior_p : W
  pub params : BktParams W
  pub score : W
  pub weight : W
  pub pass_threshold : W
  pub difficulty_adjust : W
  pub was_genuine_attempt : Bool

pub record BktUpdateResult {ℓ} (W : Type ℓ) : Type ℓ where
  pub p_before : W
  pub p_after : W
  pub delta : W
  pub evidence_strength : W

module _ {ℓ} {W : Type ℓ} ⦃n : Number W⦄ where
  abbrev pub low : W
  low = n.ratio 1 1_000_000

  abbrev pub high : W
  high = n.sub (nat 1) (n.ratio 1 1_000_000)

  -- Step 1.
  abbrev evidence_strength_of : BktUpdateInput W → W
  evidence_strength_of i =
      let denom = n.sub (nat 1) i.pass_threshold in
      clamp
        (if lt (nat 0) denom
          then n.div (n.mul i.weight (n.sub i.score i.pass_threshold)) denom
          else nat 0)
        (n.sub (nat 0) (nat 1)) (nat 1)

  -- Step 2.
  abbrev adjusted_guess : BktUpdateInput W → W
  adjusted_guess i =
      let adj = clamp (abs i.difficulty_adjust) (nat 0) (n.ratio 5 10) in
      if lt (nat 0) i.difficulty_adjust
      then n.mul i.params.p_guess (n.sub (nat 1) adj)
      else n.mul i.params.p_guess (n.add (nat 1) adj)

  abbrev adjusted_slip : BktUpdateInput W → W
  adjusted_slip i =
      let adj = clamp (abs i.difficulty_adjust) (nat 0) (n.ratio 5 10) in
      if lt (nat 0) i.difficulty_adjust
      then least (n.mul i.params.p_slip (n.add (nat 1) adj)) (n.ratio 9 10)
      else n.mul i.params.p_slip (n.sub (nat 1) adj)

  -- Step 3, from the prior that was clamped.
  abbrev posterior_of : BktUpdateInput W → Bool → W → W
  posterior_of i passed p =
      let slip = adjusted_slip i in
      let guess = adjusted_guess i in
      let numerator = n.mul p (if passed then n.sub (nat 1) slip else slip) in
      n.div numerator
        (n.add numerator (n.mul (n.sub (nat 1) p) (if passed then guess else n.sub (nat 1) guess)))

  -- Step 4.
  abbrev estimate_after : BktUpdateInput W → W → W
  estimate_after i p =
      let e = evidence_strength_of i in
      let posterior = posterior_of i (n.le (nat 0) e) p in
      let blended = n.add p (n.mul (n.sub posterior p) (abs e)) in
      if i.was_genuine_attempt
      then n.add blended (n.mul (n.sub (nat 1) blended) i.params.p_transit)
      else p

  unfoldable pub bkt_update : BktUpdateInput W → BktUpdateResult W
  bkt_update i =
      let p = clamp i.prior_p low high in
      let after = clamp (estimate_after i p) low high in
      record {
        p_before = p;
        p_after = after;
        delta = n.sub after p;
        evidence_strength = evidence_strength_of i;
      }

  -- `half_life` is in days.
  unfoldable pub decayed_mastery : W → W → ℕ → ℕ → ℕ → W
  decayed_mastery p p_init last_evidence_at half_life now =
      if leb now last_evidence_at
      then p
      else n.add p_init (
          n.mul (n.sub p p_init) (
            n.half_to
              (n.div (n.div (nat (now - last_evidence_at)) (nat 86_400_000)) (nat half_life))))

  unfoldable pub band_for : W → MasteryBand
  band_for p =
      if lt p (n.ratio 3 10)
      then novice
      else if lt p (n.ratio 55 100)
      then developing
      else if lt p (n.ratio 75 100)
      then competent
      else if lt p (n.ratio 9 10)
      then proficient
      else mastered

  module _ (laws : IsOrdered W) where
    clamp_idem : (x : W) → clamp (clamp x low high) low high ≡ clamp x low high
    clamp_idem x = ground (
      arith,
      laws.tiny,
      laws.le_refl low,
      laws.le_refl high,
      laws.le_total low x,
      laws.le_total high x,
      laws.le_total x low,
    )

    -- Mastery stays strictly between 0 and 1, by a millionth, whatever the evidence, the parameters
    -- and the earlier estimate; and evidence from assisted work leaves it as it was.
    pub bkt_update_bounds :
        (i : BktUpdateInput W)
        → (low ≼ (bkt_update i).p_after)
          × ((bkt_update i).p_after ≼ high)
          × (i.was_genuine_attempt ≡ false → (bkt_update i).p_after ≡ (bkt_update i).p_before)
    unfolding bkt_update
    bkt_update_bounds i =
        let (l, h) =
          clamp_bounds laws (estimate_after i (clamp i.prior_p low high)) low high laws.tiny in
        (l, h, λ e. rw e (clamp_idem i.prior_p))
