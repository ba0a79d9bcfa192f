-- ===== src/Recommendation/Strongest.antt =====
-- Which of several offers of one version is kept.
use skillfyme_hands_on.Base.{◌≡◌, true, false, Option, none, some, List, [], ◌∷◌, All, find, arith}
use skillfyme_hands_on.Common.Number.{Number, IsOrdered, ◌≼◌}
use skillfyme_hands_on.Recommendation.{
  Recommendation, Found, same_version, offer, offer_all, offers, candidates,
}

module _ {ℓ} {W : Type ℓ} ⦃n : Number W⦄ where
  -- An entry for the version of an offer, whose score is no lower.
  abbrev pub AtLeast : W → Option (Recommendation W) → Type 0
  AtLeast score none = true ≡ false
  AtLeast score (some c) = score ≼ c.score

  abbrev pub IsKept : Recommendation W → List (Recommendation W) → Type 0
  IsKept r cs = AtLeast r.score (find (same_version r) cs)

  module _ (laws : IsOrdered W) where
    open laws use {le_refl, le_trans}

    offer-IsKept : (r : Recommendation W) (cs : List (Recommendation W)) → IsKept r (offer r cs)
    unfolding offer
    offer-IsKept r [] = ground (arith, le_refl r.score)
    offer-IsKept r (q ∷ qs) = ground (arith, le_refl r.score, offer-IsKept r qs)

    offer-keeps :
        (p r : Recommendation W) (cs : List (Recommendation W))
        → IsKept p cs
        → IsKept p (offer r cs)
    unfolding offer
    offer-keeps p r [] h = absurd (ground arith)
    offer-keeps p r (q ∷ qs) h =
        ground (
          arith,
          offer-keeps p r qs,
          laws.le_total q.score r.score,
          le_trans p.score q.score r.score,
        )

    offer_all-keeps :
        (p : Recommendation W) (rs cs : List (Recommendation W))
        → IsKept p cs
        → IsKept p (offer_all rs cs)
    unfolding offer_all
    offer_all-keeps p [] cs h = h
    offer_all-keeps p (r ∷ rs) cs h = offer_all-keeps p rs (offer r cs) (offer-keeps p r cs h)

    offer_all-IsKept : (rs cs : List (Recommendation W)) → All (λ r. IsKept r (offer_all rs cs)) rs
    unfolding offer_all
    offer_all-IsKept [] cs = tt
    offer_all-IsKept (r ∷ rs) cs =
        (offer_all-keeps r rs (offer r cs) (offer-IsKept r cs), offer_all-IsKept rs (offer r cs))

    -- Whatever the sources offer, a candidate is kept for the version of each offer, and its score
    -- before the weighting is no lower than the offer's.
    pub candidates-IsKept : (f : Found W) → All (λ r. IsKept r (candidates f)) (offers f)
    unfolding candidates
    candidates-IsKept f = offer_all-IsKept (offers f) []
