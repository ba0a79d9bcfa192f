-- ===== src/Recommendation/Ranked.antt =====
-- What is recommended, and in which order.
use skillfyme_hands_on.Base.{
  ℕ, ◌≡◌, refl, Bool, Bool-cases, inl, inr, List, [], ◌∷◌, All, filter, map, arith,
}
use mathlib.Core.List.{Perm}
use mathlib.Core.List.Perm
use skillfyme_hands_on.Common.Number.{Number, IsOrdered, ◌≼◌}
use skillfyme_hands_on.Recommendation.{
  Recommendation, Found, source_weight, weighted, insert_by_score, sort_by_score, take_first,
  candidates, recommend,
}

module _ {ℓ} {W : Type ℓ} ⦃n : Number W⦄ where
  -- Each candidate with its score times the weight of its source, in order.
  pub data AreWeighted : List (Recommendation W) → List (Recommendation W) → Type ℓ where
    none_left : AreWeighted [] []
    weighs :
        {c r : Recommendation W} {cs rs : List (Recommendation W)}
        → r.activity ≡ c.activity
        → r.reason_code ≡ c.reason_code
        → r.score ≡ n.mul c.score (source_weight c.reason_code)
        → AreWeighted cs rs
        → AreWeighted (c ∷ cs) (r ∷ rs)

  map-weighted-AreWeighted : (cs : List (Recommendation W)) → AreWeighted cs (map weighted cs)
  map-weighted-AreWeighted [] = none_left
  map-weighted-AreWeighted (c ∷ cs) = weighs refl refl refl (map-weighted-AreWeighted cs)

  insert_by_score-Perm :
      (r : Recommendation W) (rs : List (Recommendation W)) → Perm (r ∷ rs) (insert_by_score r rs)
  unfolding insert_by_score
  insert_by_score-Perm r [] = Perm.refl (r ∷ [])
  insert_by_score-Perm r (q ∷ qs) = elim (Bool-cases (n.le q.score r.score)) [
    | inl y ↦ rw y (Perm.refl (r ∷ q ∷ qs))
    | inr y ↦ rw y (Perm.trans (Perm.swap q r qs) (Perm.cons q (insert_by_score-Perm r qs)))
  ]

  sort_by_score-Perm : (rs : List (Recommendation W)) → Perm rs (sort_by_score rs)
  unfolding sort_by_score
  sort_by_score-Perm [] = Perm.refl []
  sort_by_score-Perm (r ∷ rs) =
      Perm.trans (Perm.cons r (sort_by_score-Perm rs)) (insert_by_score-Perm r (sort_by_score rs))

  insert_by_score-All {κ} :
      (P : Recommendation W → Type κ) (r : Recommendation W) (rs : List (Recommendation W))
      → P r
      → All P rs
      → All P (insert_by_score r rs)
  unfolding insert_by_score
  insert_by_score-All P r [] h hs = (h, tt)
  insert_by_score-All P r (q ∷ qs) h (k, ks) = elim (Bool-cases (n.le q.score r.score)) [
    | inl y ↦ rw y (h, (k, ks))
    | inr y ↦ rw y (k, insert_by_score-All P r qs h ks)
  ]

  -- The scores do not rise.
  abbrev pub IsRanked : List (Recommendation W) → Type 0
  IsRanked [] = Unit
  IsRanked (r ∷ rs) = All (λ q. q.score ≼ r.score) rs × IsRanked rs

  module _ (laws : IsOrdered W) where
    open laws use {le_trans, le_total}

    below :
        (r q : Recommendation W) (rs : List (Recommendation W))
        → q.score ≼ r.score
        → All (λ p. p.score ≼ q.score) rs
        → All (λ p. p.score ≼ r.score) rs
    below r q [] h hs = tt
    below r q (p ∷ ps) h (k, ks) = (le_trans p.score q.score r.score k h, below r q ps h ks)

    insert_by_score-IsRanked :
        (r : Recommendation W) (rs : List (Recommendation W))
        → IsRanked rs
        → IsRanked (insert_by_score r rs)
    unfolding insert_by_score
    insert_by_score-IsRanked r [] h = (tt, tt)
    insert_by_score-IsRanked r (q ∷ qs) (h, hs) = elim (Bool-cases (n.le q.score r.score)) [
      | inl y ↦ rw y ((y, below r q qs y h), (h, hs))
      | inr y ↦
          let k : r.score ≼ q.score = ground (arith, le_total r.score q.score) in
          rw y (
            insert_by_score-All (λ p. p.score ≼ q.score) r qs k h,
            insert_by_score-IsRanked r qs hs,
          )
    ]

    sort_by_score-IsRanked : (rs : List (Recommendation W)) → IsRanked (sort_by_score rs)
    unfolding sort_by_score
    sort_by_score-IsRanked [] = tt
    sort_by_score-IsRanked (r ∷ rs) =
        insert_by_score-IsRanked r (sort_by_score rs) (sort_by_score-IsRanked rs)

    -- The candidates that are eligible, each with its score times the weight of its source, are ranked
    -- from the highest score to the lowest, none lost and none twice; what is recommended is the front
    -- of that ranking, as long as was asked for.
    pub recommend-IsRanked :
        (eligible : ℕ → Bool) (limit : ℕ) (f : Found W)
        → (ws : List (Recommendation W)) × (ranked : List (Recommendation W)) × AreWeighted
            (filter (λ r. eligible r.activity.activity_version_id) (candidates f))
            ws
          × Perm ws ranked
          × IsRanked ranked
          × (recommend eligible limit f ≡ take_first limit ranked)
    unfolding recommend
    recommend-IsRanked eligible limit f =
        let cs = filter (λ r. eligible r.activity.activity_version_id) (candidates f) in
        (
          map weighted cs,
          sort_by_score (map weighted cs),
          map-weighted-AreWeighted cs,
          sort_by_score-Perm (map weighted cs),
          sort_by_score-IsRanked (map weighted cs),
          refl,
        )
