-- ===== src/Recommendation.antt =====
-- practice-core/src/modules/recommendation/recommendation.service.ts. What the queries of the five
-- sources find is their argument; a reason's parameters, which nothing reads back, are left out, and so
-- is the row that is stored of each recommendation. A `Map` is the list of its entries in the order in
-- which their keys were first set.
pub mod Ranked
pub mod Strongest
mod Tests
use skillfyme_hands_on.Base.{
  ℕ, zero, suc, Bool, true, false, not, Option, none, some, List, [], ◌∷◌, ◌==◌, if◌then◌else◌, any,
  filter, map, ◌++◌,
}
use skillfyme_hands_on.Common.Number.{Number, nat, lt, least}

pub data ReasonCode : Type 0 where
  curriculum_adjacent remediation spaced_repetition progression unblocking : ReasonCode

-- An activity's version that a query found.
pub record ActivityRow : Type 0 where
  pub activity_id : ℕ
  pub activity_version_id : ℕ

pub record Recommendation {ℓ} (W : Type ℓ) : Type ℓ where
  pub activity : ActivityRow
  pub score : W
  pub reason_code : ReasonCode

-- A skill that the learner struggles with: the estimate, its easy activities, and one easy activity at
-- most for each prerequisite that is not mastered.
pub record Struggling {ℓ} (W : Type ℓ) : Type ℓ where
  pub p_mastery : W
  pub rows : List ActivityRow
  pub ancestor_rows : List (List ActivityRow)

-- A weak skill: how many skills come after it, and the activities that are about it.
pub record Weak : Type 0 where
  pub unblocks : ℕ
  pub rows : List ActivityRow

-- What the queries find, in the order in which they find it.
pub record Found {ℓ} (W : Type ℓ) : Type ℓ where
  pub adjacent : List (ActivityRow × W)
  pub struggling : List (Struggling W)
  pub due : List (List ActivityRow)
  pub strong : List (List ActivityRow)
  pub attempted : List ℕ
  pub weak : List Weak

abbrev concat {κ} : {A : Type κ} → List (List A) → List A
concat [] = []
concat (xs ∷ xss) = xs ++ concat xss

unfoldable pub take_first {κ} : {A : Type κ} → ℕ → List A → List A
take_first zero xs = []
take_first (suc k) [] = []
take_first (suc k) (x ∷ xs) = x ∷ take_first k xs

module _ {ℓ} {W : Type ℓ} ⦃n : Number W⦄ where
  abbrev pub same_version : Recommendation W → Recommendation W → Bool
  same_version r q = r.activity.activity_version_id == q.activity.activity_version_id

  -- `if (!existing || existing.score < score) candidates.set(…)`
  unfoldable pub offer : Recommendation W → List (Recommendation W) → List (Recommendation W)
  offer r [] = r ∷ []
  offer r (q ∷ qs) =
      let rest = offer r qs in
      if same_version r q then (if lt q.score r.score then r ∷ qs else q ∷ qs) else q ∷ rest

  unfoldable pub offer_all :
      List (Recommendation W) → List (Recommendation W) → List (Recommendation W)
  unfolding offer
  offer_all [] cs = cs
  offer_all (r ∷ rs) cs = offer_all rs (offer r cs)

  abbrev offered : ReasonCode → W → ActivityRow → Recommendation W
  offered reason score row = record { activity = row; score = score; reason_code = reason }

  -- The five sources, each with its offers in order.
  abbrev pub adjacent_offers : Found W → List (Recommendation W)
  adjacent_offers f =
      map
        (λ (row, relevance).
          offered curriculum_adjacent (n.add (n.ratio 5 10) (n.mul relevance (n.ratio 3 10))) row)
        f.adjacent

  abbrev pub remediation_of : Struggling W → List (Recommendation W)
  remediation_of s =
      map (offered remediation (n.add (n.ratio 7 10) (n.sub (n.ratio 55 100) s.p_mastery))) s.rows
      ++ concat (map (λ rows. map (offered remediation (n.ratio 65 100)) rows) s.ancestor_rows)

  abbrev pub spaced_offers : Found W → List (Recommendation W)
  spaced_offers f =
      concat (map (λ rows. map (offered spaced_repetition (n.ratio 55 100)) rows) f.due)

  abbrev pub progression_offers : Found W → List (Recommendation W)
  progression_offers f = concat (
      map
        (λ rows.
          map (offered progression (n.ratio 6 10))
            (filter (λ row. not (any (λ id. id == row.activity_id) f.attempted)) rows))
        f.strong)

  abbrev pub unblocking_of : Weak → List (Recommendation W)
  unblocking_of w =
      if w.unblocks == 0
      then []
      else map
          (offered unblocking (
            least (n.add (n.ratio 6 10) (n.mul (nat w.unblocks) (n.ratio 5 100))) (n.ratio 95 100)))
          w.rows

  unfoldable pub offers : Found W → List (Recommendation W)
  offers f =
      adjacent_offers f
      ++ concat (map remediation_of f.struggling)
      ++ spaced_offers f
      ++ progression_offers f
      ++ concat (map unblocking_of f.weak)

  -- `SOURCE_WEIGHT`
  abbrev pub source_weight : ReasonCode → W
  source_weight remediation = nat 1
  source_weight unblocking = n.ratio 95 100
  source_weight curriculum_adjacent = n.ratio 8 10
  source_weight progression = n.ratio 7 10
  source_weight spaced_repetition = n.ratio 6 10

  abbrev pub weighted : Recommendation W → Recommendation W
  weighted r = record r { score = n.mul r.score (source_weight r.reason_code) }

  -- `sort`, which keeps the order of equal scores.
  unfoldable pub insert_by_score :
      Recommendation W → List (Recommendation W) → List (Recommendation W)
  insert_by_score r [] = r ∷ []
  insert_by_score r (q ∷ qs) =
      let rest = insert_by_score r qs in if n.le q.score r.score then r ∷ q ∷ qs else q ∷ rest

  unfoldable pub sort_by_score : List (Recommendation W) → List (Recommendation W)
  unfolding insert_by_score
  sort_by_score [] = []
  sort_by_score (r ∷ rs) = insert_by_score r (sort_by_score rs)

  -- `candidates`, after the five sources.
  unfoldable pub candidates : Found W → List (Recommendation W)
  unfolding offer_all offers
  candidates f = offer_all (offers f) []

  -- `eligible` is the eligibility check of a version.
  unfoldable pub recommend : (ℕ → Bool) → ℕ → Found W → List (Recommendation W)
  unfolding candidates sort_by_score take_first
  recommend eligible limit f = take_first limit (
      sort_by_score
        (map weighted (filter (λ r. eligible r.activity.activity_version_id) (candidates f))))
