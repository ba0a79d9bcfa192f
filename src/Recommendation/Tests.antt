-- ===== src/Recommendation/Tests.antt =====
-- Recommendations with scores in ten-thousandths.
use skillfyme_hands_on.Base.{ℕ, ◌≡◌, refl, Bool, List, [], ◌∷◌, All, filter, map, not, ◌==◌}
use skillfyme_hands_on.Common.Number.{ten_thousandths, ten_thousandths-IsOrdered}
use skillfyme_hands_on.Recommendation.{
  ActivityRow, Found, Recommendation, offers, candidates, recommend, take_first,
}
use mathlib.Core.List.{Perm}
use skillfyme_hands_on.Recommendation.Ranked.{AreWeighted, IsRanked, recommend-IsRanked}
use skillfyme_hands_on.Recommendation.Strongest.{IsKept, candidates-IsKept}

abbrev row : ℕ → ActivityRow
row version = record { activity_id = version; activity_version_id = version }

-- The first activity is offered as adjacent, and as the prerequisite of a skill that the learner fails.
abbrev found : Found ℕ
found = record {
  adjacent = (row 1, 10_000) ∷ [];
  struggling =
      record { p_mastery = 3_000; rows = row 2 ∷ []; ancestor_rows = (row 1 ∷ []) ∷ [] } ∷ [];
  due = (row 3 ∷ row 2 ∷ []) ∷ [];
  strong = (row 4 ∷ []) ∷ [];
  attempted = 4 ∷ [];
  weak = record { unblocks = 2; rows = row 5 ∷ [] } ∷ [];
}

abbrev eligible : ℕ → Bool
eligible version = not (version == 5)

-- Offered as a remediation alone the first activity would score 6500; the offer as adjacent, which is
-- higher before the weighting, leaves it 6400.
weighted_lower : map (λ r. r.score) (recommend eligible 2 found) ≡ 9_500 ∷ 6_400 ∷ []
unfolding recommend
weighted_lower = refl

recommend-IsRanked_example :
    (ws : List (Recommendation ℕ)) × (ranked : List (Recommendation ℕ)) × AreWeighted
      (filter (λ r. eligible r.activity.activity_version_id) (candidates found))
      ws
    × Perm ws ranked
    × IsRanked ranked
    × (recommend eligible 2 found ≡ take_first 2 ranked)
recommend-IsRanked_example = recommend-IsRanked ten_thousandths-IsOrdered eligible 2 found

candidates-IsKept_example : All (λ r. IsKept r (candidates found)) (offers found)
candidates-IsKept_example = candidates-IsKept ten_thousandths-IsOrdered found
