-- ===== src/Project/Scoring.antt =====
-- practice-core/src/modules/project/project-scoring.ts. Scores are counted in ten-thousandths and
-- weights in hundredths; sums and quotients are exact, where the source has floating point.
pub mod Bounds
use skillfyme_hands_on.Base.{
  ℕ, ◌+◌, ◌-◌, ◌*◌, max, min, Bool, true, false, ◌&&◌, ◌||◌, not, Option, none, some, List, [], ◌∷◌,
  map, ◌==◌, ltb, leb, if◌then◌else◌, get_or,
}
use skillfyme_hands_on.Store.Milestones.{
  Milestone, design, infra, implementation, hardening, final, same_key,
}
use skillfyme_hands_on.Project.Ports.{Scalar, a_number, a_text, round_div}

-- `MILESTONE_WEIGHTS`
abbrev pub milestone_weight : Milestone → ℕ
milestone_weight design = 20
milestone_weight infra = 15
milestone_weight implementation = 20
milestone_weight hardening = 20
milestone_weight final = 10

abbrev pub defence_weight : ℕ
defence_weight = 15

-- `AI_COMPONENTS`, of the milestones
abbrev pub is_ai_component : Milestone → Bool
is_ai_component design = true
is_ai_component hardening = true
is_ai_component _ = false

pub record MilestoneScoreInput : Type 0 where
  pub key : Milestone
  pub score : Option Scalar
  pub ai_derived : Bool

pub record Component : Type 0 where
  pub raw_score : ℕ
  pub authored_weight : ℕ
  pub ai_derived : Bool

pub record ProjectRollupResult : Type 0 where
  pub final_score : ℕ
  pub passed : Bool
  pub ai_fraction : ℕ
  pub ai_cap_applied : Bool

-- `clamp01` of a milestone's `score ?? 0`, in thirds of a ten-thousandth: what is no finite number,
-- a text for one, counts as 0.
abbrev pub clamp01 : Option Scalar → ℕ
clamp01 none = 0
clamp01 (some (a_text n)) = 0
clamp01 (some (a_number n)) = min 30_000 (3 * n)

-- `new Map(…).get(key)`: a later entry replaces an earlier one.
unfoldable pub by_key : Milestone → List MilestoneScoreInput → Option MilestoneScoreInput
by_key key [] = none
by_key key (m ∷ ms) = elim (by_key key ms) [
  | some n ↦ some n
  | none ↦ if same_key m.key key then some m else none
]

abbrev pub component_of : Milestone → Option MilestoneScoreInput → Component
component_of key none = record {
  raw_score = 0;
  authored_weight = milestone_weight key;
  ai_derived = is_ai_component key;
}
component_of key (some m) = record {
  raw_score = clamp01 m.score;
  authored_weight = milestone_weight key;
  ai_derived = m.ai_derived || is_ai_component key;
}

abbrev pub sequence : List Milestone
sequence = design ∷ infra ∷ implementation ∷ hardening ∷ final ∷ []

-- The score of the defence comes in thirds of a ten-thousandth.
abbrev pub defence_component : Option ℕ → Component
defence_component score = record {
  raw_score = min 30_000 (get_or score 0);
  authored_weight = defence_weight;
  ai_derived = true;
}

abbrev pub components_of : List Milestone → List MilestoneScoreInput → Option ℕ → List Component
components_of [] ms defence = defence_component defence ∷ []
components_of (k ∷ ks) ms defence = component_of k (by_key k ms) ∷ components_of ks ms defence

abbrev same_side : Bool → Bool → Bool
same_side true b = b
same_side false b = not b

-- The sum of `authoredWeight` over the components that the AI derives, or over the others.
unfoldable pub authored : Bool → List Component → ℕ
authored ai [] = 0
authored ai (c ∷ cs) = (if same_side ai c.ai_derived then c.authored_weight else 0) + authored ai cs

-- The sum of `rawScore * authoredWeight` over them.
unfoldable pub earned : Bool → List Component → ℕ
earned ai [] = 0
earned ai (c ∷ cs) =
    (if same_side ai c.ai_derived then c.raw_score * c.authored_weight else 0) + earned ai cs

-- `aiWeightBudget`, in hundredths
unfoldable pub ai_weight_budget : List Component → ℕ
unfolding authored
ai_weight_budget cs =
    if authored false cs == 0 then 100 else if authored true cs == 0 then 0 else 40

-- Half of a sum that no component is in has weight 0; its divisor is taken to be 1.
abbrev pub divisor : Bool → List Component → ℕ
divisor ai cs = max 1 (authored ai cs)

-- The sum of the weighted scores is `weighted_sum` over `weighted_unit`, in ten-thousandths.
unfoldable pub weighted_sum : List Component → ℕ
unfolding authored earned ai_weight_budget
weighted_sum cs =
    ai_weight_budget cs * earned true cs * divisor false cs
    + (100 - ai_weight_budget cs) * earned false cs * divisor true cs

unfoldable pub weighted_unit : List Component → ℕ
unfolding authored
weighted_unit cs = 300 * divisor true cs * divisor false cs

unfoldable pub final_score_of : List Component → ℕ
unfolding weighted_sum weighted_unit
final_score_of cs = min 10_000 (round_div (weighted_sum cs) (weighted_unit cs))

-- `finalAiWeighted / finalScore`, rounded, in ten-thousandths
abbrev pub ai_fraction_of : List Component → ℕ → ℕ
unfolding authored earned ai_weight_budget
ai_fraction_of cs score =
    if score == 0
    then 0
    else round_div (10_000 * (ai_weight_budget cs * earned true cs)) (300 * divisor true cs * score)

abbrev pub cap_applied : List Component → Bool
unfolding authored
cap_applied cs =
    ltb 0 (authored true cs)
    && ltb 0 (authored false cs)
    && ltb (40 * (authored true cs + authored false cs)) (100 * authored true cs)

abbrev pub pass_threshold : ℕ
pass_threshold = 7_000

-- `rollup`, without the breakdown and the evidence per skill, which copy its parts.
unfoldable pub rollup : List MilestoneScoreInput → Option ℕ → ProjectRollupResult
unfolding by_key final_score_of
rollup ms defence =
    let cs = components_of sequence ms defence in
    let score = final_score_of cs in
    record {
      final_score = score;
      passed = leb pass_threshold score;
      ai_fraction = ai_fraction_of cs score;
      ai_cap_applied = cap_applied cs;
    }
