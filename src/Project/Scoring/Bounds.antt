-- ===== src/Project/Scoring/Bounds.antt =====
-- How much of a project's score the AI decides.
use skillfyme_hands_on.Base.{
  ℕ, ◌≤◌, ◌+◌, min, Bool, true, false, ◌||◌, Option, none, some, List, [], ◌∷◌, ◌≡◌, refl, leb,
  arith, get_or, All,
}
use skillfyme_hands_on.Store.Milestones.{Milestone, design, infra, implementation, hardening, final}
use skillfyme_hands_on.Project.Ports.{Scalar, a_text, a_number, round_div}
use skillfyme_hands_on.Project.Scoring.{
  milestone_weight, is_ai_component, MilestoneScoreInput, Component, clamp01, by_key, component_of,
  authored, earned, ai_weight_budget, weighted_sum, weighted_unit, final_score_of, rollup,
}

-- The components of a roll-up by what they scored, from design to the defence, and by whether the
-- scores of infra, implementation and final are the AI's.
abbrev components : Bool → Bool → Bool → ℕ → ℕ → ℕ → ℕ → ℕ → ℕ → List Component
components b c e d i m h f v =
    record { raw_score = d; authored_weight = 20; ai_derived = true }
    ∷ record { raw_score = i; authored_weight = 15; ai_derived = b }
    ∷ record { raw_score = m; authored_weight = 20; ai_derived = c }
    ∷ record { raw_score = h; authored_weight = 20; ai_derived = true }
    ∷ record { raw_score = f; authored_weight = 10; ai_derived = e }
    ∷ record { raw_score = v; authored_weight = 15; ai_derived = true }
    ∷ []

-- Where only the defence scored, the project fails.
final_score_of_defence :
    (b c e : Bool) (v : ℕ)
    → v ≤ 30_000
    → leb 7_000 (final_score_of (components b c e 0 0 0 0 0 v)) ≡ false
unfolding final_score_of weighted_sum weighted_unit authored earned ai_weight_budget round_div
final_score_of_defence false false false v x = ground arith
final_score_of_defence _ _ _ v x = ground arith

final_score_of_share :
    (d i m h f v d' h' v' : ℕ)
    → d ≤ 30_000
    → h ≤ 30_000
    → v ≤ 30_000
    → final_score_of (components false false false d i m h f v)
      ≤ final_score_of (components false false false d' i m h' f v') + 4_000
unfolding final_score_of weighted_sum weighted_unit authored earned ai_weight_budget round_div
final_score_of_share d i m h f v d' h' v' x y z = omega arith

clamp01_bound : (s : Option Scalar) → clamp01 s ≤ 30_000
clamp01_bound none = omega arith
clamp01_bound (some (a_text n)) = omega arith
clamp01_bound (some (a_number n)) = omega arith

-- The scores of a project's five milestones, with whether the gate of infra, implementation and
-- final has a rubric.
abbrev pub scores :
    Bool
    → Bool
    → Bool
    → Option Scalar
    → Option Scalar
    → Option Scalar
    → Option Scalar
    → Option Scalar
    → List MilestoneScoreInput
scores b c e d i m h f =
    record { key = design; score = d; ai_derived = true }
    ∷ record { key = infra; score = i; ai_derived = b }
    ∷ record { key = implementation; score = m; ai_derived = c }
    ∷ record { key = hardening; score = h; ai_derived = true }
    ∷ record { key = final; score = f; ai_derived = e }
    ∷ []

-- Where infra, implementation and final are gated by validators alone, two projects whose scores for
-- these agree have final scores at most 0.4 apart, whatever the graders make of their design, their
-- hardening and their defence.
pub rollup_ai_share :
    (i m f d d' h h' : Option Scalar) (v v' : Option ℕ)
    → (rollup (scores false false false d i m h f) v).final_score
      ≤ (rollup (scores false false false d' i m h' f) v').final_score + 4_000
unfolding rollup by_key
rollup_ai_share i m f d d' h h' v v' =
    final_score_of_share (clamp01 d) (clamp01 i) (clamp01 m) (clamp01 h) (clamp01 f)
      (min 30_000 (get_or v 0)) (clamp01 d') (clamp01 h') (min 30_000 (get_or v' 0))
      (clamp01_bound d) (clamp01_bound h) (omega arith)

-- A project whose milestones and defence have full marks has the final score 1 and passes, whichever
-- of its scores are the AI's.
pub rollup_perfect :
    (b c e : Bool)
    → (let full = some (a_number 10_000) in
        let r = rollup (scores b c e full full full full full) (some 30_000) in
        (r.final_score ≡ 10_000) × (r.passed ≡ true))
unfolding rollup by_key round_div
rollup_perfect false false false = (refl, refl)
rollup_perfect false false true = (refl, refl)
rollup_perfect false true false = (refl, refl)
rollup_perfect false true true = (refl, refl)
rollup_perfect true false false = (refl, refl)
rollup_perfect true false true = (refl, refl)
rollup_perfect true true false = (refl, refl)
rollup_perfect true true true = (refl, refl)

-- No score is a number.
abbrev pub NoNumber : MilestoneScoreInput → Type 0
NoNumber m = clamp01 m.score ≡ 0

by_key-NoNumber :
    (key : Milestone) (ms : List MilestoneScoreInput)
    → All NoNumber ms
    → (component_of key (by_key key ms)).raw_score ≡ 0
unfolding by_key
by_key-NoNumber key [] h = refl
by_key-NoNumber key (m ∷ ms) (h, hs) = ground (arith, by_key-NoNumber key ms hs)

-- A component with no score, as the roll-up sees it.
component_of_unscored :
    (key : Milestone) (o : Option MilestoneScoreInput)
    → (component_of key o).raw_score ≡ 0
    → (b : Bool) × (component_of key o
        ≡ record { raw_score = 0; authored_weight = milestone_weight key; ai_derived = b })
component_of_unscored key none h = (is_ai_component key, refl)
component_of_unscored key (some m) h = (m.ai_derived || is_ai_component key, rw h refl)

component_of_ai :
    (key : Milestone) (o : Option MilestoneScoreInput)
    → is_ai_component key ≡ true
    → (component_of key o).raw_score ≡ 0
    → component_of key o
      ≡ record { raw_score = 0; authored_weight = milestone_weight key; ai_derived = true }
component_of_ai key none e h = rw e refl
component_of_ai key (some m) e h =
    let f : (m.ai_derived || is_ai_component key) ≡ true = ground arith in rw (h, f) refl

-- A project whose milestones' scores reach the roll-up as no numbers does not pass, whatever its
-- defence scored.
pub rollup-fails :
    (ms : List MilestoneScoreInput) (v : Option ℕ) → All NoNumber ms → (rollup ms v).passed ≡ false
unfolding rollup
rollup-fails ms v h =
    let (b, x) = component_of_unscored infra _ (by_key-NoNumber infra ms h) in
    let (c, y) = component_of_unscored implementation _ (by_key-NoNumber implementation ms h) in
    let (e, z) = component_of_unscored final _ (by_key-NoNumber final ms h) in
    rw
      (
        component_of_ai design _ refl (by_key-NoNumber design ms h),
        x,
        y,
        component_of_ai hardening _ refl (by_key-NoNumber hardening ms h),
        z,
      )
      (final_score_of_defence b c e (min 30_000 (get_or v 0)) (omega arith))
