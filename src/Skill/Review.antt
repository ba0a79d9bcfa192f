-- ===== src/Skill/Review.antt =====
-- practice-core/src/modules/skill/spaced-repetition.ts. Times are in milliseconds.
use skillfyme_hands_on.Base.{
  ℕ, ◌+◌, ◌*◌, ◌≤◌, ◌≡◌, refl, min, Bool, true, false, Option, none, some, leb, if◌then◌else◌,
  arith,
}
use skillfyme_hands_on.Skill.Bkt.{MasteryBand, novice, developing, competent, proficient, mastered}

-- A tenth of a day.
abbrev tenth : ℕ
tenth = 8_640_000

abbrev base_interval_days : MasteryBand → Option ℕ
base_interval_days novice = none
base_interval_days developing = none
base_interval_days competent = some 7
base_interval_days proficient = some 14
base_interval_days mastered = some 30

-- In tenths of a day: a review that is on time grows the base by 1.8, up to 180 days.
abbrev interval : ℕ → ℕ → Option ℕ → ℕ
interval base now none = base * 10
interval base now (some prev) = if leb now prev then min (base * 18) 1_800 else base * 10

unfoldable pub compute_review_due_at : MasteryBand → ℕ → Option ℕ → Option ℕ
compute_review_due_at band now prev = elim (base_interval_days band) [
  | none ↦ none
  | some base ↦ some (now + interval base now prev * tenth)
]

unfoldable pub is_review_due : Option ℕ → ℕ → Bool
is_review_due none now = false
is_review_due (some due) now = leb due now

abbrev pub is_in_rotation : MasteryBand → Bool
is_in_rotation novice = false
is_in_rotation developing = false
is_in_rotation _ = true

-- When a review is due after evidence at `now`, if at all.
abbrev pub IsDueWithin : Bool → ℕ → Option ℕ → Type 0
IsDueWithin rotates now none = rotates ≡ false
IsDueWithin rotates now (some due) =
    (rotates ≡ true) × (now + 70 * tenth ≤ due) × (due ≤ now + 540 * tenth)

-- A skill has a review exactly from the band Competent on, a week from the evidence at the earliest and
-- 54 days at the latest, whatever review was due before.
pub compute_review_due_at_lem :
    (band : MasteryBand) (now : ℕ) (prev : Option ℕ)
    → IsDueWithin (is_in_rotation band) now (compute_review_due_at band now prev)
unfolding compute_review_due_at
compute_review_due_at_lem novice now prev = refl
compute_review_due_at_lem developing now prev = refl
compute_review_due_at_lem competent now none = ground arith
compute_review_due_at_lem competent now (some p) = ground arith
compute_review_due_at_lem proficient now none = ground arith
compute_review_due_at_lem proficient now (some p) = ground arith
compute_review_due_at_lem mastered now none = ground arith
compute_review_due_at_lem mastered now (some p) = ground arith
