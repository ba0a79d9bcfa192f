-- ===== src/Mentor/Disclosure.antt =====
-- practice-core/src/modules/mentor/disclosure-policy.ts: how much the mentor may disclose.
-- The enum `DisclosureCeiling` is its numbers 0 to 4. `meanMastery` is counted in ten-thousandths
-- and `timeStuckMinutes` in thousandths of a minute; an absent `hintLevelReached` or
-- `activityOverride` is `none`.
pub mod Laws
mod Tests
use skillfyme_hands_on.Base.{
  ℕ, ◌+◌, min, max, Bool, true, false, ◌&&◌, Option, none, some, ltb, leb, if◌then◌else◌, get_or,
}
use skillfyme_hands_on.Common.Mode.{ActivityMode, guided_lab, production_sim, project}

pub data Persona : Type 0 where
  patient_tutor senior_oncall staff_reviewer : Persona

abbrev pub concept_only : ℕ
concept_only = 0

abbrev pub narrow_search : ℕ
narrow_search = 1

abbrev pub identify_area : ℕ
identify_area = 2

abbrev pub identify_cause : ℕ
identify_cause = 3

abbrev pub give_command : ℕ
give_command = 4

pub record DisclosureResolution : Type 0 where
  pub persona : Persona
  pub ceiling : ℕ
  pub may_use_canonical_path : Bool
  pub max_code_lines : ℕ

-- `MODE_MAX`
abbrev pub mode_max : ActivityMode → ℕ
mode_max guided_lab = give_command
mode_max production_sim = narrow_search
mode_max project = identify_area

-- `MODE_PERSONA`
abbrev pub mode_persona : ActivityMode → Persona
mode_persona guided_lab = patient_tutor
mode_persona production_sim = senior_oncall
mode_persona project = staff_reviewer

-- `MODE_MAX_CODE_LINES`
abbrev pub mode_max_code_lines : ActivityMode → ℕ
mode_max_code_lines guided_lab = 5
mode_max_code_lines production_sim = 0
mode_max_code_lines project = 0

pub record ResolveInput : Type 0 where
  pub mode : ActivityMode
  pub mean_mastery : ℕ
  pub time_stuck : ℕ
  pub hint_level_reached : Option ℕ
  pub activity_override : Option ℕ

abbrev pub is_guided_lab : ActivityMode → Bool
is_guided_lab guided_lab = true
is_guided_lab _ = false

abbrev pub base_ceiling : ActivityMode → ℕ
base_ceiling guided_lab = identify_area
base_ceiling production_sim = narrow_search
base_ceiling project = concept_only

-- The two signals, each of which adds one to the base.
pub with_signals : ResolveInput → ℕ
with_signals i =
    let c = base_ceiling i.mode in
    let c' = if ltb i.mean_mastery 4000 then c + 1 else c in
    if leb 10_000 i.time_stuck then c' + 1 else c'

pub with_hints : ResolveInput → ℕ
unfolding with_signals
with_hints i =
    if is_guided_lab i.mode && leb 3 (get_or i.hint_level_reached 0)
    then give_command
    else with_signals i

abbrev pub with_override : Option ℕ → ℕ → ℕ
with_override none c = c
with_override (some o) c = min c o

pub ceiling_of : ResolveInput → ℕ
unfolding with_hints
ceiling_of i =
    max 0
      (min (min (with_override i.activity_override (with_hints i)) (mode_max i.mode)) give_command)

unfoldable pub resolve_disclosure : ResolveInput → DisclosureResolution
unfolding ceiling_of
resolve_disclosure i = record {
  persona = mode_persona i.mode;
  ceiling = ceiling_of i;
  may_use_canonical_path = leb identify_area (ceiling_of i);
  max_code_lines =
      if leb give_command (ceiling_of i)
      then mode_max_code_lines i.mode
      else min (mode_max_code_lines i.mode) (if is_guided_lab i.mode then 5 else 0);
}
