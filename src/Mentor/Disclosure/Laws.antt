-- ===== src/Mentor/Disclosure/Laws.antt =====
-- What the disclosure policy of disclosure-policy.ts guarantees to each mode.
use skillfyme_hands_on.Base.{ℕ, ◌≤◌, ◌<◌, ◌≡◌, ◌↔◌, ◌⊎◌, false, Option, none, some, get_or, arith}
use skillfyme_hands_on.Common.Mode.{guided_lab, production_sim}
use skillfyme_hands_on.Mentor.Disclosure.{give_command, mode_max, ResolveInput, resolve_disclosure}

-- An author's override of an activity, as a bound: without one every ceiling is allowed.
abbrev pub Allows : Option ℕ → ℕ → Type 0
Allows none c = Unit
Allows (some o) c = c ≤ o

-- The ceiling never exceeds the mode's hard ceiling, nor the author's override.
pub resolve_disclosure_bounds :
    (i : ResolveInput)
    → ((resolve_disclosure i).ceiling ≤ mode_max i.mode)
      × Allows i.activity_override (resolve_disclosure i).ceiling
unfolding resolve_disclosure
resolve_disclosure_bounds i =
    elim i.activity_override
      as (λ o.
        ((resolve_disclosure (record i { activity_override = o })).ceiling ≤ mode_max i.mode)
        × Allows o (resolve_disclosure (record i { activity_override = o })).ceiling) [
          | none ↦ (omega arith, tt)
          | some o ↦ (omega arith, omega arith)
        ]

-- What the policy resolves for a production simulation: the ceiling is at most "narrow search", the
-- canonical path may not be used, and the most lines of code are 0, whatever the learner's mastery,
-- the time stuck, the hints and the author's override.
pub production_sim_withholds :
    (i : ResolveInput)
    → i.mode ≡ production_sim
    → ((resolve_disclosure i).ceiling ≤ 1)
      × ((resolve_disclosure i).may_use_canonical_path ≡ false)
      × ((resolve_disclosure i).max_code_lines ≡ 0)
unfolding resolve_disclosure
production_sim_withholds i h = ground arith

-- The exact command is given in a guided lab only, if the author's override allows it, and either
-- the third hint was reached or mastery is below 0.4 and the learner was stuck for ten minutes.
pub give_command_iff :
    (i : ResolveInput)
    → ((resolve_disclosure i).ceiling ≡ give_command) ↔ (
        (i.mode ≡ guided_lab)
        × Allows i.activity_override give_command
        × ((3 ≤ get_or i.hint_level_reached 0)
            ⊎ ((i.mean_mastery < 4000) × (10_000 ≤ i.time_stuck))))
unfolding resolve_disclosure
give_command_iff i = ground arith

-- More need never lowers the ceiling: for one mode and one override, less mastery, a longer time
-- stuck and deeper hints leave it as it is or raise it.
pub ceiling_mono :
    (i j : ResolveInput)
    → i.mode ≡ j.mode
    → i.activity_override ≡ j.activity_override
    → j.mean_mastery ≤ i.mean_mastery
    → i.time_stuck ≤ j.time_stuck
    → get_or i.hint_level_reached 0 ≤ get_or j.hint_level_reached 0
    → (resolve_disclosure i).ceiling ≤ (resolve_disclosure j).ceiling
unfolding resolve_disclosure
ceiling_mono i j m o p q r = ground arith
