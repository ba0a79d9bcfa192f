-- ===== src/Mentor/Disclosure/Tests.antt =====
-- Runs of disclosure-policy.ts, and its theorems at concrete inputs.
use skillfyme_hands_on.Base.{◌≤◌, ◌<◌, ◌≡◌, ◌↔◌, ◌⊎◌, refl, true, false, none, some}
use skillfyme_hands_on.Common.Mode.{guided_lab, production_sim, project}
use skillfyme_hands_on.Mentor.Disclosure.{
  give_command, senior_oncall, ResolveInput, resolve_disclosure,
}
use skillfyme_hands_on.Mentor.Disclosure.Laws.{Allows, production_sim_withholds, give_command_iff}

-- A struggling learner in a guided lab, at the first hint.
abbrev struggling : ResolveInput
struggling = record {
  mode = guided_lab;
  mean_mastery = 2000;
  time_stuck = 12_000;
  hint_level_reached = some 1;
  activity_override = none;
}

abbrev on_call : ResolveInput
on_call = record struggling { mode = production_sim; activity_override = some 3 }

abbrev settled : ResolveInput
settled = record struggling { mean_mastery = 6000; time_stuck = 3000; hint_level_reached = none }

on_call_run : resolve_disclosure on_call ≡ record {
  persona = senior_oncall;
  ceiling = 1;
  may_use_canonical_path = false;
  max_code_lines = 0;
}
unfolding resolve_disclosure
on_call_run = refl

struggling_run : (resolve_disclosure struggling).ceiling ≡ 4
unfolding resolve_disclosure
struggling_run = refl

reviewer_run :
    (resolve_disclosure (record struggling { mode = project })).may_use_canonical_path ≡ true
unfolding resolve_disclosure
reviewer_run = refl

production_sim_withholds_example :
    ((resolve_disclosure on_call).ceiling ≤ 1)
    × ((resolve_disclosure on_call).may_use_canonical_path ≡ false)
    × ((resolve_disclosure on_call).max_code_lines ≡ 0)
production_sim_withholds_example = production_sim_withholds on_call refl

give_command_iff_example : ((resolve_disclosure struggling).ceiling ≡ give_command) ↔ (
    (guided_lab ≡ guided_lab)
    × Allows none give_command
    × ((3 ≤ 1) ⊎ ((2000 < 4000) × (10_000 ≤ 12_000))))
give_command_iff_example = give_command_iff struggling
