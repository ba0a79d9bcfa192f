-- ===== src/Project/Progress.antt =====
-- What the milestones of a project promise: so many have passed, one is being worked on, and the ones
-- after it are locked; or all have passed. The updates of project.repository.ts act on a project's rows
-- as `enter` and `decide` act on that.
pub mod Steps
pub mod Updates
pub mod Seeds
pub mod Race
use skillfyme_hands_on.Base.{ℕ, zero, suc, ◌+◌, ◌≡◌, Bool, true, false, List, [], ◌∷◌, All, filter}
use skillfyme_hands_on.Store.Milestones.{
  MilestoneStatus, milestone_locked, milestone_open, milestone_in_gate, gated_pass, gated_fail,
  MilestoneStateRow,
}
use skillfyme_hands_on.Project.Repository.{of_attempt, list_rows}
use skillfyme_hands_on.Project.Repository.Rows.{has_key, Distinct}

pub data Progress : Type 0 where
  -- `finished n`: all of `n` milestones have passed.
  finished : ℕ → Progress
  -- `working d s l`: `d` have passed, the next has status `s`, the `l` after it are locked.
  working : ℕ → MilestoneStatus → ℕ → Progress

-- A milestone that may be submitted: open, being gated, or failed.
abbrev pub submittable : MilestoneStatus → Bool
submittable milestone_locked = false
submittable gated_pass = false
submittable _ = true

-- A submission enters its gate.
unfoldable pub enter : Progress → Progress
enter (finished n) = finished n
enter (working d s l) = working d milestone_in_gate l

-- The gate decides.
unfoldable pub decide : Bool → Progress → Progress
decide b (finished n) = finished n
decide false (working d s l) = working d gated_fail l
decide true (working d s zero) = finished (suc d)
decide true (working d s (suc l)) = working (suc d) milestone_open l

abbrev pub passed_count : Progress → ℕ
passed_count (finished n) = n
passed_count (working d s l) = d

abbrev pub IsLive : Progress → Type 0
IsLive (finished zero) = ⊥
IsLive (finished (suc n)) = Unit
IsLive (working d s l) = submittable s ≡ true

-- Rows of one attempt, at the places from `k` on, under different keys.
abbrev pub Laid : ℕ → ℕ → List MilestoneStateRow → Type 0
Laid id k [] = Unit
Laid id k (r ∷ rs) =
    (r.attempt_id ≡ id)
    × (r.ordinal ≡ k)
    × All (λ q. has_key r.milestone_key q ≡ false) rs
    × Laid id (k + 1) rs

abbrev pub Locked : ℕ → List MilestoneStateRow → Type 0
Locked zero [] = Unit
Locked zero (r ∷ rs) = ⊥
Locked (suc l) [] = ⊥
Locked (suc l) (r ∷ rs) = (r.status ≡ milestone_locked) × Locked l rs

-- The rows are at that point.
abbrev pub AllPassed : ℕ → List MilestoneStateRow → Type 0
AllPassed zero [] = Unit
AllPassed zero (r ∷ rs) = ⊥
AllPassed (suc n) [] = ⊥
AllPassed (suc n) (r ∷ rs) = (r.status ≡ gated_pass) × AllPassed n rs

abbrev pub Working : ℕ → MilestoneStatus → ℕ → List MilestoneStateRow → Type 0
Working d s l [] = ⊥
Working zero s l (r ∷ rs) = (r.status ≡ s) × Locked l rs
Working (suc d) s l (r ∷ rs) = (r.status ≡ gated_pass) × Working d s l rs

abbrev pub Shows : Progress → List MilestoneStateRow → Type 0
Shows (finished n) rs = AllPassed n rs
Shows (working d s l) rs = Working d s l rs

-- An attempt's milestones are at a point of the sequence.
pub record IsAt (id : ℕ) (p : Progress) (t : List MilestoneStateRow) : Type 0 where
  pub distinct : Distinct (filter (of_attempt id) t)
  pub laid : Laid id 0 (list_rows id t)
  pub shows : Shows p (list_rows id t)
  pub live : IsLive p
