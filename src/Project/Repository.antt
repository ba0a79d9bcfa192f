-- ===== src/Project/Repository.antt =====
-- practice-core/src/modules/project/project.repository.ts. The primary key of the milestones' table is
-- the attempt with the milestone's key.
pub mod Rows
use skillfyme_hands_on.Base.{
  ℕ, ◌+◌, Bool, true, false, ◌&&◌, Option, none, some, List, [], ◌∷◌, map, ◌==◌, leb, if◌then◌else◌,
  any, find, filter,
}
use skillfyme_hands_on.Store.Milestones.{
  Milestone, MilestoneStatus, milestone_locked, milestone_open, milestone_in_gate, gated_pass,
  gated_fail, same_key, MilestoneStateRow, SubmissionRow,
}
use skillfyme_hands_on.Store.Rows.{World}
use skillfyme_hands_on.Store.Monad.{ok, err, fault, M}

-- `SeedMilestoneInput`
pub record SeedMilestoneInput : Type 0 where
  pub milestone_key : Milestone
  pub ordinal : ℕ
  pub status : MilestoneStatus

-- `WHERE attempt_id = … AND milestone_key = …`
abbrev pub is_row : ℕ → Milestone → MilestoneStateRow → Bool
is_row id key r = (r.attempt_id == id) && same_key r.milestone_key key

abbrev pub seeded_row : ℕ → SeedMilestoneInput → MilestoneStateRow
seeded_row id m = record {
  attempt_id = id;
  milestone_key = m.milestone_key;
  status = m.status;
  ordinal = m.ordinal;
  submitted_at = none;
  gated_at = none;
  score = none;
  rubric_level = none;
  attempt_count = 0;
}

-- `INSERT … ON CONFLICT (attempt_id, milestone_key) DO NOTHING`
unfoldable pub seed_rows :
    ℕ → List SeedMilestoneInput → List MilestoneStateRow → List MilestoneStateRow
seed_rows id [] t = t
seed_rows id (m ∷ ms) t =
    seed_rows id ms (if any (is_row id m.milestone_key) t then t else seeded_row id m ∷ t)

abbrev pub seed_milestones : ℕ → List SeedMilestoneInput → World → World
seed_milestones id ms w = record w { milestones = seed_rows id ms w.milestones }

-- `ORDER BY ordinal ASC`, as an insertion sort
unfoldable pub insert_by_ordinal :
    MilestoneStateRow → List MilestoneStateRow → List MilestoneStateRow
insert_by_ordinal r [] = r ∷ []
insert_by_ordinal r (x ∷ xs) =
    if leb r.ordinal x.ordinal then r ∷ x ∷ xs else x ∷ insert_by_ordinal r xs

unfoldable pub order_by_ordinal : List MilestoneStateRow → List MilestoneStateRow
unfolding insert_by_ordinal
order_by_ordinal [] = []
order_by_ordinal (r ∷ rs) = insert_by_ordinal r (order_by_ordinal rs)

abbrev pub of_attempt : ℕ → MilestoneStateRow → Bool
of_attempt id r = r.attempt_id == id

unfoldable pub list_rows : ℕ → List MilestoneStateRow → List MilestoneStateRow
unfolding order_by_ordinal
list_rows id t = order_by_ordinal (filter (of_attempt id) t)

unfoldable pub get_milestone : ℕ → Milestone → World → Option MilestoneStateRow
get_milestone id key w = find (is_row id key) w.milestones

-- The columns that an update sets on the rows that its condition selects.
abbrev pub set_where :
    (MilestoneStateRow → Bool)
    → (MilestoneStateRow → MilestoneStateRow)
    → MilestoneStateRow
    → MilestoneStateRow
set_where p f r = if p r then f r else r

abbrev pub submitted_row : ℕ → MilestoneStateRow → MilestoneStateRow
submitted_row now r = record r {
  status = milestone_in_gate;
  submitted_at = some now;
  attempt_count = r.attempt_count + 1;
}

unfoldable pub mark_submitted : ℕ → Milestone → M ℕ
unfolding get_milestone
mark_submitted id key w = elim (get_milestone id key w) [
  | none ↦ err fault w
  | some r ↦
      ok (r.attempt_count + 1) (record w {
        milestones = map (set_where (is_row id key) (submitted_row w.now)) w.milestones;
      })
]

-- `GateOutcomeInput`; `passed` is whether the outcome is GATED_PASS.
pub record GateOutcome : Type 0 where
  pub passed : Bool
  pub score : ℕ
  pub rubric_level : Option ℕ

abbrev pub status_of : Bool → MilestoneStatus
status_of true = gated_pass
status_of false = gated_fail

abbrev pub gated_row : ℕ → GateOutcome → MilestoneStateRow → MilestoneStateRow
gated_row now o r = record r {
  status = status_of o.passed;
  score = some o.score;
  rubric_level = o.rubric_level;
  gated_at = some now;
}

abbrev pub is_locked : MilestoneStatus → Bool
is_locked milestone_locked = true
is_locked _ = false

-- `WHERE attempt_id = … AND ordinal = … AND status = 'LOCKED'`
abbrev pub is_locked_at : ℕ → ℕ → MilestoneStateRow → Bool
is_locked_at id n r = (r.attempt_id == id) && (r.ordinal == n) && is_locked r.status

abbrev pub opened_row : MilestoneStateRow → MilestoneStateRow
opened_row r = record r { status = milestone_open }

-- The two updates of `applyGateOutcome`, which are one transaction.
unfoldable pub gate_table :
    ℕ → Milestone → ℕ → ℕ → GateOutcome → List MilestoneStateRow → List MilestoneStateRow
gate_table id key now n o t =
    let gated = map (set_where (is_row id key) (gated_row now o)) t in
    if o.passed then map (set_where (is_locked_at id (n + 1)) opened_row) gated else gated

-- The check that 0010_project_mode.sql puts on `rubric_level`, which is of the levels 1 to 5 or null
abbrev pub level_allowed : Option ℕ → Bool
level_allowed none = true
level_allowed (some n) = leb 1 n && leb n 5

-- A row that the check refuses is an exception, which undoes the transaction.
unfoldable pub apply_gate_outcome : ℕ → Milestone → GateOutcome → M (Unit {0})
unfolding get_milestone
apply_gate_outcome id key o w = elim (get_milestone id key w) [
  | none ↦ err fault w
  | some r ↦
      if level_allowed o.rubric_level
      then ok tt (record w { milestones = gate_table id key w.now r.ordinal o w.milestones })
      else err fault w
]

-- `recordSubmission` with the columns it is given; the newest submission stands first.
unfoldable pub record_submission : ℕ → Milestone → Option ℕ → Option ℕ → ℕ → World → World
record_submission id key repo commit n w = record w {
  submissions =
      record {
        attempt_id = id;
        milestone_key = key;
        repo_ref = repo;
        commit_sha = commit;
        attempt_number = n;
        outcome = none;
        score = none;
        submitted_at = w.now;
      }
      ∷ w.submissions;
}

abbrev pub is_submission : ℕ → Milestone → ℕ → SubmissionRow → Bool
is_submission id key n s =
    (s.attempt_id == id) && same_key s.milestone_key key && (s.attempt_number == n)

abbrev pub stamped : Bool → ℕ → SubmissionRow → SubmissionRow
stamped passed score s = record s { outcome = some passed; score = some score }

unfoldable pub stamp_submission_outcome : ℕ → Milestone → ℕ → Bool → ℕ → World → World
stamp_submission_outcome id key n passed score w = record w {
  submissions =
      map (λ s. if is_submission id key n s then stamped passed score s else s) w.submissions;
}

-- `listSubmissions` for an attempt, `ORDER BY submitted_at DESC`: new rows are put in front.
unfoldable pub list_submissions : ℕ → World → List SubmissionRow
list_submissions id w = filter (λ s. s.attempt_id == id) w.submissions
