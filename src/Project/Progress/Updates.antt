-- ===== src/Project/Progress/Updates.antt =====
-- The updates of project.repository.ts refine `enter` and `decide`.
use skillfyme_hands_on.Base.{
  ℕ, zero, suc, ◌+◌, ◌≡◌, ◌∙◌, refl, ap, Bool, true, false, some, List, [], ◌∷◌, map, find, filter,
  All, arith,
}
use skillfyme_hands_on.Store.Milestones.{
  Milestone, MilestoneStatus, milestone_open, milestone_in_gate, gated_fail, MilestoneStateRow,
}
use skillfyme_hands_on.Project.Repository.{
  is_row, of_attempt, list_rows, set_where, submitted_row, GateOutcome, status_of, gated_row,
  is_locked_at, opened_row, gate_table,
}
use skillfyme_hands_on.Project.Repository.Rows.{has_key, Distinct, list_rows-map, filter-map}
use skillfyme_hands_on.Project.Progress.{
  Progress, finished, working, submittable, enter, decide, IsLive, Laid, Working, Shows, IsAt,
}
use skillfyme_hands_on.Project.Progress.Steps.{
  Marks, find-AllPassed, Working-set, open_last, open_next, Working-ordinal,
}

-- A change of rows that keeps their attempts, places and keys.
record IsInPlace (g : MilestoneStateRow → MilestoneStateRow) : Type 0 where
  key : (r : MilestoneStateRow) → (g r).milestone_key ≡ r.milestone_key
  ordinal : (r : MilestoneStateRow) → (g r).ordinal ≡ r.ordinal
  attempt : (r : MilestoneStateRow) → (g r).attempt_id ≡ r.attempt_id

abbrev Placed : ℕ → List MilestoneStateRow → Type 0
Placed id t = Distinct (filter (of_attempt id) t) × Laid id 0 (list_rows id t)

module _ (g : MilestoneStateRow → MilestoneStateRow) (keeps : IsInPlace g) where
  All-has_key-map :
      (key key' : Milestone) (rs : List MilestoneStateRow)
      → key' ≡ key
      → All (λ q. has_key key q ≡ false) rs
      → All (λ q. has_key key' q ≡ false) (map g rs)
  All-has_key-map key key' [] e n = tt
  All-has_key-map key key' (r ∷ rs) e (n, ns) =
      (ground (arith, keeps.key r), All-has_key-map key key' rs e ns)

  Distinct-map : (rs : List MilestoneStateRow) → Distinct rs → Distinct (map g rs)
  Distinct-map [] d = tt
  Distinct-map (r ∷ rs) (d, ds) = (All-has_key-map _ _ rs (keeps.key r) d, Distinct-map rs ds)

  Laid-map : (id k : ℕ) (rs : List MilestoneStateRow) → Laid id k rs → Laid id k (map g rs)
  Laid-map id k [] p = tt
  Laid-map id k (r ∷ rs) (a, o, d, ps) = (
    keeps.attempt r ∙ a,
    keeps.ordinal r ∙ o,
    All-has_key-map _ _ rs (keeps.key r) d,
    Laid-map id (k + 1) rs ps,
  )

  Placed-map : (id : ℕ) (t : List MilestoneStateRow) → Placed id t → Placed id (map g t)
  Placed-map id t (d, p) = (
    rw (filter-map g keeps.attempt id t) (Distinct-map (filter (of_attempt id) t) d),
    rw (list_rows-map g keeps.ordinal keeps.attempt id t) (Laid-map id 0 (list_rows id t) p),
  )

  Shows-map :
      (id : ℕ) (q : Progress) (t : List MilestoneStateRow)
      → Shows q (map g (list_rows id t))
      → Shows q (list_rows id (map g t))
  Shows-map id q t s = rw (list_rows-map g keeps.ordinal keeps.attempt id t) s

  IsAt-map :
      (id : ℕ) (q : Progress) (t : List MilestoneStateRow)
      → Placed id t
      → Shows q (map g (list_rows id t))
      → IsLive q
      → IsAt id q (map g t)
  IsAt-map id q t h s l = record {
    distinct = (Placed-map id t h).0;
    laid = (Placed-map id t h).1;
    shows = Shows-map id q t s;
    live = l;
  }

set-IsInPlace :
    (p : MilestoneStateRow → Bool) (f : MilestoneStateRow → MilestoneStateRow) (s : MilestoneStatus)
    → Marks f s
    → IsInPlace (set_where p f)
set-IsInPlace p f s k = record {
  key = λ r. ground (arith, k.key r);
  ordinal = λ r. ground (arith, k.ordinal r);
  attempt = λ r. ground (arith, k.attempt r);
}

submitted_row-Marks : (now : ℕ) → Marks (submitted_row now) milestone_in_gate
submitted_row-Marks now = record {
  status = λ r. refl;
  key = λ r. refl;
  ordinal = λ r. refl;
  attempt = λ r. refl;
}

gated_row-Marks : (now : ℕ) (o : GateOutcome) → Marks (gated_row now o) (status_of o.passed)
gated_row-Marks now o = record {
  status = λ r. refl;
  key = λ r. refl;
  ordinal = λ r. refl;
  attempt = λ r. refl;
}

opened_row-Marks : Marks opened_row milestone_open
opened_row-Marks = record {
  status = λ r. refl;
  key = λ r. refl;
  ordinal = λ r. refl;
  attempt = λ r. refl;
}

-- A milestone under its key that may be submitted: there is work left, and it stands there.
module _ (id : ℕ) (key : Milestone) (t : List MilestoneStateRow) (r : MilestoneStateRow)
    (e : find (has_key key) (list_rows id t) ≡ some r) (a : submittable r.status ≡ true) where
  IsAt-set :
      (d l : ℕ) (s s' : MilestoneStatus) (f : MilestoneStateRow → MilestoneStateRow)
      → Marks f s'
      → IsAt id (working d s l) t
      → Working d s' l (map (set_where (is_row id key) f) (list_rows id t))
  IsAt-set d l s s' f k h = Working-set id key f s' k 0 d l s (list_rows id t) r h.laid h.shows e a

  pub mark-IsAt :
      (p : Progress) (now : ℕ)
      → IsAt id p t
      → IsAt id (enter p) (map (set_where (is_row id key) (submitted_row now)) t)
  unfolding enter
  mark-IsAt (finished n) now h =
      let b = find-AllPassed key n (list_rows id t) r h.shows e in absurd (ground arith)
  mark-IsAt (working d s l) now h =
      IsAt-map _ (set-IsInPlace (is_row id key) (submitted_row now) _ (submitted_row-Marks now)) id
        (working d milestone_in_gate l) t (h.distinct, h.laid)
        (IsAt-set d l s milestone_in_gate (submitted_row now) (submitted_row-Marks now) h) refl

  gated_working :
      (d l : ℕ) (s : MilestoneStatus) (now : ℕ) (o : GateOutcome) (b : Bool)
      → o.passed ≡ b
      → IsAt id (working d s l) t
      → Working d
          (status_of b)
          l
          (map (set_where (is_row id key) (gated_row now o)) (list_rows id t))
  gated_working d l s now o b c h =
      rw (← c) (IsAt-set d l s (status_of o.passed) (gated_row now o) (gated_row-Marks now o) h)

  gate-IsInPlace :
      (now : ℕ) (o : GateOutcome) → IsInPlace (set_where (is_row id key) (gated_row now o))
  gate-IsInPlace now o = set-IsInPlace (is_row id key) (gated_row now o) _ (gated_row-Marks now o)

  gated_Placed :
      (d l : ℕ) (s : MilestoneStatus) (now : ℕ) (o : GateOutcome)
      → IsAt id (working d s l) t
      → Placed id (map (set_where (is_row id key) (gated_row now o)) t)
  gated_Placed d l s now o h = Placed-map _ (gate-IsInPlace now o) id t (h.distinct, h.laid)

  gated_Shows :
      (d l : ℕ) (s : MilestoneStatus) (now : ℕ) (o : GateOutcome) (b : Bool)
      → o.passed ≡ b
      → IsAt id (working d s l) t
      → Shows
          (working d (status_of b) l)
          (list_rows id (map (set_where (is_row id key) (gated_row now o)) t))
  gated_Shows d l s now o b c h =
      Shows-map _ (gate-IsInPlace now o) id (working d (status_of b) l) t
        (gated_working d l s now o b c h)

  open-IsInPlace : (n : ℕ) → IsInPlace (set_where (is_locked_at id n) opened_row)
  open-IsInPlace n = set-IsInPlace (is_locked_at id n) opened_row _ opened_row-Marks

  decided :
      (d l : ℕ) (s : MilestoneStatus) (now : ℕ) (o : GateOutcome) (b : Bool)
      → o.passed ≡ b
      → IsAt id (working d s l) t
      → IsAt id (decide b (working d s l)) (gate_table id key now r.ordinal o t)
  unfolding decide gate_table
  decided d l s now o false c h = simp (c) (
      IsAt-map _ (gate-IsInPlace now o) id (working d gated_fail l) t (h.distinct, h.laid)
        (gated_working d l s now o false c h) refl)
  decided d zero s now o true c h = simp (c) (
      IsAt-map _ (open-IsInPlace (r.ordinal + 1)) id (finished (suc d)) _
        (gated_Placed d zero s now o h)
        (open_last id 0 d (r.ordinal + 1) _
          (ap (λ x. x + 1) (Working-ordinal id key 0 d zero s _ r h.laid h.shows e a))
          (gated_Placed d zero s now o h).1 (gated_Shows d zero s now o true c h))
        tt)
  decided d (suc l) s now o true c h = simp (c) (
      IsAt-map _ (open-IsInPlace (r.ordinal + 1)) id (working (suc d) milestone_open l) _
        (gated_Placed d (suc l) s now o h)
        (open_next id 0 d l (r.ordinal + 1) _
          (ap (λ x. x + 1) (Working-ordinal id key 0 d (suc l) s _ r h.laid h.shows e a))
          (gated_Placed d (suc l) s now o h).1 (gated_Shows d (suc l) s now o true c h))
        refl)

  pub gate-IsAt :
      (p : Progress) (now : ℕ) (o : GateOutcome)
      → IsAt id p t
      → IsAt id (decide o.passed p) (gate_table id key now r.ordinal o t)
  gate-IsAt (finished n) now o h =
      let b = find-AllPassed key n (list_rows id t) r h.shows e in absurd (ground arith)
  gate-IsAt (working d s l) now o h = decided d l s now o o.passed refl h
