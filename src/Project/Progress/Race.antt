-- ===== src/Project/Progress/Race.antt =====
-- Two submissions of one milestone at its gate at once.
use skillfyme_hands_on.Base.{
  ℕ, zero, suc, ◌+◌, ◌<◌, ◌≡◌, ◌∙◌, refl, ap, subst, inl, inr, Bool-cases, true, false, some, List,
  [], ◌∷◌, map, find, arith,
}
use skillfyme_hands_on.Store.Milestones.{
  Milestone, MilestoneStatus, milestone_open, MilestoneStateRow,
}
use skillfyme_hands_on.Project.Repository.{
  is_row, list_rows, set_where, is_locked_at, opened_row, GateOutcome, gated_row, gate_table,
}
use skillfyme_hands_on.Project.Repository.Rows.{has_key, list_rows-map}
use skillfyme_hands_on.Project.Progress.{
  Progress, finished, working, submittable, decide, Laid, AllPassed, Working, IsAt,
}
use skillfyme_hands_on.Project.Progress.Steps.{Working-ordinal}
use skillfyme_hands_on.Project.Progress.Updates.{gate-IsAt}

pub find-beyond :
    (id : ℕ) (key : Milestone) (k : ℕ) (rs : List MilestoneStateRow) (r : MilestoneStateRow)
    → Laid id k rs
    → find (has_key key) rs ≡ some r
    → k < r.ordinal + 1
find-beyond id key k [] r p e = absurd (ground arith)
find-beyond id key k (x ∷ xs) r (a, o, n, ps) e = ground (arith, find-beyond id key (k + 1) xs r ps)

module _ (id : ℕ) (key : Milestone) (now : ℕ) (o : GateOutcome) (fails : o.passed ≡ false) where
  abbrev failed : List MilestoneStateRow → List MilestoneStateRow
  failed rs = map (set_where (is_row id key) (gated_row now o)) rs

  rows : (t : List MilestoneStateRow) → list_rows id (failed t) ≡ failed (list_rows id t)
  rows t =
      list_rows-map (set_where (is_row id key) (gated_row now o)) (λ x. ground arith)
        (λ x. ground arith) id t

  -- The milestone before the open one fails: then not all have passed,
  failed-AllPassed :
      (k d l n : ℕ) (rs : List MilestoneStateRow) (r : MilestoneStateRow)
      → Laid id k rs
      → Working (suc d) milestone_open l rs
      → find (has_key key) rs ≡ some r
      → r.ordinal ≡ k + d
      → ¬ AllPassed n (failed rs)
  failed-AllPassed k d l n [] r p h e q = λ a. absurd h
  failed-AllPassed k d l zero (x ∷ xs) r p h e q = λ a. a
  failed-AllPassed k zero l (suc n) (x ∷ xs) r (a, o', m, ps) (h, hs) e q =
      elim (Bool-cases (has_key key x)) [
        | inl y ↦ λ (b, bs). ground arith
        | inr y ↦
            let z = find-beyond id key (k + 1) xs r ps (ground arith) in λ b. absurd (omega arith)
      ]
  failed-AllPassed k (suc d) l (suc n) (x ∷ xs) r (a, o', m, ps) (h, hs) e q =
      elim (Bool-cases (has_key key x)) [
        | inl y ↦ λ b. absurd (ground arith)
        | inr y ↦
            λ (b, bs). failed-AllPassed (k + 1) d l n xs r ps hs (ground arith) (omega arith) bs
      ]

  -- and none is worked on with the later ones locked.
  failed-Working :
      (k d l e' m' : ℕ) (s : MilestoneStatus) (rs : List MilestoneStateRow) (r : MilestoneStateRow)
      → Laid id k rs
      → Working (suc d) milestone_open l rs
      → find (has_key key) rs ≡ some r
      → r.ordinal ≡ k + d
      → submittable s ≡ true
      → ¬ Working e' s m' (failed rs)
  failed-Working k d l e' m' s [] r p h e q c = λ a. absurd h
  failed-Working k zero l zero m' s (x ∷ []) r p (h, hs) e q c = λ b. absurd hs
  failed-Working k zero l zero zero s (x ∷ y ∷ xs) r p (h, hs) e q c = λ (b, bs). bs
  failed-Working k zero l zero (suc m') s (x ∷ y ∷ xs) r (a, o', (m, ms), ps) (h, (g, hs)) e q c =
      elim (Bool-cases (has_key key x)) [
        | inl z ↦ λ (b, (v, bs)). ground arith
        | inr z ↦
            let f = find-beyond id key (k + 1) (y ∷ xs) r ps (ground arith) in
            λ b. absurd (omega arith)
      ]
  failed-Working k zero l (suc e') m' s (x ∷ xs) r (a, o', m, ps) (h, hs) e q c =
      elim (Bool-cases (has_key key x)) [
        | inl y ↦ λ (b, bs). ground arith
        | inr y ↦
            let z = find-beyond id key (k + 1) xs r ps (ground arith) in λ b. absurd (omega arith)
      ]
  failed-Working k (suc d) l zero m' s (x ∷ xs) r (a, o', m, ps) (h, hs) e q c =
      λ (b, bs). ground arith
  failed-Working k (suc d) l (suc e') m' s (x ∷ xs) r (a, o', m, ps) (h, hs) e q c =
      elim (Bool-cases (has_key key x)) [
        | inl y ↦ λ b. absurd (ground arith)
        | inr y ↦ λ (b, bs).
            failed-Working (k + 1) d l e' m' s xs r ps hs (ground arith) (omega arith) c bs
      ]

  failed-IsAt :
      (d l n : ℕ) (p : Progress) (t : List MilestoneStateRow) (r : MilestoneStateRow)
      → IsAt id (working (suc d) milestone_open l) t
      → find (has_key key) (list_rows id t) ≡ some r
      → r.ordinal ≡ d
      → ¬ IsAt id p (gate_table id key now n o t)
  unfolding gate_table
  failed-IsAt d l n (finished m) t r h e q = simp (fails) λ a.
      failed-AllPassed 0 d l m (list_rows id t) r h.laid h.shows e (omega arith)
        (rw⁻¹ (rows t) a.shows)
  failed-IsAt d l n (working e' s m) t r h e q = simp (fails) λ a.
      failed-Working 0 d l e' m s (list_rows id t) r h.laid h.shows e (omega arith) a.live
        (rw⁻¹ (rows t) a.shows)

find-in_place :
    (key : Milestone) (g : MilestoneStateRow → MilestoneStateRow)
    → ((x : MilestoneStateRow) → (g x).milestone_key ≡ x.milestone_key)
    → (rs : List MilestoneStateRow) (r : MilestoneStateRow) → find (has_key key) rs ≡ some r
    → find (has_key key) (map g rs) ≡ some (g r)
find-in_place key g k [] r e = cc
find-in_place key g k (x ∷ xs) r e = ground (arith, k x, find-in_place key g k xs r)

module _ (id : ℕ) (key : Milestone) (now n : ℕ) (o : GateOutcome) (t : List MilestoneStateRow) where
  -- What a gate that passes does to a row.
  abbrev passed_row : MilestoneStateRow → MilestoneStateRow
  passed_row x =
      set_where (is_locked_at id (n + 1)) opened_row (set_where (is_row id key) (gated_row now o) x)

  passed_rows :
      o.passed ≡ true → list_rows id (gate_table id key now n o t) ≡ map passed_row (list_rows id t)
  unfolding gate_table
  passed_rows c = simp (c) (
      list_rows-map (set_where (is_locked_at id (n + 1)) opened_row) (λ x. ground arith)
        (λ x. ground arith) id (map (set_where (is_row id key) (gated_row now o)) t)
      ∙ ap (map (set_where (is_locked_at id (n + 1)) opened_row)) (
          list_rows-map (set_where (is_row id key) (gated_row now o)) (λ x. ground arith)
            (λ x. ground arith) id t)
      ∙ map-map (list_rows id t))
    where
      map-map :
          (rs : List MilestoneStateRow)
          → map
              (set_where (is_locked_at id (n + 1)) opened_row)
              (map (set_where (is_row id key) (gated_row now o)) rs)
            ≡ map passed_row rs
      map-map [] = refl
      map-map (x ∷ xs) = ap (◌∷◌ (passed_row x)) (map-map xs)

-- The milestones of an attempt are worked on one after the other, a later one is locked still, and two
-- submissions of the one that may be submitted are at its gate at once. When the first passes and then
-- the second fails, the rows after that are those of no point of that sequence.
pub late_verdict :
    (id : ℕ) (key : Milestone) (d l now later : ℕ) (s : MilestoneStatus) (o o' : GateOutcome)
    (p : Progress) (t : List MilestoneStateRow) (r : MilestoneStateRow)
    → IsAt id (working d s (suc l)) t
    → find (has_key key) (list_rows id t) ≡ some r
    → submittable r.status ≡ true
    → o.passed ≡ true
    → o'.passed ≡ false
    → ¬ IsAt id p (gate_table id key later r.ordinal o' (gate_table id key now r.ordinal o t))
unfolding decide
late_verdict id key d l now later s o o' p t r h e a c c' =
    let g = passed_row id key now r.ordinal o t in
    failed-IsAt id key later o' c' d l r.ordinal p (gate_table id key now r.ordinal o t) (g r)
      (subst (λ b. IsAt id (decide b (working d s (suc l))) (gate_table id key now r.ordinal o t)) c
        (gate-IsAt id key t r e a (working d s (suc l)) now o h))
      (rw (passed_rows id key now r.ordinal o t c)
        (find-in_place key g (λ x. ground arith) (list_rows id t) r e))
      (let q = Working-ordinal id key 0 d (suc l) s (list_rows id t) r h.laid h.shows e a in
        ground arith)
