-- ===== src/Project/Progress/Steps.antt =====
-- The updates of a milestone's row on rows that are at a point of the sequence.
use skillfyme_hands_on.Base.{
  ℕ, zero, suc, ◌+◌, ◌<◌, ◌≡◌, true, false, some, List, [], ◌∷◌, map, find, All, arith, inl, inr,
  Bool-cases,
}
use skillfyme_hands_on.Store.Milestones.{
  Milestone, MilestoneStatus, milestone_locked, milestone_open, gated_pass, MilestoneStateRow,
}
use skillfyme_hands_on.Project.Repository.{is_row, set_where, is_locked_at, opened_row}
use skillfyme_hands_on.Project.Repository.Rows.{has_key}
use skillfyme_hands_on.Project.Progress.{submittable, Laid, Locked, AllPassed, Working}

-- A change of the row of one milestone, which keeps its place.
pub record Marks (f : MilestoneStateRow → MilestoneStateRow) (s : MilestoneStatus) : Type 0 where
  pub status : (r : MilestoneStateRow) → (f r).status ≡ s
  pub key : (r : MilestoneStateRow) → (f r).milestone_key ≡ r.milestone_key
  pub ordinal : (r : MilestoneStateRow) → (f r).ordinal ≡ r.ordinal
  pub attempt : (r : MilestoneStateRow) → (f r).attempt_id ≡ r.attempt_id

pub find-Locked :
    (key : Milestone) (l : ℕ) (rs : List MilestoneStateRow) (r : MilestoneStateRow)
    → Locked l rs
    → find (has_key key) rs ≡ some r
    → r.status ≡ milestone_locked
find-Locked key zero [] r h e = cc
find-Locked key zero (x ∷ xs) r h e = absurd h
find-Locked key (suc l) [] r h e = absurd h
find-Locked key (suc l) (x ∷ xs) r (h, hs) e = ground (arith, find-Locked key l xs r hs)

pub find-AllPassed :
    (key : Milestone) (n : ℕ) (rs : List MilestoneStateRow) (r : MilestoneStateRow)
    → AllPassed n rs
    → find (has_key key) rs ≡ some r
    → r.status ≡ gated_pass
find-AllPassed key zero [] r h e = cc
find-AllPassed key zero (x ∷ xs) r h e = absurd h
find-AllPassed key (suc l) [] r h e = absurd h
find-AllPassed key (suc l) (x ∷ xs) r (h, hs) e = ground (arith, find-AllPassed key l xs r hs)

All-has_key :
    (key : Milestone) (x : MilestoneStateRow) (rs : List MilestoneStateRow)
    → has_key key x ≡ true
    → All (λ q. has_key x.milestone_key q ≡ false) rs
    → All (λ q. has_key key q ≡ false) rs
All-has_key key x [] y n = tt
All-has_key key x (r ∷ rs) y (n, ns) = (ground arith, All-has_key key x rs y ns)

module _ (id : ℕ) (key : Milestone) (f : MilestoneStateRow → MilestoneStateRow)
    (s' : MilestoneStatus) (set : Marks f s') where
  Locked-set :
      (l : ℕ) (rs : List MilestoneStateRow)
      → All (λ q. has_key key q ≡ false) rs
      → Locked l rs
      → Locked l (map (set_where (is_row id key) f) rs)
  Locked-set zero [] n h = tt
  Locked-set zero (x ∷ xs) n h = absurd h
  Locked-set (suc l) [] n h = absurd h
  Locked-set (suc l) (x ∷ xs) (n, ns) (h, hs) = ground (arith, Locked-set l xs ns hs)

  pub Working-set :
      (k d l : ℕ) (s : MilestoneStatus) (rs : List MilestoneStateRow) (r : MilestoneStateRow)
      → Laid id k rs
      → Working d s l rs
      → find (has_key key) rs ≡ some r
      → submittable r.status ≡ true
      → Working d s' l (map (set_where (is_row id key) f) rs)
  Working-set k zero l s [] r p h e a = absurd h
  Working-set k (suc d) l s [] r p h e a = absurd h
  Working-set k zero l s (x ∷ xs) r (p, q, n, ps) (h, hs) e a = elim (Bool-cases (has_key key x)) [
    | inl y ↦ (ground (arith, set.status x), Locked-set l xs (All-has_key key x xs y n) hs)
    | inr y ↦ let b = find-Locked key l xs r hs (ground arith) in ground arith
  ]
  Working-set k (suc d) l s (x ∷ xs) r (p, q, n, ps) (h, hs) e a =
      ground (arith, Working-set (k + 1) d l s xs r ps hs)

module _ (id : ℕ) where
  -- Opening the place `n` on rows that stand after it, or before it, changes nothing.
  Locked-open_later :
      (k n l : ℕ) (rs : List MilestoneStateRow)
      → n < k
      → Laid id k rs
      → Locked l rs
      → Locked l (map (set_where (is_locked_at id n) opened_row) rs)
  Locked-open_later k n zero [] b p h = tt
  Locked-open_later k n zero (x ∷ xs) b p h = absurd h
  Locked-open_later k n (suc l) [] b p h = absurd h
  Locked-open_later k n (suc l) (x ∷ xs) b (p, q, d, ps) (h, hs) =
      ground (arith, Locked-open_later (k + 1) n l xs)

  pub open_last :
      (k d n : ℕ) (rs : List MilestoneStateRow)
      → n ≡ k + d + 1
      → Laid id k rs
      → Working d gated_pass 0 rs
      → AllPassed (suc d) (map (set_where (is_locked_at id n) opened_row) rs)
  open_last k zero n [] e p h = absurd h
  open_last k (suc d) n [] e p h = absurd h
  open_last k zero n (x ∷ []) e (p, q, m, ps) (h, hs) = ground arith
  open_last k zero n (x ∷ y ∷ xs) e p (h, hs) = absurd hs
  open_last k (suc d) n (x ∷ xs) e (p, q, m, ps) (h, hs) =
      (ground arith, open_last (k + 1) d n xs (omega arith) ps hs)

  pub open_next :
      (k d l n : ℕ) (rs : List MilestoneStateRow)
      → n ≡ k + d + 1
      → Laid id k rs
      → Working d gated_pass (suc l) rs
      → Working (suc d) milestone_open l (map (set_where (is_locked_at id n) opened_row) rs)
  open_next k zero l n [] e p h = absurd h
  open_next k (suc d) l n [] e p h = absurd h
  open_next k zero l n (x ∷ []) e p (h, hs) = absurd hs
  open_next k zero l n (x ∷ y ∷ xs) e (p, q, m, (p', q', m', ps)) (h, (g, hs)) =
      (ground arith, (ground arith, Locked-open_later (k + 1 + 1) n l xs (omega arith) ps hs))
  open_next k (suc d) l n (x ∷ xs) e (p, q, m, ps) (h, hs) =
      (ground arith, open_next (k + 1) d l n xs (omega arith) ps hs)

-- The milestone that may be submitted is the one at the point reached.
pub Working-ordinal :
    (id : ℕ) (key : Milestone) (k d l : ℕ) (s : MilestoneStatus) (rs : List MilestoneStateRow)
    (r : MilestoneStateRow)
    → Laid id k rs
    → Working d s l rs
    → find (has_key key) rs ≡ some r
    → submittable r.status ≡ true
    → r.ordinal ≡ k + d
Working-ordinal id key k zero l s [] r p h e a = absurd h
Working-ordinal id key k (suc d) l s [] r p h e a = absurd h
Working-ordinal id key k zero l s (x ∷ xs) r (p, q, n, ps) (h, hs) e a =
    elim (Bool-cases (has_key key x)) [
      | inl y ↦ ground arith
      | inr y ↦ let b = find-Locked key l xs r hs (ground arith) in ground arith
    ]
Working-ordinal id key k (suc d) l s (x ∷ xs) r (p, q, n, ps) (h, hs) e a =
    ground (arith, Working-ordinal id key (k + 1) d l s xs r ps hs)
