-- ===== src/Project/Repository/Rows.antt =====
-- The rows of an attempt, in their order, under the updates of project.repository.ts.
use skillfyme_hands_on.Base.{
  ℕ, ◌≡◌, ◌∙◌, refl, Bool, false, List, [], ◌∷◌, map, leb, find, filter, All, arith, inl, inr,
  Bool-cases,
}
use skillfyme_hands_on.Store.Milestones.{Milestone, same_key, MilestoneStateRow}
use skillfyme_hands_on.Store.Rows.{World}
use skillfyme_hands_on.Project.Repository.{
  is_row, insert_by_ordinal, order_by_ordinal, of_attempt, list_rows, get_milestone,
}

abbrev pub has_key : Milestone → MilestoneStateRow → Bool
has_key key r = same_key r.milestone_key key

module _ (g : MilestoneStateRow → MilestoneStateRow) where
  insert_by_ordinal-map :
      (keeps : (r : MilestoneStateRow) → (g r).ordinal ≡ r.ordinal) (r : MilestoneStateRow)
      (rs : List MilestoneStateRow)
      → insert_by_ordinal (g r) (map g rs) ≡ map g (insert_by_ordinal r rs)
  unfolding insert_by_ordinal
  insert_by_ordinal-map keeps r [] = refl
  insert_by_ordinal-map keeps r (x ∷ xs) =
      ground (arith, keeps r, keeps x, insert_by_ordinal-map keeps r xs)

  order_by_ordinal-map :
      (keeps : (r : MilestoneStateRow) → (g r).ordinal ≡ r.ordinal) (rs : List MilestoneStateRow)
      → order_by_ordinal (map g rs) ≡ map g (order_by_ordinal rs)
  unfolding order_by_ordinal
  order_by_ordinal-map keeps [] = refl
  order_by_ordinal-map keeps (r ∷ rs) =
      rw (order_by_ordinal-map keeps rs) (insert_by_ordinal-map keeps r (order_by_ordinal rs))

  pub filter-map :
      (keeps : (r : MilestoneStateRow) → (g r).attempt_id ≡ r.attempt_id) (id : ℕ)
      (rs : List MilestoneStateRow)
      → filter (of_attempt id) (map g rs) ≡ map g (filter (of_attempt id) rs)
  filter-map keeps id [] = refl
  filter-map keeps id (r ∷ rs) = ground (arith, keeps r, filter-map keeps id rs)

  -- An update that keeps a row's attempt and place keeps the order of the rows.
  pub list_rows-map :
      ((r : MilestoneStateRow) → (g r).ordinal ≡ r.ordinal)
      → ((r : MilestoneStateRow) → (g r).attempt_id ≡ r.attempt_id)
      → (id : ℕ) (t : List MilestoneStateRow) → list_rows id (map g t) ≡ map g (list_rows id t)
  unfolding list_rows
  list_rows-map ordinals attempts id t =
      rw (filter-map attempts id t) (order_by_ordinal-map ordinals (filter (of_attempt id) t))

-- No two rows have the same key.
abbrev pub Distinct : List MilestoneStateRow → Type 0
Distinct [] = Unit
Distinct (r ∷ rs) = All (λ q. has_key r.milestone_key q ≡ false) rs × Distinct rs

module _ (P : MilestoneStateRow → Type 0) where
  All-insert_by_ordinal :
      (r : MilestoneStateRow) (rs : List MilestoneStateRow)
      → P r
      → All P rs
      → All P (insert_by_ordinal r rs)
  unfolding insert_by_ordinal
  All-insert_by_ordinal r [] p ps = (p, tt)
  All-insert_by_ordinal r (x ∷ xs) p (q, qs) = elim (Bool-cases (leb r.ordinal x.ordinal)) [
    | inl e ↦ rw e (p, (q, qs))
    | inr e ↦ rw e (q, All-insert_by_ordinal r xs p qs)
  ]

  pub All-order_by_ordinal : (rs : List MilestoneStateRow) → All P rs → All P (order_by_ordinal rs)
  unfolding order_by_ordinal
  All-order_by_ordinal [] ps = tt
  All-order_by_ordinal (r ∷ rs) (p, ps) =
      All-insert_by_ordinal r (order_by_ordinal rs) p (All-order_by_ordinal rs ps)

find-insert_by_ordinal :
    (key : Milestone) (r : MilestoneStateRow) (rs : List MilestoneStateRow)
    → All (λ q. has_key r.milestone_key q ≡ false) rs
    → find (has_key key) (insert_by_ordinal r rs) ≡ find (has_key key) (r ∷ rs)
unfolding insert_by_ordinal
find-insert_by_ordinal key r [] d = refl
find-insert_by_ordinal key r (x ∷ xs) (d, ds) = ground (arith, find-insert_by_ordinal key r xs ds)

find-order_by_ordinal :
    (key : Milestone) (rs : List MilestoneStateRow)
    → Distinct rs
    → find (has_key key) (order_by_ordinal rs) ≡ find (has_key key) rs
unfolding order_by_ordinal
find-order_by_ordinal key [] d = refl
find-order_by_ordinal key (r ∷ rs) (d, ds) =
    find-insert_by_ordinal key r (order_by_ordinal rs) (All-order_by_ordinal _ rs d)
    ∙ rw (find-order_by_ordinal key rs ds) refl

find-is_row :
    (id : ℕ) (key : Milestone) (t : List MilestoneStateRow)
    → find (is_row id key) t ≡ find (has_key key) (filter (of_attempt id) t)
find-is_row id key [] = refl
find-is_row id key (r ∷ rs) = ground (arith, find-is_row id key rs)

-- Where the keys of an attempt's rows are distinct, the row that the table has under a key is the one
-- in the list.
pub get_milestone-list_rows :
    (id : ℕ) (key : Milestone) (w : World)
    → Distinct (filter (of_attempt id) w.milestones)
    → get_milestone id key w ≡ find (has_key key) (list_rows id w.milestones)
unfolding get_milestone list_rows
get_milestone-list_rows id key w d =
    find-is_row id key w.milestones
    ∙ rw (find-order_by_ordinal key (filter (of_attempt id) w.milestones) d) refl
