-- ===== src/Project/Progress/Seeds.antt =====
-- The rows that a fresh project is seeded with.
use skillfyme_hands_on.Base.{
  ℕ, zero, suc, ◌+◌, ◌≡◌, refl, sym, ap, subst, false, List, [], ◌∷◌, ◌++◌, if◌then◌else◌, any,
  filter, length, All, arith, ==_refl, leb,
}
use skillfyme_hands_on.Store.Milestones.{
  Milestone, milestone_locked, milestone_open, same_key, MilestoneStateRow,
}
use skillfyme_hands_on.Project.Repository.{
  is_row, seeded_row, seed_rows, insert_by_ordinal, order_by_ordinal, of_attempt, list_rows,
}
use skillfyme_hands_on.Project.Repository.Rows.{has_key, Distinct, All-order_by_ordinal}
use skillfyme_hands_on.Project.Progress.{working, Laid, Locked, Working, IsAt}
use skillfyme_hands_on.Project.Service.Specs.{MilestoneSpec, seed_inputs}

any-is_row :
    (id : ℕ) (key : Milestone) (t : List MilestoneStateRow)
    → All (λ q. has_key key q ≡ false) (filter (of_attempt id) t)
    → any (is_row id key) t ≡ false
any-is_row id key [] h = refl
any-is_row id key (r ∷ rs) h = ground (arith, any-is_row id key rs)

insert_last :
    (id j : ℕ) (r : MilestoneStateRow) (xs : List MilestoneStateRow)
    → Laid id j xs
    → r.ordinal ≡ j + length xs
    → insert_by_ordinal r xs ≡ xs ++ (r ∷ [])
unfolding insert_by_ordinal
insert_last id j r [] p e = refl
insert_last id j r (x ∷ xs) (a, o, n, ps) e =
    let f : leb r.ordinal x.ordinal ≡ false = ground arith in
    rw (f, insert_last id (j + 1) r xs ps (omega arith)) refl

All-snoc :
    (P : MilestoneStateRow → Type 0) (r : MilestoneStateRow) (xs : List MilestoneStateRow)
    → All P xs
    → P r
    → All P (xs ++ (r ∷ []))
All-snoc P r [] h p = (p, tt)
All-snoc P r (x ∷ xs) (h, hs) p = (h, All-snoc P r xs hs p)

Laid-snoc :
    (id j : ℕ) (r : MilestoneStateRow) (xs : List MilestoneStateRow)
    → Laid id j xs
    → r.attempt_id ≡ id
    → r.ordinal ≡ j + length xs
    → All (λ q. has_key r.milestone_key q ≡ false) xs
    → Laid id j (xs ++ (r ∷ []))
Laid-snoc id j r [] p a o n = (a, ground arith, tt, tt)
Laid-snoc id j r (x ∷ xs) (a', o', n', ps) a o (n, ns) =
    (a', o', All-snoc _ r xs n' (ground arith), Laid-snoc id (j + 1) r xs ps a (omega arith) ns)

Locked-snoc :
    (l : ℕ) (r : MilestoneStateRow) (xs : List MilestoneStateRow)
    → Locked l xs
    → r.status ≡ milestone_locked
    → Locked (suc l) (xs ++ (r ∷ []))
Locked-snoc zero r [] h e = (e, tt)
Locked-snoc zero r (x ∷ xs) h e = absurd h
Locked-snoc (suc l) r [] h e = absurd h
Locked-snoc (suc l) r (x ∷ xs) (h, hs) e = (h, Locked-snoc l r xs hs e)

length-snoc :
    (r : MilestoneStateRow) (xs : List MilestoneStateRow)
    → length (xs ++ (r ∷ [])) ≡ suc (length xs)
length-snoc r [] = refl
length-snoc r (x ∷ xs) = ground (arith, length-snoc r xs)

-- A milestone's key is none of those.
abbrev NoKey : List MilestoneStateRow → MilestoneSpec → Type 0
NoKey rs s = All (λ q. has_key s.key q ≡ false) rs

-- No two specs are of one milestone.
abbrev pub DistinctSpecs : List MilestoneSpec → Type 0
DistinctSpecs [] = Unit
DistinctSpecs (s ∷ ss) = All (λ t. same_key s.key t.key ≡ false) ss × DistinctSpecs ss

-- The rows of the first specs are seeded.
record Seeded (id l : ℕ) (t : List MilestoneStateRow) : Type 0 where
  distinct : Distinct (filter (of_attempt id) t)
  laid : Laid id 0 (list_rows id t)
  size : length (list_rows id t) ≡ suc l
  shows : Working 0 milestone_open l (list_rows id t)

-- The row of the next spec is put in front of the table.
next_row : ℕ → ℕ → MilestoneSpec → MilestoneStateRow
next_row id l s =
    seeded_row id (record { milestone_key = s.key; ordinal = suc l; status = milestone_locked })

list_rows-next :
    (id l : ℕ) (s : MilestoneSpec) (t : List MilestoneStateRow)
    → Seeded id l t
    → list_rows id (next_row id l s ∷ t) ≡ list_rows id t ++ (next_row id l s ∷ [])
unfolding list_rows order_by_ordinal next_row
list_rows-next id l s t h = rw (==_refl id) (
    insert_last id 0 (next_row id l s) (order_by_ordinal (filter (of_attempt id) t)) h.laid
      (ground (arith, h.size)))

ordered :
    (id : ℕ) (s : MilestoneSpec) (t : List MilestoneStateRow)
    → NoKey (filter (of_attempt id) t) s
    → NoKey (list_rows id t) s
unfolding list_rows
ordered id s t n = All-order_by_ordinal _ (filter (of_attempt id) t) n

Working-snoc :
    (l : ℕ) (r : MilestoneStateRow) (xs : List MilestoneStateRow)
    → Working 0 milestone_open l xs
    → r.status ≡ milestone_locked
    → Working 0 milestone_open (suc l) (xs ++ (r ∷ []))
Working-snoc l r [] h e = absurd h
Working-snoc l r (x ∷ xs) (h, hs) e = (h, Locked-snoc l r xs hs e)

seed_next :
    (id l : ℕ) (s : MilestoneSpec) (t : List MilestoneStateRow)
    → Seeded id l t
    → NoKey (filter (of_attempt id) t) s
    → Seeded id (suc l) (next_row id l s ∷ t)
unfolding next_row
seed_next id l s t h n =
    let r = next_row id l s in
    let e = list_rows-next id l s t h in
    record {
      distinct = rw (==_refl id) (n, h.distinct);
      laid = rw e (
          Laid-snoc id 0 r (list_rows id t) h.laid refl (ground (arith, h.size))
            (ordered id s t n));
      size = rw (e, length-snoc r (list_rows id t), h.size) refl;
      shows = rw e (Working-snoc l r (list_rows id t) h.shows refl);
    }

Seeded-IsAt :
    (id l : ℕ) (t : List MilestoneStateRow) → Seeded id l t → IsAt id (working 0 milestone_open l) t
Seeded-IsAt id l t h = record { distinct = h.distinct; laid = h.laid; shows = h.shows; live = refl }

All-NoKey :
    (id l : ℕ) (s : MilestoneSpec) (t : List MilestoneStateRow) (ss : List MilestoneSpec)
    → All (λ u. same_key s.key u.key ≡ false) ss
    → All (NoKey (filter (of_attempt id) t)) ss
    → All (NoKey (filter (of_attempt id) (next_row id l s ∷ t))) ss
unfolding next_row
All-NoKey id l s t [] d n = tt
All-NoKey id l s t (u ∷ us) (d, ds) (n, ns) = (rw (==_refl id) (d, n), All-NoKey id l s t us ds ns)

seed_rows_next :
    (id l : ℕ) (s : MilestoneSpec) (ss : List MilestoneSpec) (t : List MilestoneStateRow)
    → any (is_row id s.key) t ≡ false
    → seed_rows id (seed_inputs (suc l) (s ∷ ss)) t
      ≡ seed_rows id (seed_inputs (suc (suc l)) ss) (next_row id l s ∷ t)
unfolding seed_inputs seed_rows next_row
seed_rows_next id l s ss t e =
    ap (λ b. seed_rows id (seed_inputs (suc (suc l)) ss) (if b then t else next_row id l s ∷ t)) e

seed_rest :
    (id l : ℕ) (ss : List MilestoneSpec) (t : List MilestoneStateRow)
    → Seeded id l t
    → All (NoKey (filter (of_attempt id) t)) ss
    → DistinctSpecs ss
    → IsAt id (working 0 milestone_open (l + length ss)) (seed_rows id (seed_inputs (suc l) ss) t)
unfolding seed_inputs seed_rows
seed_rest id l [] t h n d = let e : l + 0 ≡ l = omega arith in rw e (Seeded-IsAt id l t h)
seed_rest id l (s ∷ ss) t h (n, ns) (d, ds) =
    let e : l + length (s ∷ ss) ≡ suc l + length ss = omega arith in
    rw (e, seed_rows_next id l s ss t (any-is_row id s.key t n))
      (seed_rest id (suc l) ss (next_row id l s ∷ t) (seed_next id l s t h n)
        (All-NoKey id l s t ss d ns) ds)

abbrev first_row : ℕ → MilestoneSpec → MilestoneStateRow
first_row id s =
    seeded_row id (record { milestone_key = s.key; ordinal = 0; status = milestone_open })

first_rows :
    (id : ℕ) (s : MilestoneSpec) (t : List MilestoneStateRow)
    → filter (of_attempt id) t ≡ []
    → filter (of_attempt id) (first_row id s ∷ t) ≡ first_row id s ∷ []
first_rows id s t e = rw (==_refl id, e) refl

first-Seeded :
    (id : ℕ) (s : MilestoneSpec) (t : List MilestoneStateRow)
    → filter (of_attempt id) (first_row id s ∷ t) ≡ first_row id s ∷ []
    → Seeded id 0 (first_row id s ∷ t)
unfolding list_rows order_by_ordinal insert_by_ordinal
first-Seeded id s t f = record {
  distinct = rw f (tt, tt);
  laid = rw (list_rows, f) (refl, refl, tt, tt);
  size = rw (list_rows, f) refl;
  shows = rw (list_rows, f) (refl, tt);
}

first-NoKey :
    (id : ℕ) (s : MilestoneSpec) (ss : List MilestoneSpec)
    → All (λ u. same_key s.key u.key ≡ false) ss
    → All (NoKey (first_row id s ∷ [])) ss
first-NoKey id s [] d = tt
first-NoKey id s (u ∷ us) (d, ds) = ((d, tt), first-NoKey id s us ds)

-- Where an attempt has no milestones yet, seeding those of its specs puts it at the beginning of the
-- sequence.
pub seed_rows-IsAt :
    (id : ℕ) (s : MilestoneSpec) (ss : List MilestoneSpec) (t : List MilestoneStateRow)
    → filter (of_attempt id) t ≡ []
    → DistinctSpecs (s ∷ ss)
    → IsAt id (working 0 milestone_open (length ss)) (seed_rows id (seed_inputs 0 (s ∷ ss)) t)
unfolding seed_inputs seed_rows
seed_rows-IsAt id s ss t e (d, ds) =
    let f : filter (of_attempt id) (first_row id s ∷ t) ≡ first_row id s ∷ [] =
      first_rows id s t e in
    let z : 0 + length ss ≡ length ss = omega arith in
    let n : any (is_row id s.key) t ≡ false = any-is_row id s.key t (rw e tt) in
    subst
      (λ b.
        IsAt id (working 0 milestone_open (length ss))
          (seed_rows id (seed_inputs 1 ss) (if b then t else first_row id s ∷ t)))
      (sym n)
      (subst
        (λ k.
          IsAt id (working 0 milestone_open k)
            (seed_rows id (seed_inputs 1 ss) (first_row id s ∷ t)))
        z
        (seed_rest id 0 ss (first_row id s ∷ t) (first-Seeded id s t f)
          (rw f (first-NoKey id s ss d)) ds))
