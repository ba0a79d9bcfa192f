-- ===== src/Attempt/Hints/Laws.antt =====
-- The order of the hints, what a revealed one costs, and when the guided fallback is given.
use skillfyme_hands_on.Base.{
  ℕ, ◌≡◌, ◌≤◌, ◌<◌, refl, Bool, Option, none, some, List, [], ◌∷◌, ltb, leb, if◌then◌else◌, find,
  All, arith, inl, inr, Bool-cases, Option-cases, subst, sym, ◌⊎◌,
}
use skillfyme_hands_on.Store.Rows.{HintSpec}
use skillfyme_hands_on.Attempt.Hints.{insert_hint, sort_hints, next_hint}

-- In ascending order of level.
IsSorted : List HintSpec → Type 0
IsSorted [] = Unit {0}
IsSorted (h ∷ hs) = All (λ (g : HintSpec). h.level ≤ g.level) hs × IsSorted hs

All-insert_hint :
    (n : ℕ) (h : HintSpec) (hs : List HintSpec)
    → n ≤ h.level
    → All (λ (g : HintSpec). n ≤ g.level) hs
    → All (λ (g : HintSpec). n ≤ g.level) (insert_hint h hs)
unfolding insert_hint
All-insert_hint n h [] l a = ground arith
All-insert_hint n h (g ∷ gs) l a = ground (arith, All-insert_hint n h gs l a.1)

All-mono :
    (m n : ℕ) (hs : List HintSpec)
    → m ≤ n
    → All (λ (g : HintSpec). n ≤ g.level) hs
    → All (λ (g : HintSpec). m ≤ g.level) hs
All-mono m n [] l a = tt
All-mono m n (g ∷ gs) l a = (omega arith, All-mono m n gs l a.1)

insert_hint-IsSorted :
    (h : HintSpec) (hs : List HintSpec) → IsSorted hs → IsSorted (insert_hint h hs)
unfolding IsSorted insert_hint
insert_hint-IsSorted h [] s = (tt, tt)
insert_hint-IsSorted h (g ∷ gs) s = ground (
  arith,
  insert_hint-IsSorted h gs s.1,
  All-insert_hint g.level h gs,
  All-mono h.level g.level gs,
)

-- Some hint is deeper than the level used.
abbrev deeper : ℕ → HintSpec → Bool
deeper used h = ltb used h.level

-- The shallower of a hint and one that was found.
abbrev shallower : HintSpec → Option HintSpec → Option HintSpec
shallower h none = some h
shallower h (some g) = if leb h.level g.level then some h else some g

found_at_least :
    (used n : ℕ) (hs : List HintSpec) (g : HintSpec)
    → All (λ (x : HintSpec). n ≤ x.level) hs
    → find (deeper used) hs ≡ some g
    → n ≤ g.level
found_at_least used n [] g a e = cc
found_at_least used n (h ∷ hs) g a e = ground (arith, found_at_least used n hs g a.1)

find-insert_hint :
    (used : ℕ) (h : HintSpec) (hs : List HintSpec)
    → IsSorted hs
    → find (deeper used) (insert_hint h hs)
      ≡ (if deeper used h then shallower h (find (deeper used) hs) else find (deeper used) hs)
unfolding IsSorted insert_hint
find-insert_hint used h [] s = ground arith
find-insert_hint used h (g ∷ gs) s = elim (Bool-cases (leb h.level g.level)) [
  | inr e ↦ rw e (ground (arith, find-insert_hint used h gs s.1))
  | inl e ↦ elim (Option-cases (find (deeper used) (g ∷ gs))) [
    | inl n ↦ rw (e, n) (ground arith)
    | inr (f, n) ↦
        let l : g.level ≤ f.level = found_at_least used g.level (g ∷ gs) f (omega arith, s.0) n in
        rw (e, n) (ground (arith, l))
  ]
]

sort_hints-IsSorted : (hs : List HintSpec) → IsSorted (sort_hints hs)
unfolding IsSorted sort_hints
sort_hints-IsSorted [] = tt
sort_hints-IsSorted (h ∷ hs) = insert_hint-IsSorted h (sort_hints hs) (sort_hints-IsSorted hs)

abbrev pub OneOf : HintSpec → List HintSpec → Type 0
OneOf h [] = ⊥
OneOf h (g ∷ gs) = (h ≡ g) ⊎ OneOf h gs

-- What the next hint after a level is to be: the shallowest of those deeper than the level, if any.
abbrev pub IsNext : ℕ → Option HintSpec → List HintSpec → Type 0
IsNext used none hs = All (λ (g : HintSpec). g.level ≤ used) hs
IsNext used (some h) hs =
    OneOf h hs × (used < h.level) × All (λ (g : HintSpec). used < g.level → h.level ≤ g.level) hs

All-deeper :
    (used m n : ℕ) (hs : List HintSpec)
    → m ≤ n
    → All (λ (g : HintSpec). used < g.level → n ≤ g.level) hs
    → All (λ (g : HintSpec). used < g.level → m ≤ g.level) hs
All-deeper used m n [] l a = tt
All-deeper used m n (g ∷ gs) l a = (ground (arith, a.0), All-deeper used m n gs l a.1)

All-vacuous :
    (used n : ℕ) (hs : List HintSpec)
    → All (λ (g : HintSpec). g.level ≤ used) hs
    → All (λ (g : HintSpec). used < g.level → n ≤ g.level) hs
All-vacuous used n [] a = tt
All-vacuous used n (g ∷ gs) a = (ground (arith, a.0), All-vacuous used n gs a.1)

IsNext-step :
    (used : ℕ) (h : HintSpec) (o : Option HintSpec) (hs : List HintSpec)
    → IsNext used o hs
    → IsNext used (if deeper used h then shallower h o else o) (h ∷ hs)
IsNext-step used h none hs n = elim (Bool-cases (ltb used h.level)) [
  | inl e ↦ rw e (inl refl, ground arith, (ground arith, All-vacuous used h.level hs n))
  | inr e ↦ rw e (ground arith, n)
]
IsNext-step used h (some g) hs n = elim (Bool-cases (ltb used h.level)) [
  | inr e ↦ rw e (inr n.0, n.1, (ground arith, n.2))
  | inl e ↦ elim (Bool-cases (leb h.level g.level)) [
    | inl l ↦
        let m : h.level ≤ g.level = ground arith in
        rw (e, l) (inl refl, ground arith, (ground arith, All-deeper used h.level g.level hs m n.2))
    | inr l ↦ rw (e, l) (inr n.0, n.1, (ground arith, n.2))
  ]
]

-- In whatever order the hints are authored, the next one after a level is the shallowest of those
-- deeper than it, and there is none exactly when none is deeper.
pub next_hint-IsNext : (used : ℕ) (hs : List HintSpec) → IsNext used (next_hint used hs) hs
unfolding next_hint sort_hints
next_hint-IsNext used [] = tt
next_hint-IsNext used (h ∷ hs) =
    subst (λ o. IsNext used o (h ∷ hs))
      (sym (find-insert_hint used h (sort_hints hs) (sort_hints-IsSorted hs)))
      (IsNext-step used h (next_hint used hs) hs (next_hint-IsNext used hs))
