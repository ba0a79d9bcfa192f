-- ===== src/Evaluation/Scoring/Ordering.antt =====
-- The order of investigation that criteria.ts grades.
use skillfyme_hands_on.Base.{
  ℕ, ◌≤◌, ◌<◌, ◌≡◌, refl, Option, none, some, List, [], ◌∷◌, map, ◌↔◌, arith, Text,
}
use skillfyme_hands_on.Evaluation.Scoring.Criteria.{
  pairs_with, ordered_pairs, first_seen_index, pairs_for_path,
}

-- Every step that was seen was seen after the place `i`.
abbrev pub AllAfter : ℕ → List (Option ℕ) → Type 0
AllAfter i [] = Unit
AllAfter i (none ∷ js) = AllAfter i js
AllAfter i (some j ∷ js) = (i < j) × AllAfter i js

-- The steps that were seen were seen in the order of the path, each before the next.
abbrev pub InOrder : List (Option ℕ) → Type 0
InOrder [] = Unit
InOrder (none ∷ js) = InOrder js
InOrder (some i ∷ js) = AllAfter i js × InOrder js

pairs_with-le :
    (o : Option ℕ) (js : List (Option ℕ)) → (pairs_with o js).correct ≤ (pairs_with o js).comparable
unfolding pairs_with
pairs_with-le none js = omega arith
pairs_with-le (some i) [] = omega arith
pairs_with-le (some i) (none ∷ js) = pairs_with-le (some i) js
pairs_with-le (some i) (some j ∷ js) = ground (arith, pairs_with-le (some i) js)

ordered_pairs-le :
    (is : List (Option ℕ)) → (ordered_pairs is).correct ≤ (ordered_pairs is).comparable
unfolding ordered_pairs
ordered_pairs-le [] = omega arith
ordered_pairs-le (i ∷ is) = omega (arith, pairs_with-le i is, ordered_pairs-le is)

pairs_with-full :
    (i : ℕ) (js : List (Option ℕ))
    → (pairs_with (some i) js).comparable ≤ (pairs_with (some i) js).correct
    → AllAfter i js
unfolding pairs_with
pairs_with-full i [] h = tt
pairs_with-full i (none ∷ js) h = pairs_with-full i js h
pairs_with-full i (some j ∷ js) h =
    let l = pairs_with-le (some i) js in (ground arith, pairs_with-full i js (ground arith))

pairs_with-after :
    (i : ℕ) (js : List (Option ℕ))
    → AllAfter i js
    → (pairs_with (some i) js).correct ≡ (pairs_with (some i) js).comparable
unfolding pairs_with
pairs_with-after i [] h = refl
pairs_with-after i (none ∷ js) h = pairs_with-after i js h
pairs_with-after i (some j ∷ js) (h, hs) = ground (arith, pairs_with-after i js hs)

ordered_pairs_iff :
    (is : List (Option ℕ))
    → ((ordered_pairs is).correct ≡ (ordered_pairs is).comparable) ↔ InOrder is
unfolding ordered_pairs pairs_with
ordered_pairs_iff [] = (λ e. tt, λ h. refl)
ordered_pairs_iff (none ∷ is) =
    let r = ordered_pairs_iff is in (λ e. r.0 (omega arith), λ h. let k = r.1 h in omega arith)
ordered_pairs_iff (some i ∷ is) =
    let r = ordered_pairs_iff is in
    let a = pairs_with-le (some i) is in
    let b = ordered_pairs-le is in
    (
      λ e. (pairs_with-full i is (omega arith), r.0 (omega arith)),
      λ (h, hs). let k = r.1 hs in let l = pairs_with-after i is h in omega arith,
    )

-- A learner gets every comparable pair right exactly if the steps that were taken were first taken in
-- the order of the canonical path, each by an earlier command than the next; the steps that were never
-- taken count neither way.
pub pairs_for_path_iff :
    (cmds : List Text) (path : List Text)
    → ((pairs_for_path cmds path).correct ≡ (pairs_for_path cmds path).comparable)
      ↔ InOrder (map (λ step. first_seen_index step cmds) path)
unfolding pairs_for_path
pairs_for_path_iff cmds path = ordered_pairs_iff (map (λ step. first_seen_index step cmds) path)
