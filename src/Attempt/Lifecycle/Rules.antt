-- ===== src/Attempt/Lifecycle/Rules.antt =====
-- How the repository's writes evolve the world.
use skillfyme_hands_on.Base.{
  ℕ, ◌+◌, ◌≤◌, ◌<◌, ◌≡◌, refl, subst, inl, inr, Bool, Bool-cases, true, false, some, List, [], ◌∷◌,
  ◌==◌, ==_iff, All, find, if◌then◌else◌, Option-cases, arith,
}
use skillfyme_hands_on.Common.Status.{AttemptStatus}
use skillfyme_hands_on.Store.Rows.{Attempt, World, Request}
use skillfyme_hands_on.EventStore.Events.{EventActor, AttemptEvent}
use skillfyme_hands_on.EventStore.Log.{append, new_row}
use skillfyme_hands_on.Store.Monad.{
  Outcome, ok, err, bind, return, left, input, append_typed_event, send,
}
use skillfyme_hands_on.Store.Repository.{
  has_id, find_by_id, Updates, updated, update_where, update_row, transition, touch, CreateInput,
  create, existing, insert_attempt, new_attempt,
}
use skillfyme_hands_on.Store.Repository.Laws.{
  find-has_id, find-update_row, transition_lem, find_by_id-transition,
}
use skillfyme_hands_on.Attempt.Lifecycle.Machine.{
  may_move, here, move, Moved, Moved-still, Moved-refl, Evolves, Evolves-refl, Evolves-logs,
  Evolves-trans,
}

-- The ids of a list of rows are below a bound.
abbrev BelowIds : ℕ → List Attempt → Type 0
BelowIds n = All (λ (a : Attempt). a.id < n)

BelowIds-update_where :
    (n id v now : ℕ) (u : Updates) (xs : List Attempt)
    → BelowIds n xs
    → BelowIds n (update_where id v (updated now v u) xs)
unfolding update_where updated
BelowIds-update_where n id v now u [] b = tt
BelowIds-update_where n id v now u (x ∷ xs) b =
    ground (arith, BelowIds-update_where n id v now u xs b.1)

updated-Moved :
    (now : ℕ) (u : Updates) (a : Attempt) (s : AttemptStatus)
    → u.status ≡ some s
    → may_move a.status s ≡ true
    → Moved a (updated now a.version u a)
unfolding updated
updated-Moved now u a s e m = record {
  owner = ground arith;
  tenant = ground arith;
  reached = rw e (move here m);
  later = ground arith;
  locked = λ k. absurd (omega arith);
}

-- A transition along the machine, from the row just read.
pub Evolves-transition :
    (id : ℕ) (u : Updates) (w : World) (a : Attempt) (s : AttemptStatus)
    → find_by_id id w ≡ some a
    → u.status ≡ some s
    → may_move a.status s ≡ true
    → Evolves w (left (transition id a.version u w))
Evolves-transition id u w a s h e m = rw (transition_lem id u w a h) (record {
  fresh = BelowIds-update_where w.next_id id a.version w.now u w.attempts;
  moves = λ f j b g. elim (Bool-cases (j == id)) [
    | inl same ↦ (
      updated w.now a.version u a,
      rw (find_by_id-transition id j u w a h, same),
      moved j b g ((==_iff j id).0 same),
    )
    | inr other ↦ (b, rw (find_by_id-transition id j u w a h, other) g, Moved-refl b)
  ];
  logged = ([], refl);
})
  where
    moved :
        (j : ℕ) (b : Attempt)
        → find_by_id j w ≡ some b
        → j ≡ id
        → Moved b (updated w.now a.version u a)
    moved j b g same =
        let eq : a ≡ b = cc in
        subst (λ x. Moved x (updated w.now a.version u a)) eq (updated-Moved w.now u a s e m)

pub Evolves-append :
    (id : ℕ) (actor : EventActor) (e : AttemptEvent) (w : World)
    → Evolves w (left (append_typed_event id actor e w))
unfolding append
Evolves-append id actor e w =
    Evolves-logs w _ (new_row w.now (input id actor e) w.events ∷ []) refl refl refl

pub Evolves-send : (r : Request) (w : World) → Evolves w (left (send r w))
Evolves-send r w = Evolves-logs w _ [] refl refl refl

BelowIds-update_row :
    (n id : ℕ) (f : Attempt → Attempt)
    → ((x : Attempt) → (f x).id ≡ x.id)
    → (xs : List Attempt) → BelowIds n xs
    → BelowIds n (update_row id f xs)
unfolding update_row
BelowIds-update_row n id f k [] b = tt
BelowIds-update_row n id f k (x ∷ xs) b = ground (arith, k x, BelowIds-update_row n id f k xs b.1)

-- A write to one row, under its id, that moves the row along.
pub Evolves-update_row :
    (id : ℕ) (f : Attempt → Attempt)
    → ((x : Attempt) → (f x).id ≡ x.id)
    → ((x : Attempt) → Moved x (f x))
    → (w v : World) → v.attempts ≡ update_row id f w.attempts
    → v.next_id ≡ w.next_id
    → v.events ≡ w.events
    → Evolves w v
unfolding find_by_id
Evolves-update_row id f k m w v same next log = record {
  fresh = λ b. rw (same, next) (BelowIds-update_row w.next_id id f k w.attempts b);
  moves = λ _ j a e. (
    if j == id then f a else a,
    rw same (find-update_row id f k j w.attempts a e),
    moved (j == id) a,
  );
  logged = ([], log);
}
  where
    moved : (b : Bool) (a : Attempt) → Moved a (if b then f a else a)
    moved true a = m a
    moved false a = Moved-refl a

pub Evolves-touch : (id : ℕ) (w : World) → Evolves w (left (touch id w))
unfolding touch
Evolves-touch id w =
    Evolves-update_row id (λ a. record a { last_activity_at = w.now }) (λ x. refl)
      (λ x. Moved-still x _ refl refl refl refl refl) w _ refl refl refl

BelowIds-mono : (m n : ℕ) (xs : List Attempt) → m ≤ n → BelowIds m xs → BelowIds n xs
BelowIds-mono m n [] h b = tt
BelowIds-mono m n (x ∷ xs) h b = (omega arith, BelowIds-mono m n xs h b.1)

find-cons_fresh :
    (n j : ℕ) (xs : List Attempt) (x a : Attempt)
    → BelowIds n xs
    → x.id ≡ n
    → find (has_id j) xs ≡ some a
    → find (has_id j) (x ∷ xs) ≡ some a
find-cons_fresh n j xs x a b e h = ground (arith, find-has_id j xs a h, found_below n j xs a b h)
  where
    found_below :
        (n j : ℕ) (ys : List Attempt) (a : Attempt)
        → BelowIds n ys
        → find (has_id j) ys ≡ some a
        → a.id < n
    found_below n j [] a b h = cc
    found_below n j (y ∷ ys) a b h = ground (arith, found_below n j ys a b.1)

pub Evolves-insert : (i : CreateInput) (w : World) → Evolves w (left (insert_attempt i w))
unfolding find_by_id
Evolves-insert i w = record {
  fresh = λ f. (omega arith, BelowIds-mono w.next_id (w.next_id + 1) w.attempts (omega arith) f);
  moves = λ f j a e.
      (a, find-cons_fresh w.next_id j w.attempts (new_attempt i w) a f refl e, Moved-refl a);
  logged = ([], refl);
}

pub Evolves-create : (i : CreateInput) (w : World) → Evolves w (left (create i w))
unfolding create
Evolves-create i w = elim (Option-cases (existing i w)) [
  | inl e ↦ rw (e, create) (Evolves-insert i w)
  | inr (a, e) ↦ rw (e, create) (Evolves-refl w)
]

-- A transition from a row whose table has stayed as it was read.
pub Evolves-then :
    {w : World} (v : World) (id : ℕ) (u : Updates) (a : Attempt) (s : AttemptStatus)
    → Evolves w v
    → v.attempts ≡ w.attempts
    → find_by_id id w ≡ some a
    → u.status ≡ some s
    → may_move a.status s ≡ true
    → Evolves w (left (transition id a.version u v))
unfolding find_by_id
Evolves-then v id u a s e same h status m =
    Evolves-trans e (Evolves-transition id u v a s (rw same h) status m)

-- A result that is not used.
abbrev pub discard {ℓ} : {A : Type ℓ} → Outcome A → Outcome (Unit {0})
discard o = bind o (λ _. return tt)

pub left-discard {ℓ} : {A : Type ℓ} (o : Outcome A) → left (discard o) ≡ left o
left-discard (ok a w) = refl
left-discard (err e w) = refl
