-- ===== src/Store/Repository/Laws.antt =====
-- What the updates of attempt.repository.ts do to each row.
use skillfyme_hands_on.Base.{
  ℕ, ◌≡◌, ◌∙◌, refl, inl, inr, Bool, Bool-cases, true, false, ◌&&◌, some, List, [], ◌∷◌, ◌==◌,
  ==_refl, ==_iff, if◌then◌else◌, find, arith,
}
use skillfyme_hands_on.Store.Rows.{Attempt, World}
use skillfyme_hands_on.Store.Monad.{ok}
use skillfyme_hands_on.Store.Repository.{
  has_id, find_by_id, Updates, updated, update_where, update_row, transition,
}

find_both :
    (p q : Attempt → Bool) (xs : List Attempt) (a : Attempt)
    → find p xs ≡ some a
    → q a ≡ true
    → find (λ x. p x && q x) xs ≡ some a
find_both p q [] a h k = cc
find_both p q (x ∷ xs) a h k = ground (arith, find_both p q xs a)

pub find-has_id :
    (id : ℕ) (xs : List Attempt) (a : Attempt) → find (has_id id) xs ≡ some a → a.id ≡ id
find-has_id id [] a h = cc
find-has_id id (x ∷ xs) a h = ground (arith, find-has_id id xs a)

module _ (id : ℕ) (f : Attempt → Attempt) (keeps : (x : Attempt) → (f x).id ≡ x.id) where
  pub find-update_where_self :
      (xs : List Attempt) (a : Attempt)
      → find (has_id id) xs ≡ some a
      → find (has_id id) (update_where id a.version f xs) ≡ some (f a)
  unfolding update_where
  find-update_where_self [] a h = cc
  find-update_where_self (x ∷ xs) a h = ground (arith, keeps x, find-update_where_self xs a)

  pub find-update_where_other :
      (j version : ℕ) (xs : List Attempt)
      → (j == id) ≡ false
      → find (has_id j) (update_where id version f xs) ≡ find (has_id j) xs
  unfolding update_where
  find-update_where_other j version [] h = refl
  find-update_where_other j version (x ∷ xs) h =
      ground (arith, keeps x, find-update_where_other j version xs)

  pub find-update_row :
      (j : ℕ) (xs : List Attempt) (a : Attempt)
      → find (has_id j) xs ≡ some a
      → find (has_id j) (update_row id f xs) ≡ some (if j == id then f a else a)
  unfolding update_row
  find-update_row j [] a h = cc
  find-update_row j (x ∷ xs) a h = ground (arith, keeps x, find-update_row j xs a)

updated-id : (now v : ℕ) (u : Updates) (a : Attempt) → (updated now v u a).id ≡ a.id
unfolding updated
updated-id now v u a = ground arith

-- A transition from the row just read succeeds.
pub transition_lem :
    (id : ℕ) (u : Updates) (w : World) (a : Attempt)
    → find_by_id id w ≡ some a
    → transition id a.version u w
      ≡ ok
          (updated w.now a.version u a)
          (record w { attempts = update_where id a.version (updated w.now a.version u) w.attempts })
unfolding transition find_by_id
transition_lem id u w a h = rw (
  find_both (has_id id) (λ x. x.version == a.version) w.attempts a h (==_refl a.version),
  transition,
)

pub find_by_id-transition :
    (id j : ℕ) (u : Updates) (w : World) (a : Attempt)
    → find_by_id id w ≡ some a
    → find_by_id j
        (record w { attempts = update_where id a.version (updated w.now a.version u) w.attempts })
      ≡ (if j == id then some (updated w.now a.version u a) else find_by_id j w)
unfolding find_by_id
find_by_id-transition id j u w a h = elim (Bool-cases (j == id)) [
  | inl e ↦
      rw (e, (==_iff j id).0 e)
        (find-update_where_self id _ (updated-id w.now a.version u) w.attempts a h)
  | inr e ↦
      rw e (find-update_where_other id _ (updated-id w.now a.version u) j a.version w.attempts e)
]

pub find-same :
    (id : ℕ) (w v : World) (a : Attempt)
    → v.attempts ≡ w.attempts
    → find_by_id id w ≡ some a
    → find_by_id id v ≡ some a
unfolding find_by_id
find-same id w v a e h = rw e h

-- The row that a transition has just written is the one that is found.
pub find-moved :
    (id : ℕ) (v y : World) (u : Updates) (a : Attempt)
    → find_by_id id v ≡ some a
    → y.attempts ≡ update_where id a.version (updated v.now a.version u) v.attempts
    → find_by_id id y ≡ some (updated v.now a.version u a)
unfolding find_by_id
find-moved id v y u a h e = rw e (find_by_id-transition id id u v a h ∙ rw (==_refl id) refl)

-- A row is found under its own id.
pub find-own_id : (id : ℕ) (w : World) (a : Attempt) → find_by_id id w ≡ some a → a.id ≡ id
unfolding find_by_id
find-own_id id w a h = find-has_id id w.attempts a h
