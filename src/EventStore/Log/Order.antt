-- ===== src/EventStore/Log/Order.antt =====
-- The order that event-store.repository.ts keeps: each append comes last in its attempt's replay.
use skillfyme_hands_on.Base.{
  ℕ, zero, suc, ◌+◌, ◌<◌, ◌≡◌, refl, subst, inl, inr, Bool, Bool-cases, ==_iff, false, ◌&&◌, List,
  [], ◌∷◌, ◌++◌, map, ◌==◌, ==_refl, if◌then◌else◌, filter, All, arith,
}
use mathlib.Core.List.{map-append}
use native.Mathlib.Numerals.{add-one}
use skillfyme_hands_on.EventStore.Events.{AppendEventInput, AttemptEventRow}
use skillfyme_hands_on.EventStore.Log.{
  of_attempt, max_seq, insert_by_seq, order_by_seq, new_row, append, replay,
}

abbrev pub Below : ℕ → List AttemptEventRow → Type 0
Below n = All (λ e. e.seq < n)

insert_by_seq-Below :
    (n : ℕ) (e : AttemptEventRow) (es : List AttemptEventRow)
    → e.seq < n
    → Below n es
    → Below n (insert_by_seq e es)
unfolding insert_by_seq
insert_by_seq-Below n e [] h b = (h, tt)
insert_by_seq-Below n e (x ∷ xs) h b = ground (arith, insert_by_seq-Below n e xs h b.1)

order_by_seq-Below : (n : ℕ) (es : List AttemptEventRow) → Below n es → Below n (order_by_seq es)
unfolding order_by_seq
order_by_seq-Below n [] b = tt
order_by_seq-Below n (e ∷ es) b = insert_by_seq-Below n e _ b.0 (order_by_seq-Below n es b.1)

insert_by_seq_last :
    (e : AttemptEventRow) (es : List AttemptEventRow)
    → Below e.seq es
    → insert_by_seq e es ≡ es ++ e ∷ []
unfolding insert_by_seq
insert_by_seq_last e [] b = refl
insert_by_seq_last e (x ∷ xs) b = ground (arith, insert_by_seq_last e xs b.1)

-- A selection of rows, ordered, ends with a row above all of them.
pub order_by_seq_last :
    (e : AttemptEventRow) (es : List AttemptEventRow)
    → Below e.seq es
    → order_by_seq (e ∷ es) ≡ order_by_seq es ++ e ∷ []
unfolding order_by_seq
order_by_seq_last e es b = insert_by_seq_last e _ (order_by_seq-Below e.seq es b)

-- Any selection among an attempt's rows is at or below its greatest sequence number.
pub select-Below :
    (id n : ℕ) (p : AttemptEventRow → Bool) (es : List AttemptEventRow)
    → max_seq id es < n
    → Below n (filter (λ e. of_attempt id e && p e) es)
select-Below id n p [] h = tt
select-Below id n p (e ∷ es) h = ground (arith, select-Below id n p es)

attempt-Below :
    (id n : ℕ) (es : List AttemptEventRow) → max_seq id es < n → Below n (filter (of_attempt id) es)
attempt-Below id n [] h = tt
attempt-Below id n (e ∷ es) h = ground (arith, attempt-Below id n es)

replay-append_self :
    (now : ℕ) (i : AppendEventInput) (es : List AttemptEventRow)
    → replay i.attempt_id (append now i es) ≡ replay i.attempt_id es ++ new_row now i es ∷ []
unfolding replay append
replay-append_self now i es =
    rw (==_refl i.attempt_id)
      (order_by_seq_last (new_row now i es) _ (attempt-Below i.attempt_id _ es (omega arith)))

replay-append_other :
    (now id : ℕ) (i : AppendEventInput) (es : List AttemptEventRow)
    → (i.attempt_id == id) ≡ false
    → replay id (append now i es) ≡ replay id es
unfolding replay append
replay-append_other now id i es e = rw e

-- An append comes last in the replay of its attempt, with the next sequence number, and no other
-- attempt's replay changes; this holds of every table, whatever wrote it.
pub replay-append :
    (now id : ℕ) (i : AppendEventInput) (es : List AttemptEventRow)
    → replay id (append now i es)
      ≡ (if i.attempt_id == id then replay id es ++ new_row now i es ∷ [] else replay id es)
replay-append now id i es = elim (Bool-cases (i.attempt_id == id)) [
  | inl e ↦ rw e (
      subst (λ k. replay k (append now i es) ≡ replay k es ++ new_row now i es ∷ [])
        ((==_iff _ _).0 e) (replay-append_self now i es))
  | inr e ↦ rw e (replay-append_other now id i es e)
]

-- A history of appends, each at its time.
unfoldable pub appends : List (ℕ × AppendEventInput) → List AttemptEventRow → List AttemptEventRow
appends [] es = es
appends ((now, i) ∷ is) es = appends is (append now i es)

-- The numbers from 1 to `n`.
pub one_to : ℕ → List ℕ
one_to zero = []
one_to (suc n) = one_to n ++ suc n ∷ []

pub max_seq-append :
    (now id : ℕ) (i : AppendEventInput) (es : List AttemptEventRow)
    → max_seq id (append now i es)
      ≡ (if i.attempt_id == id then max_seq id es + 1 else max_seq id es)
unfolding append
max_seq-append now id i es = ground arith

abbrev pub seqs : List AttemptEventRow → List ℕ
seqs = map λ (e : AttemptEventRow). e.seq

-- The rows of an attempt are numbered 1, 2, … up to the greatest.
abbrev pub IsCounted : ℕ → List AttemptEventRow → Type 0
IsCounted id es = seqs (replay id es) ≡ one_to (max_seq id es)

append-IsCounted :
    (now id : ℕ) (i : AppendEventInput) (es : List AttemptEventRow)
    → IsCounted id es
    → IsCounted id (append now i es)
unfolding one_to
append-IsCounted now id i es c = elim (Bool-cases (i.attempt_id == id)) [
  | inl e ↦
      rw (replay-append, max_seq-append, e)
        (rw (map-append, c, (==_iff i.attempt_id id).0 e, add-one))
  | inr e ↦ rw (replay-append, max_seq-append, e) c
]

appends-IsCounted_from :
    (id : ℕ) (is : List (ℕ × AppendEventInput)) (es : List AttemptEventRow)
    → IsCounted id es
    → IsCounted id (appends is es)
unfolding appends
appends-IsCounted_from id [] es c = c
appends-IsCounted_from id ((now, i) ∷ is) es c =
    appends-IsCounted_from id is (append now i es) (append-IsCounted now id i es c)

-- After any history of appends on an empty table, each attempt's replay is numbered 1, 2, … with no
-- gap and no number twice.
pub appends-IsCounted : (id : ℕ) (is : List (ℕ × AppendEventInput)) → IsCounted id (appends is [])
unfolding replay one_to
appends-IsCounted id is = appends-IsCounted_from id is [] refl
