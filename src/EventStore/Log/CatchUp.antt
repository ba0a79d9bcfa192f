-- ===== src/EventStore/Log/CatchUp.antt =====
-- A reader of event-store.repository.ts who has replayed an attempt and asks `listSince` later.
use mathlib.Core.List.{append-nil, append_assoc}
use skillfyme_hands_on.Base.{
  ℕ, ◌+◌, ◌≤◌, ◌≡◌, refl, sym, inl, inr, Bool-cases, true, false, ◌&&◌, List, [], ◌∷◌, ◌++◌, ◌==◌,
  ==_iff, ==_refl, ltb, if◌then◌else◌, filter, subst, arith,
}
use skillfyme_hands_on.EventStore.Events.{AppendEventInput, AttemptEventRow}
use skillfyme_hands_on.EventStore.Log.{of_attempt, max_seq, new_row, append, replay, list_since}
use skillfyme_hands_on.EventStore.Log.Order.{
  order_by_seq_last, select-Below, replay-append, max_seq-append, appends,
}

list_since-append_self :
    (now after : ℕ) (i : AppendEventInput) (es : List AttemptEventRow)
    → after ≤ max_seq i.attempt_id es
    → list_since i.attempt_id after (append now i es)
      ≡ list_since i.attempt_id after es ++ new_row now i es ∷ []
unfolding list_since append
list_since-append_self now after i es h =
    let above : ltb after (max_seq i.attempt_id es + 1) ≡ true = ground arith in
    rw (==_refl i.attempt_id, above)
      (order_by_seq_last (new_row now i es) _
        (select-Below i.attempt_id _ (λ e. ltb after e.seq) es (omega arith)))

list_since-append_other :
    (now after id : ℕ) (i : AppendEventInput) (es : List AttemptEventRow)
    → (i.attempt_id == id) ≡ false
    → list_since id after (append now i es) ≡ list_since id after es
unfolding list_since append
list_since-append_other now after id i es e = rw e

list_since-append :
    (now after id : ℕ) (i : AppendEventInput) (es : List AttemptEventRow)
    → after ≤ max_seq id es
    → list_since id after (append now i es) ≡ (
        if i.attempt_id == id
        then list_since id after es ++ new_row now i es ∷ []
        else list_since id after es)
list_since-append now after id i es h = elim (Bool-cases (i.attempt_id == id)) [
  | inl e ↦ rw e (
      subst
        (λ k.
          after ≤ max_seq k es
          → list_since k after (append now i es) ≡ list_since k after es ++ new_row now i es ∷ [])
        ((==_iff _ _).0 e) (list_since-append_self now after i es) h)
  | inr e ↦ rw e (list_since-append_other now after id i es e)
]

none_since :
    (id n : ℕ) (es : List AttemptEventRow)
    → max_seq id es ≤ n
    → filter (λ e. of_attempt id e && ltb n e.seq) es ≡ []
none_since id n [] h = refl
none_since id n (e ∷ es) h = ground (arith, none_since id n es)

caught_up :
    (id after : ℕ) (seen : List AttemptEventRow) (is : List (ℕ × AppendEventInput))
    (es : List AttemptEventRow)
    → after ≤ max_seq id es
    → replay id es ≡ seen ++ list_since id after es
    → replay id (appends is es) ≡ seen ++ list_since id after (appends is es)
unfolding appends
caught_up id after seen [] es h r = r
caught_up id after seen ((now, i) ∷ is) es h r =
    caught_up id after seen is (append now i es) (ground (arith, max_seq-append now id i es))
      (elim (Bool-cases (i.attempt_id == id)) [
        | inl e ↦
            rw (replay-append, list_since-append now after id i es h, e, r)
              (append_assoc seen (list_since id after es) _)
        | inr e ↦ rw (replay-append, list_since-append now after id i es h, e) r
      ])

-- What a reader has replayed, followed by what `listSince` gives from the last number seen, is the
-- whole replay, whatever was appended in between to this attempt and to others.
pub replay-list_since :
    (id : ℕ) (is : List (ℕ × AppendEventInput)) (es : List AttemptEventRow)
    → replay id (appends is es) ≡ replay id es ++ list_since id (max_seq id es) (appends is es)
unfolding list_since
replay-list_since id is es =
    caught_up id (max_seq id es) (replay id es) is es (omega arith)
      (rw (none_since id (max_seq id es) es (omega arith)) (sym (append-nil (replay id es))))
