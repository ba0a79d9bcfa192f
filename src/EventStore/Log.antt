-- ===== src/EventStore/Log.antt =====
-- practice-core/src/modules/event-store/event-store.repository.ts: the append-only log. The table
-- `attempt_events` is a list of rows in no order that matters; an append runs under an advisory
-- lock, so it is one step.
pub mod Order
pub mod CatchUp
use skillfyme_hands_on.Base.{
  ℕ, ◌+◌, max, Bool, ◌&&◌, List, [], ◌∷◌, ◌==◌, ltb, leb, if◌then◌else◌, filter, get_or,
}
use skillfyme_hands_on.EventStore.Events.{AppendEventInput, AttemptEventRow}

abbrev pub of_attempt : ℕ → AttemptEventRow → Bool
of_attempt id e = e.attempt_id == id

-- `COALESCE(max(seq), 0)` over the rows of an attempt
abbrev pub max_seq : ℕ → List AttemptEventRow → ℕ
max_seq id [] = 0
max_seq id (e ∷ es) = if of_attempt id e then max e.seq (max_seq id es) else max_seq id es

-- `ORDER BY seq ASC`, as an insertion sort
pub insert_by_seq : AttemptEventRow → List AttemptEventRow → List AttemptEventRow
insert_by_seq e [] = e ∷ []
insert_by_seq e (x ∷ xs) = if leb e.seq x.seq then e ∷ x ∷ xs else x ∷ insert_by_seq e xs

pub order_by_seq : List AttemptEventRow → List AttemptEventRow
order_by_seq [] = []
order_by_seq (e ∷ es) = insert_by_seq e (order_by_seq es)

abbrev pub new_row : ℕ → AppendEventInput → List AttemptEventRow → AttemptEventRow
new_row now i es = record {
  attempt_id = i.attempt_id;
  seq = max_seq i.attempt_id es + 1;
  occurred_at = get_or i.occurred_at now;
  actor = i.actor;
  event = i.event;
}

-- The table after `append` at time `now`; the result that it returns is the new row's `seq`.
unfoldable pub append : ℕ → AppendEventInput → List AttemptEventRow → List AttemptEventRow
append now i es = new_row now i es ∷ es

unfoldable pub replay : ℕ → List AttemptEventRow → List AttemptEventRow
unfolding insert_by_seq order_by_seq
replay id es = order_by_seq (filter (of_attempt id) es)

unfoldable pub list_since : ℕ → ℕ → List AttemptEventRow → List AttemptEventRow
unfolding insert_by_seq order_by_seq
list_since id after es = order_by_seq (filter (λ e. of_attempt id e && ltb after e.seq) es)
