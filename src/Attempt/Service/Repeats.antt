-- ===== src/Attempt/Service/Repeats.antt =====
-- Calls that are made twice: a lab's second start, a message delivered again, a request sent again.
use skillfyme_hands_on.Base.{
  ℕ, ◌≡◌, refl, subst, inl, inr, Bool-cases, true, false, none, some, Option-cases, arith,
}
use skillfyme_hands_on.Common.Status.{AttemptStatus, includes, reactivatable}
use skillfyme_hands_on.EventStore.Events.{DestroyReason, learner, resumed}
use skillfyme_hands_on.Store.Rows.{Attempt, World}
use skillfyme_hands_on.Store.Monad.{Outcome, ok, err, left, append_typed_event}
use skillfyme_hands_on.Store.Repository.{
  find_by_id, Updates, no_updates, updated, update_where, CreateInput, create, existing,
  new_attempt,
}
use skillfyme_hands_on.Store.Repository.Laws.{transition_lem, find-same, find-moved}
use skillfyme_hands_on.Attempt.Service.Handlers.{
  reactivate, handle_environment_destroyed, is_submit, ignores_destroy, next_after_destroy,
}

IsSettled : ℕ → Outcome Attempt → Type 0
IsSettled id (ok a u) = reactivate id u ≡ ok a u
IsSettled id (err e u) = Unit {0}

abbrev renewal : Updates
renewal = record no_updates { status = some AttemptStatus.created; environment_id = some none }

pub reactivate_unchanged :
    (id : ℕ) (w : World) (a : Attempt)
    → find_by_id id w ≡ some a
    → includes reactivatable a.status ≡ false
    → reactivate id w ≡ ok a w
unfolding reactivate
reactivate_unchanged id w a h k = rw (h, reactivate, k) refl

updated_is_created :
    (now : ℕ) (a : Attempt)
    → includes reactivatable (updated now a.version renewal a).status ≡ false
unfolding updated
updated_is_created now a = refl

reactivate-IsSettled : (id : ℕ) (w : World) → IsSettled id (reactivate id w)
unfolding reactivate IsSettled
reactivate-IsSettled id w = elim (Option-cases (find_by_id id w)) [
  | inl e ↦ rw (e, reactivate) tt
  | inr (a, e) ↦ elim (Bool-cases (includes reactivatable a.status)) [
    | inr r ↦ rw (e, reactivate, r) (reactivate_unchanged id w a e r)
    | inl r ↦
        let v : World = left (append_typed_event id learner (resumed a.status) w) in
        let f : find_by_id id v ≡ some a = find-same id w v a refl e in
        rw (e, reactivate, r, transition_lem id renewal v a f)
          (reactivate_unchanged id _ _ (find-moved id v _ renewal a f refl)
            (updated_is_created w.now a))
  ]
]

-- An attempt that has been made ready for a new environment is left alone by a second call, which
-- returns the same row.
pub reactivate-reactivate :
    (id : ℕ) (w u : World) (a : Attempt) → reactivate id w ≡ ok a u → reactivate id u ≡ ok a u
unfolding IsSettled
reactivate-reactivate id w u a h = subst (IsSettled id) h (reactivate-IsSettled id w)

IsReplayed : CreateInput → Outcome Attempt → Type 0
IsReplayed i (ok a u) = create i u ≡ ok a u
IsReplayed i (err e u) = Unit {0}

create-existing :
    (i : CreateInput) (w : World) (a : Attempt) → existing i w ≡ some a → create i w ≡ ok a w
unfolding create
create-existing i w a h = rw (h, create) refl

create-IsReplayed :
    (i : CreateInput) (k : ℕ) (w : World) → i.idempotency_key ≡ some k → IsReplayed i (create i w)
unfolding create IsReplayed
create-IsReplayed i k w h = elim (Option-cases (existing i w)) [
  | inr (a, e) ↦ rw (e, create) (create-existing i w a e)
  | inl e ↦ rw (e, create) (create-existing i _ (new_attempt i w) (rw h (ground arith)))
]

-- A request that carries an idempotency key and is sent again gets the row that the first one
-- created or found, and changes nothing.
pub create-create :
    (i : CreateInput) (k : ℕ) (w u : World) (a : Attempt)
    → i.idempotency_key ≡ some k
    → create i w ≡ ok a u
    → create i u ≡ ok a u
unfolding IsReplayed
create-create i k w u a h e = subst (IsReplayed i) e (create-IsReplayed i k w h)

abbrev destroyed : DestroyReason → Updates
destroyed reason = record no_updates {
  status = some (next_after_destroy reason);
  environment_id = some none;
}

destroyed-ignores :
    (now : ℕ) (a : Attempt) (reason : DestroyReason)
    → is_submit reason ≡ false
    → ignores_destroy (updated now a.version (destroyed reason) a).status reason ≡ true
unfolding updated next_after_destroy
destroyed-ignores now a reason h = ground arith

destroy_ignored :
    (id : ℕ) (reason : DestroyReason) (w : World) (a : Attempt)
    → find_by_id id w ≡ some a
    → ignores_destroy a.status reason ≡ true
    → left (handle_environment_destroyed id reason w) ≡ w
unfolding handle_environment_destroyed
destroy_ignored id reason w a h i = rw (h, handle_environment_destroyed, i) refl

destroy_missing :
    (id : ℕ) (reason : DestroyReason) (w : World)
    → find_by_id id w ≡ none
    → left (handle_environment_destroyed id reason w) ≡ w
unfolding handle_environment_destroyed
destroy_missing id reason w h = rw (h, handle_environment_destroyed) refl

destroyed_world :
    (id : ℕ) (reason : DestroyReason) (w : World) (a : Attempt)
    → find_by_id id w ≡ some a
    → ignores_destroy a.status reason ≡ false
    → left (handle_environment_destroyed id reason w) ≡ record w {
      attempts = update_where id a.version (updated w.now a.version (destroyed reason)) w.attempts;
    }
unfolding handle_environment_destroyed
destroyed_world id reason w a e i =
    rw (e, handle_environment_destroyed, i, transition_lem id (destroyed reason) w a e) refl

-- The message that an environment was destroyed for any reason but a submission may be delivered
-- again: the second delivery changes nothing.
pub handle_environment_destroyed-twice :
    (id : ℕ) (reason : DestroyReason) (w : World)
    → is_submit reason ≡ false
    → left
        (handle_environment_destroyed id reason (left (handle_environment_destroyed id reason w)))
      ≡ left (handle_environment_destroyed id reason w)
handle_environment_destroyed-twice id reason w h = elim (Option-cases (find_by_id id w)) [
  | inl e ↦ rw (destroy_missing id reason w e) (destroy_missing id reason w e)
  | inr (a, e) ↦ elim (Bool-cases (ignores_destroy a.status reason)) [
    | inl i ↦ rw (destroy_ignored id reason w a e i) (destroy_ignored id reason w a e i)
    | inr i ↦ rw (destroyed_world id reason w a e i) (
        destroy_ignored id reason _ _ (find-moved id w _ (destroyed reason) a e refl)
          (destroyed-ignores w.now a reason h))
  ]
]
