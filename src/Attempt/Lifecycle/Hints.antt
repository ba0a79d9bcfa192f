-- ===== src/Attempt/Lifecycle/Hints.antt =====
-- The requests about hints in practice-core/src/modules/attempt/hint.service.ts, and the state machine.
use skillfyme_hands_on.Base.{
  ℕ, refl, Bool, true, false, Option, none, some, if◌then◌else◌, any, ltb,
}
use skillfyme_hands_on.EventStore.Events.{learner, hint_requested, solution_viewed}
use skillfyme_hands_on.Store.Rows.{HintSpec, World}
use skillfyme_hands_on.Store.Monad.{
  M, left, find_or_throw, bad_request, throw, return, ◌>>◌, modify, append_typed_event,
}
use skillfyme_hands_on.Store.Repository.{find_by_id}
use skillfyme_hands_on.Attempt.Hints.{
  activity_tasks, or_bad_request, find_task, get_task_spec, get_used_max_level, next_hint, reveal,
  charge_hint, guided_fallback, mark_assisted, is_flagged,
}
use skillfyme_hands_on.Attempt.Lifecycle.Machine.{Moved-still, Evolves, Evolves-refl, Evolves-trans}
use skillfyme_hands_on.Attempt.Lifecycle.Rules.{Evolves-append, Evolves-update_row}
use skillfyme_hands_on.Attempt.Lifecycle.Operations.{Evolves-seq, find_or_throw-Evolves}

or_bad_request-Evolves {ℓ} :
    {A : Type ℓ} (o : Option A) (w : World) → Evolves w (left (or_bad_request o w))
or_bad_request-Evolves none w = Evolves-refl w
or_bad_request-Evolves (some a) w = Evolves-refl w

get_task_spec-Evolves : (id key : ℕ) (w : World) → Evolves w (left (get_task_spec id key w))
unfolding get_task_spec
get_task_spec-Evolves id key w =
    Evolves-seq (find_or_throw (activity_tasks id w) w) _
      (find_or_throw-Evolves (activity_tasks id w) w)
      (λ ts x. or_bad_request-Evolves (find_task key ts) x)

charge_hint-Evolves : (id key : ℕ) (h : HintSpec) (w : World) → Evolves w (charge_hint id key h w)
unfolding charge_hint
charge_hint-Evolves id key h w =
    Evolves-update_row id _ (λ x. refl) (λ x. Moved-still x _ refl refl refl refl refl) w _ refl
      refl refl

mark_assisted-Evolves : (id key : ℕ) (w : World) → Evolves w (mark_assisted id key w)
unfolding mark_assisted
mark_assisted-Evolves id key w =
    Evolves-update_row id _ (λ x. refl) (λ x. Moved-still x _ refl refl refl refl refl) w _ refl
      refl refl

pub reveal-Evolves : (id key : ℕ) (w : World) → Evolves w (left (reveal id key w))
unfolding reveal
reveal-Evolves id key w =
    Evolves-seq (get_task_spec id key w) _ (get_task_spec-Evolves id key w) (λ task x.
      let o = next_hint (get_used_max_level id key x) task.hints in
      Evolves-seq (or_bad_request o x) _ (or_bad_request-Evolves o x) (λ next y.
        Evolves-trans (Evolves-append id learner (hint_requested key next.level) y)
          (charge_hint-Evolves id key next _)))

abbrev refuse_if : Bool → M (Unit {0})
refuse_if b = if b then throw bad_request else return tt

if_refused-Evolves : (b : Bool) (w : World) → Evolves w (left (refuse_if b w))
if_refused-Evolves true w = Evolves-refl w
if_refused-Evolves false w = Evolves-refl w

abbrev mark_unless : Bool → ℕ → ℕ → M (Unit {0})
mark_unless b id key =
    if b
    then return tt
    else (append_typed_event id learner (solution_viewed key) >> modify (mark_assisted id key))

mark_unless-Evolves :
    (b : Bool) (id key : ℕ) (w : World) → Evolves w (left (mark_unless b id key w))
mark_unless-Evolves true id key w = Evolves-refl w
mark_unless-Evolves false id key w =
    Evolves-trans (Evolves-append id learner (solution_viewed key) w)
      (mark_assisted-Evolves id key _)

pub guided_fallback-Evolves : (id key : ℕ) (w : World) → Evolves w (left (guided_fallback id key w))
unfolding guided_fallback
guided_fallback-Evolves id key w =
    Evolves-seq (get_task_spec id key w) _ (get_task_spec-Evolves id key w) (λ task x.
      let b = any (λ (h : HintSpec). ltb (get_used_max_level id key x) h.level) task.hints in
      Evolves-seq (refuse_if b x) _ (if_refused-Evolves b x) (λ _ y.
        Evolves-seq (find_or_throw (find_by_id id x) y) _
          (find_or_throw-Evolves (find_by_id id x) y)
          (λ a z.
            Evolves-seq (mark_unless (is_flagged a) id key z) _
              (mark_unless-Evolves (is_flagged a) id key z) (λ _ u. Evolves-refl u))))
