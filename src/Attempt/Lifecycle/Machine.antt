-- ===== src/Attempt/Lifecycle/Machine.antt =====
-- The moves of the state machine, and how a step of a service may change the world.
use skillfyme_hands_on.Base.{
  ℕ, ◌≤◌, ◌<◌, ◌≡◌, refl, sym, ap, ◌∙◌, Bool, true, some, List, [], ◌∷◌, ◌++◌, All, arith,
}
use mathlib.Core.List.{append_assoc}
use skillfyme_hands_on.Common.Status.{
  AttemptStatus, created, provisioning, ready, in_progress, submitted, evaluating, passed, failed,
  completed, provision_failed, suspended, eval_failed, expired, abandoned, cached, includes,
}
use skillfyme_hands_on.EventStore.Events.{AttemptEventRow}
use skillfyme_hands_on.Store.Rows.{Attempt, World}
use skillfyme_hands_on.Store.Monad.{Outcome, ok, err, M, bind, left}
use skillfyme_hands_on.Store.Repository.{find_by_id}

-- Where each status may go.
abbrev pub successors : AttemptStatus → List AttemptStatus
successors created = provisioning ∷ suspended ∷ evaluating ∷ []
successors provisioning = ready ∷ provision_failed ∷ suspended ∷ evaluating ∷ []
successors ready = in_progress ∷ suspended ∷ evaluating ∷ []
successors in_progress = submitted ∷ suspended ∷ evaluating ∷ []
successors submitted = passed ∷ failed ∷ suspended ∷ evaluating ∷ []
successors evaluating = passed ∷ failed ∷ suspended ∷ evaluating ∷ []
successors suspended = cached ∷ created ∷ evaluating ∷ []
successors cached = created ∷ evaluating ∷ []
successors provision_failed = created ∷ []
successors _ = []

abbrev pub may_move : AttemptStatus → AttemptStatus → Bool
may_move s t = includes (successors s) t

pub data Reach (s : AttemptStatus) : AttemptStatus → Type 0 where
  here : Reach s s
  move : {t u : AttemptStatus} → Reach s t → may_move t u ≡ true → Reach s u

pub Reach-trans : {s t u : AttemptStatus} → Reach s t → Reach t u → Reach s u
Reach-trans r here = r
Reach-trans r (move q e) = move (Reach-trans r q) e

-- Statuses with no way out.
abbrev pub sealed : List AttemptStatus
sealed = passed ∷ failed ∷ completed ∷ eval_failed ∷ expired ∷ abandoned ∷ []

sealed_stays : (s t : AttemptStatus) → includes sealed s ≡ true → may_move s t ≡ true → ⊥
sealed_stays s t h k = ground arith

pub Reach-sealed : {s t : AttemptStatus} → includes sealed s ≡ true → Reach s t → t ≡ s
Reach-sealed h here = refl
Reach-sealed {s} h (move {t} {u} r e) =
    let same : t ≡ s = Reach-sealed h r in absurd (sealed_stays s u h (rw same at e))

-- Ids below the next one, so that a new row hides none.
abbrev pub IsFresh : World → Type 0
IsFresh w = All (λ (a : Attempt). a.id < w.next_id) w.attempts

-- Two states of a row with one version have one status and one environment.
abbrev pub IsLocked : Attempt → Attempt → Type 0
IsLocked a b = b.version ≡ a.version → (b.status ≡ a.status) × (b.environment_id ≡ a.environment_id)

-- What has become of a row: it is there, with the same owner, moved along the machine; its version
-- never falls, and rises where the status or the environment changes.
pub record Moved (a b : Attempt) : Type 0 where
  pub owner : b.user_id ≡ a.user_id
  pub tenant : b.tenant_id ≡ a.tenant_id
  pub reached : Reach a.status b.status
  pub later : a.version ≤ b.version
  pub locked : IsLocked a b

pub record Evolves (w w' : World) : Type 0 where
  pub fresh : IsFresh w → IsFresh w'
  pub moves :
      IsFresh w
      → (id : ℕ) (a : Attempt) → find_by_id id w ≡ some a
      → (b : Attempt) × (find_by_id id w' ≡ some b) × Moved a b
  pub logged : (es : List AttemptEventRow) × (w'.events ≡ es ++ w.events)

-- Nothing that the machine is about has changed.
pub Moved-still :
    (a b : Attempt)
    → b.user_id ≡ a.user_id
    → b.tenant_id ≡ a.tenant_id
    → b.status ≡ a.status
    → b.version ≡ a.version
    → b.environment_id ≡ a.environment_id
    → Moved a b
Moved-still a b u t s v e = record {
  owner = u;
  tenant = t;
  reached = rw s here;
  later = omega arith;
  locked = λ _. (s, e);
}

pub Moved-refl : (a : Attempt) → Moved a a
Moved-refl a = Moved-still a a refl refl refl refl refl

Moved-trans : {a b c : Attempt} → Moved a b → Moved b c → Moved a c
Moved-trans {a} {b} {c} m n = record {
  owner = n.owner ∙ m.owner;
  tenant = n.tenant ∙ m.tenant;
  reached = Reach-trans m.reached n.reached;
  later = omega arith;
  locked = λ e.
      let k : b.version ≡ a.version = omega (arith, m.later, n.later) in
      let l : c.version ≡ b.version = omega (arith, m.later, n.later) in
      ((n.locked l).0 ∙ (m.locked k).0, (n.locked l).1 ∙ (m.locked k).1);
}

pub Evolves-refl : (w : World) → Evolves w w
Evolves-refl w = record {
  fresh = λ f. f;
  moves = λ f id a e. (a, e, Moved-refl a);
  logged = ([], refl);
}

pub Evolves-trans : {u v w : World} → Evolves u v → Evolves v w → Evolves u w
Evolves-trans {u} {v} {w} p q = record {
  fresh = λ f. q.fresh (p.fresh f);
  moves = λ f id a e.
      let (b, eb, mb) = p.moves f id a e in
      let (c, ec, mc) = q.moves (p.fresh f) id b eb in (c, ec, Moved-trans mb mc);
  logged = (
    q.logged.0 ++ p.logged.0,
    q.logged.1
        ∙ ap (◌++◌ q.logged.0) p.logged.1
        ∙ sym (append_assoc q.logged.0 p.logged.0 u.events),
  );
}

-- The attempts are left alone and the log only grows.
pub Evolves-logs :
    (w w' : World) (es : List AttemptEventRow)
    → w'.attempts ≡ w.attempts
    → w'.next_id ≡ w.next_id
    → w'.events ≡ es ++ w.events
    → Evolves w w'
unfolding find_by_id
Evolves-logs w w' es same next log = record {
  fresh = λ f. rw (same, next) f;
  moves = λ f id a e. (a, rw same e, Moved-refl a);
  logged = (es, log);
}

-- A step followed by another.
pub Evolves-bind {ℓ κ} :
    {A : Type ℓ} {B : Type κ} {w : World} (o : Outcome A) (f : A → M B)
    → Evolves w (left o)
    → ((a : A) (v : World) → o ≡ ok a v → Evolves w v → Evolves w (left (f a v)))
    → Evolves w (left (bind o f))
Evolves-bind (ok a v) f e k = k a v refl e
Evolves-bind (err x v) f e k = e
