-- ===== src/Attempt/Service/Quota.antt =====
-- What the creation of attempts does to the quota of open labs, which eligibility.service.ts checks at
-- the creation only.
use skillfyme_hands_on.Base.{
  ℕ, ◌≡◌, ◌∙◌, refl, inl, inr, Bool, Bool-cases, true, false, Option, none, some, Option-cases,
  List, [], ◌∷◌, ◌==◌, any,
}
use skillfyme_hands_on.EventStore.Events.{AttemptEvent, attempt_created}
use skillfyme_hands_on.EventStore.Log.{replay}
use skillfyme_hands_on.Store.Rows.{World}
use skillfyme_hands_on.Store.Monad.{
  AttemptErrorCode, Outcome, ok, err, M, bind, left, find_or_throw,
}
use skillfyme_hands_on.Store.Repository.{CreateInput, create, existing, insert_attempt}
use skillfyme_hands_on.Evaluation.Service.{find_version}
use skillfyme_hands_on.Attempt.Eligibility.{active_attempts, check}
use skillfyme_hands_on.Attempt.Service.Operations.{
  CreateAttemptInput, create_input, is_attempt_created, create_attempt,
}
use skillfyme_hands_on.Attempt.Lifecycle.Operations.{append_unless, guard_reasons}

active_attempts-insert :
    (i : CreateInput) (w : World) (user : ℕ)
    → active_attempts user (left (insert_attempt i w)) ≡ active_attempts user w
unfolding active_attempts
active_attempts-insert i w user = elim (Bool-cases (i.user_id == user)) [
  | inl e ↦ rw e refl
  | inr e ↦ rw e refl
]

module _ (gate_met : ℕ → ℕ → Bool) (quota_disabled : Bool) where
  -- Any learner may start in the one world what they may start in the other.
  abbrev pub IsAsEligible : World → World → Type 0
  IsAsEligible w u =
      (user version : ℕ)
      → check gate_met quota_disabled user version u ≡ check gate_met quota_disabled user version w

  IsAsEligible-bind {ℓ κ} :
      {A : Type ℓ} {B : Type κ} (w : World) (o : Outcome A) (f : A → M B)
      → IsAsEligible w (left o)
      → ((a : A) (v : World) → IsAsEligible v (left (f a v)))
      → IsAsEligible w (left (bind o f))
  IsAsEligible-bind w (ok a v) f e k = λ user version. k a v user version ∙ e user version
  IsAsEligible-bind w (err x v) f e k = e

  IsAsEligible-insert : (i : CreateInput) (w : World) → IsAsEligible w (left (insert_attempt i w))
  unfolding check
  IsAsEligible-insert i w user version = elim (Option-cases (find_version version w)) [
    | inl e ↦ rw (e, check) refl
    | inr (v, e) ↦ rw (e, check, active_attempts-insert i w user) refl
  ]

  IsAsEligible-create : (i : CreateInput) (w : World) → IsAsEligible w (left (create i w))
  unfolding create
  IsAsEligible-create i w user version = elim (Option-cases (existing i w)) [
    | inr (a, e) ↦ rw (e, create) refl
    | inl e ↦ rw (e, create) (IsAsEligible-insert i w user version)
  ]

  IsAsEligible-append :
      (b : Bool) (id : ℕ) (e : AttemptEvent) (w : World)
      → IsAsEligible w (left (append_unless b id e w))
  unfolding check active_attempts
  IsAsEligible-append true id e w user version = refl
  IsAsEligible-append false id e w user version = refl

  IsAsEligible-guard :
      (rs : List AttemptErrorCode) (w : World) → IsAsEligible w (left (guard_reasons rs w))
  IsAsEligible-guard [] w user version = refl
  IsAsEligible-guard (r ∷ rs) w user version = refl

  IsAsEligible-find {ℓ} :
      {A : Type ℓ} (o : Option A) (w : World) → IsAsEligible w (left (find_or_throw o w))
  IsAsEligible-find none w user version = refl
  IsAsEligible-find (some a) w user version = refl

  -- The creation of an attempt takes up no quota: whoever asks next, for themselves or another, gets
  -- the answer they would have got before it.
  pub create_attempt-check :
      (i : CreateAttemptInput) (w : World) (user version : ℕ)
      → check gate_met quota_disabled user version
          (left (create_attempt gate_met quota_disabled i w))
        ≡ check gate_met quota_disabled user version w
  unfolding create_attempt
  create_attempt-check i w =
      let reasons = check gate_met quota_disabled i.user_id i.activity_version_id w in
      IsAsEligible-bind w (find_or_throw (find_version i.activity_version_id w) w) _
        (IsAsEligible-find (find_version i.activity_version_id w) w)
        (λ v x.
          IsAsEligible-bind x (guard_reasons reasons x) _ (IsAsEligible-guard reasons x) (λ _ y.
            IsAsEligible-bind y (create (create_input i v w) y) _
              (IsAsEligible-create (create_input i v w) y)
              (λ a z.
                let e = attempt_created i.activity_version_id in
                let b = any is_attempt_created (replay a.id z.events) in
                IsAsEligible-bind z (append_unless b a.id e z) _ (IsAsEligible-append b a.id e z)
                  (λ _ t _ _. refl))))
