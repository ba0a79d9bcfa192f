-- ===== src/Store/Monad.antt =====
-- What a step of a service does: it ends with a result or an error, and in either case leaves the
-- world that it has changed so far. The errors are those of
-- practice-core/src/modules/attempt/attempt-error.ts and the exceptions of the framework.
use skillfyme_hands_on.Base.{ℕ, Option, none, some, List, [], ◌∷◌}
use skillfyme_hands_on.EventStore.Events.{EventActor, AttemptEvent, AppendEventInput}
use skillfyme_hands_on.EventStore.Log.{append}
use skillfyme_hands_on.Store.Rows.{World, Request}

-- `AttemptErrorCode`
pub data AttemptErrorCode : Type 0 where
  activity_not_published prerequisite_not_met cooldown_active : AttemptErrorCode
  concurrent_quota_exceeded invalid_state_transition attempt_not_found : AttemptErrorCode
  no_environment attempt_vanished : AttemptErrorCode

-- The codes that the project mode's services give `projectError`.
pub data ProjectErrorCode : Type 0 where
  milestone_is_locked milestone_already_passed project_attempt_not_found : ProjectErrorCode
  not_a_project empty_defence_message defence_not_available : ProjectErrorCode

pub data Error : Type 0 where
  -- `NotFoundException`
  not_found : Error
  -- `BadRequestException` with the codes of its reasons
  attempt_error : List AttemptErrorCode → Error
  -- any other `BadRequestException`
  bad_request : Error
  -- `ConflictException`
  conflict : Error
  -- `projectError` of practice-core/src/modules/project/project-error.ts
  project_error : ProjectErrorCode → Error
  -- an error that an external call or an assertion throws
  fault : Error

pub data Outcome {ℓ} (A : Type ℓ) : Type ℓ where
  ok : A → World → Outcome A
  err : Error → World → Outcome A

abbrev pub M {ℓ} : Type ℓ → Type ℓ
M A = World → Outcome A

abbrev pub bind {ℓ κ} : {A : Type ℓ} {B : Type κ} → Outcome A → (A → M B) → Outcome B
bind (ok a w) f = f a w
bind (err e w) f = err e w

infixl 5 ◌>>=◌ ◌>>◌
abbrev pub ◌>>=◌ {ℓ κ} : {A : Type ℓ} {B : Type κ} → M A → (A → M B) → M B
◌>>=◌ m f w = bind (m w) f

abbrev pub ◌>>◌ {ℓ} : {B : Type ℓ} → M (Unit {0}) → M B → M B
◌>>◌ m k w = bind (m w) (λ _. k)

abbrev pub return {ℓ} : {A : Type ℓ} → A → M A
return a w = ok a w

abbrev pub throw {ℓ} : {A : Type ℓ} → Error → M A
throw e w = err e w

-- The world that a step leaves, whether it ends well or not.
abbrev pub left {ℓ} : {A : Type ℓ} → Outcome A → World
left (ok a w) = w
left (err e w) = w

abbrev pub modify : (World → World) → M (Unit {0})
modify f w = ok tt (f w)

-- `findOrThrow` of practice-core/src/common/find-or-throw.ts
abbrev pub find_or_throw {ℓ} : {A : Type ℓ} → Option A → M A
find_or_throw (some a) w = ok a w
find_or_throw none w = err not_found w

-- `singleAttemptError`
abbrev pub single_attempt_error {ℓ} : {A : Type ℓ} → AttemptErrorCode → M A
single_attempt_error c w = err (attempt_error (c ∷ [])) w

-- `appendTypedEvent`, at the time of the world
abbrev pub input : ℕ → EventActor → AttemptEvent → AppendEventInput
input id actor e = record { attempt_id = id; actor = actor; event = e; occurred_at = none }

abbrev pub append_typed_event : ℕ → EventActor → AttemptEvent → M (Unit {0})
append_typed_event id actor e w =
    ok tt (record w { events = append w.now (input id actor e) w.events })

abbrev pub send : Request → M (Unit {0})
send r w = ok tt (record w { requests = r ∷ w.requests })
