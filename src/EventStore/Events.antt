-- ===== src/EventStore/Events.antt =====
-- practice-core/src/modules/event-store/attempt-event-type.ts: the taxonomy of attempt events. An
-- event's type and its payload are one value; a constructor carries the fields of the payload that
-- the modelled services write and read. Ids, task keys and fault ids are numbers, and so are times.
use skillfyme_hands_on.Base.{ℕ, Bool, Option}
use skillfyme_hands_on.Common.Status.{AttemptStatus}
use skillfyme_hands_on.Store.Milestones.{Milestone}

pub data EventActor : Type 0 where
  learner system validator ai admin_actor : EventActor

pub data DestroyReason : Type 0 where
  submit idle ttl budget reaper admin : DestroyReason

pub data DefenceRole : Type 0 where
  examiner_role learner_role : DefenceRole

-- The payload of DEFENCE_MESSAGE: a turn with its number and text, or the marker of a score.
pub data DefenceMessage : Type 0 where
  spoken : DefenceRole → ℕ → ℕ → DefenceMessage
  scored_viva : ℕ → ℕ → DefenceMessage

pub data AttemptEvent : Type 0 where
  attempt_created : ℕ → AttemptEvent
  env_requested : AttemptEvent
  env_ready : ℕ → AttemptEvent
  env_failed attempt_started suspended : AttemptEvent
  resumed : AttemptStatus → AttemptEvent
  submitted : AttemptEvent
  evaluated : ℕ → Bool → AttemptEvent
  sealed : AttemptEvent
  command_executed file_changed editor_save terminal_session_open terminal_session_close :
      AttemptEvent
  validation_requested validator_result : AttemptEvent
  task_passed task_failed task_skipped : ℕ → AttemptEvent
  hint_requested : ℕ → ℕ → AttemptEvent
  ai_message : AttemptEvent
  solution_viewed : ℕ → AttemptEvent
  reset : AttemptEvent
  fault_injected : ℕ → Bool → AttemptEvent
  idle_detected ttl_warning env_destroyed : AttemptEvent
  snapshot_taken : Option ℕ → AttemptEvent
  ticket_opened escalation_fired : AttemptEvent
  milestone_submitted : Option (Milestone × ℕ) → AttemptEvent
  milestone_gated : Milestone → Bool → ℕ → AttemptEvent
  defence_message : DefenceMessage → AttemptEvent
  account_claimed account_nuked account_quarantined : AttemptEvent

-- `TypedAppendEventInput`
pub record AppendEventInput : Type 0 where
  pub attempt_id : ℕ
  pub actor : EventActor
  pub event : AttemptEvent
  pub occurred_at : Option ℕ

-- `AttemptEventRow`
pub record AttemptEventRow : Type 0 where
  pub attempt_id : ℕ
  pub seq : ℕ
  pub occurred_at : ℕ
  pub actor : EventActor
  pub event : AttemptEvent
