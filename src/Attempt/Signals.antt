-- ===== src/Attempt/Signals.antt =====
-- practice-core/src/modules/attempt/command-executed.consumer.ts with the loop of
-- common/nats-subscriber-base.ts and the reader of common/activity-spec-reader.ts. The signals that a
-- version's spec asks for are the parameter `process_signals`.
pub mod Counts
mod Tests
use skillfyme_hands_on.Base.{
  ℕ, ◌+◌, ◌≡◌, Bool, true, false, ◌&&◌, ◌||◌, Option, none, some, List, [], ◌∷◌, ◌++◌, ◌==◌,
  if◌then◌else◌, any, Text, strip_prefix,
}
use skillfyme_hands_on.EventStore.Events.{learner, command_executed}
use skillfyme_hands_on.Store.Rows.{World}
use skillfyme_hands_on.Store.Monad.{left, append_typed_event}
use skillfyme_hands_on.Store.Repository.{find_by_id}
use skillfyme_hands_on.Evaluation.Service.{find_version}

pub record ProcessSignals : Type 0 where
  pub forbidden : List Text
  pub good_actions : List Text
  pub bad_actions : List Text

pub data SignalKey : Type 0 where
  blast_radius_violations good_count bad_count : SignalKey

-- `AttemptSignalTable`
pub record SignalRow : Type 0 where
  pub attempt_id : ℕ
  pub key : SignalKey
  pub value : ℕ

-- The world with the commands of its COMMAND_EXECUTED events, in the order of the log, and the table
-- of signals. A command is none where the payload has no text for it.
pub record Telemetry : Type 0 where
  pub world : World
  pub commands : List (ℕ × Option Text)
  pub signals : List SignalRow

-- A message that is no JSON is none, and so is what an envelope misses.
pub record CommandExecutedEnvelope : Type 0 where
  pub attempt_id : Option ℕ
  pub payload : Option (Option Text)

abbrev pub same_key : SignalKey → SignalKey → Bool
same_key blast_radius_violations blast_radius_violations = true
same_key good_count good_count = true
same_key bad_count bad_count = true
same_key _ _ = false

-- `text.includes(part)`
unfoldable pub includes_text : Text → Text → Bool
includes_text [] part = elim (strip_prefix part []) [ none ↦ false | some _ ↦ true ]
includes_text (c ∷ cs) part =
    let later = includes_text cs part in
    elim (strip_prefix part (c ∷ cs)) [ none ↦ later | some _ ↦ true ]

abbrev pub is_signal : ℕ → SignalKey → SignalRow → Bool
is_signal id key r = (r.attempt_id == id) && same_key r.key key

-- `incrementSignal`
unfoldable pub increment_signal : ℕ → SignalKey → List SignalRow → List SignalRow
increment_signal id key [] = record { attempt_id = id; key = key; value = 1 } ∷ []
increment_signal id key (r ∷ rs) =
    let rest = increment_signal id key rs in
    if is_signal id key r then record r { value = r.value + 1 } ∷ rs else r ∷ rest

abbrev increment_if : Bool → ℕ → SignalKey → List SignalRow → List SignalRow
increment_if true id key rs = increment_signal id key rs
increment_if false id key rs = rs

-- Whether a command counts for a signal.
abbrev pub actions_of : SignalKey → ProcessSignals → List Text
actions_of blast_radius_violations s = s.forbidden
actions_of good_count s = s.good_actions
actions_of bad_count s = s.bad_actions

abbrev pub counts_for : SignalKey → ProcessSignals → Text → Bool
counts_for key s cmd = any (includes_text cmd) (actions_of key s)

abbrev pub checked : ℕ → ProcessSignals → Text → List SignalRow → List SignalRow
checked id s cmd rs = increment_if (counts_for bad_count s cmd) id bad_count (
    increment_if (counts_for good_count s cmd) id good_count
      (increment_if (counts_for blast_radius_violations s cmd) id blast_radius_violations rs))

-- Without signals there is nothing to check; without a text the check throws, before any signal.
abbrev pub checked_with : ℕ → Option ProcessSignals → Option Text → List SignalRow → List SignalRow
checked_with id none cmd rs = rs
checked_with id (some s) none rs = rs
checked_with id (some s) (some cmd) rs = checked id s cmd rs

module _ (process_signals : ℕ → Option ProcessSignals) where
  -- `processSignalsFor`, with `getActivitySpec`
  unfoldable pub process_signals_for : ℕ → World → Option ProcessSignals
  unfolding find_by_id
  process_signals_for id w = elim (find_by_id id w) [
    | none ↦ none
    | some a ↦ elim (find_version a.activity_version_id w) [
      | none ↦ none
      | some v ↦ process_signals v.id
    ]
  ]

  unfoldable pub handle_command : ℕ → Option Text → Telemetry → Telemetry
  unfolding process_signals_for increment_signal includes_text
  handle_command id cmd t =
      let w = left (append_typed_event id learner command_executed t.world) in
      record {
        world = w;
        commands = t.commands ++ ((id, cmd) ∷ []);
        signals = checked_with id (process_signals_for id w) cmd t.signals;
      }

  abbrev pub handle_payload : Option ℕ → Option (Option Text) → Telemetry → Telemetry
  handle_payload none payload t = t
  handle_payload (some id) none t = t
  handle_payload (some id) (some cmd) t = handle_command id cmd t

  -- A message: one that is no JSON or has no attempt or payload is dropped.
  abbrev pub consume_message : Option CommandExecutedEnvelope → Telemetry → Telemetry
  consume_message none t = t
  consume_message (some e) t = handle_payload e.attempt_id e.payload t

  unfoldable pub consume : List (Option CommandExecutedEnvelope) → Telemetry → Telemetry
  unfolding handle_command
  consume [] t = t
  consume (m ∷ ms) t = consume ms (consume_message m t)
