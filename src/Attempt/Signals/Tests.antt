-- ===== src/Attempt/Signals/Tests.antt =====
-- A learner's commands, of which one deletes a namespace.
use skillfyme_hands_on.Base.{ℕ, ◌≡◌, refl, sym, Option, none, some, List, [], ◌∷◌, Text}
use skillfyme_hands_on.Common.Mode.{guided_lab}
use skillfyme_hands_on.Common.Status.{submitted}
use skillfyme_hands_on.Store.Rows.{Attempt, ActivityVersion, World, published}
use skillfyme_hands_on.Store.Repository.{find_by_id}
use skillfyme_hands_on.Attempt.Signals.{
  ProcessSignals, blast_radius_violations, Telemetry, CommandExecutedEnvelope, process_signals_for,
  consume,
}
use skillfyme_hands_on.Attempt.Signals.Counts.{
  IsCounted, expected-nil, signal_value, consume-IsCounted,
}

abbrev attempt : Attempt
attempt = record {
  id = 1;
  tenant_id = 1;
  user_id = 7;
  activity_id = 3;
  activity_version_id = 4;
  mode = guided_lab;
  status = submitted;
  retry_of_attempt_id = none;
  retry_index = 1;
  assistance_flags = [];
  environment_id = some 9;
  idempotency_key = none;
  created_at = 10;
  started_at = some 20;
  submitted_at = some 60_020;
  completed_at = none;
  last_activity_at = 90;
  hint_penalty_total = 0;
  version = 4;
  snapshot_id = none;
  snapshot_taken_at = none;
}

abbrev version : ActivityVersion
version = record {
  id = 4;
  activity_id = 3;
  mode = guided_lab;
  status = published;
  tasks = [];
  faults = [];
  milestones = [];
}

abbrev before : World
before = record {
  now = 100;
  next_id = 2;
  attempts = attempt ∷ [];
  events = [];
  tasks = [];
  versions = version ∷ [];
  activity_skills = [];
  learner_states = [];
  requests = [];
  milestones = [];
  submissions = [];
  project_scores = [];
  vivas = [];
}

abbrev process_signals : ℕ → Option ProcessSignals
process_signals _ =
    some (record { forbidden = (5 ∷ 6 ∷ []) ∷ []; good_actions = (3 ∷ []) ∷ []; bad_actions = [] })

abbrev quiet : Telemetry
quiet = record { world = before; commands = []; signals = [] }

abbrev command : Text → Option CommandExecutedEnvelope
command cmd = some (record { attempt_id = some 1; payload = some (some cmd) })

abbrev messages : List (Option CommandExecutedEnvelope)
messages = command (3 ∷ 4 ∷ []) ∷ none ∷ command (9 ∷ 5 ∷ 6 ∷ []) ∷ command (5 ∷ 6 ∷ 3 ∷ []) ∷ []

two_violations :
    signal_value 1 blast_radius_violations (consume process_signals messages quiet).signals ≡ 2
unfolding consume find_by_id
two_violations = refl

quiet-IsCounted : IsCounted process_signals quiet
quiet-IsCounted id key = sym (expected-nil (process_signals_for process_signals id before) id key)

consume-IsCounted_example : IsCounted process_signals (consume process_signals messages quiet)
consume-IsCounted_example = consume-IsCounted process_signals messages quiet quiet-IsCounted
