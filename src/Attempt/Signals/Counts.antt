-- ===== src/Attempt/Signals/Counts.antt =====
-- The signals count the commands of the log.
use skillfyme_hands_on.Base.{
  ℕ, ◌+◌, ◌≡◌, refl, ap, Bool, Bool-cases, inl, inr, true, false, ◌&&◌, Option, none, some, List,
  [], ◌∷◌, ◌++◌, ◌==◌, find, ==_iff, arith, Text,
}
use skillfyme_hands_on.Attempt.Signals.{
  ProcessSignals, SignalKey, blast_radius_violations, good_count, bad_count, SignalRow, Telemetry,
  CommandExecutedEnvelope, same_key, is_signal, increment_signal, increment_if, counts_for, checked,
  checked_with, process_signals_for, handle_command, handle_payload, consume_message, consume,
}

-- `signalValue`
abbrev value_in : Option SignalRow → ℕ
value_in none = 0
value_in (some r) = r.value

abbrev pub signal_value : ℕ → SignalKey → List SignalRow → ℕ
signal_value id key rs = value_in (find (is_signal id key) rs)

abbrev one_if : Bool → ℕ
one_if true = 1
one_if false = 0

value-increment :
    (id j : ℕ) (key k : SignalKey) (rs : List SignalRow)
    → signal_value id key (increment_signal j k rs)
      ≡ signal_value id key rs + one_if ((j == id) && same_key k key)
unfolding increment_signal
value-increment id j key k [] = ground arith
value-increment id j key k (r ∷ rs) = ground (arith, value-increment id j key k rs)

value-increment_if :
    (id j : ℕ) (key k : SignalKey) (b : Bool) (rs : List SignalRow)
    → signal_value id key (increment_if b j k rs)
      ≡ signal_value id key rs + one_if (b && ((j == id) && same_key k key))
value-increment_if id j key k true rs = value-increment id j key k rs
value-increment_if id j key k false rs = omega arith

value-checked :
    (id j : ℕ) (key : SignalKey) (s : ProcessSignals) (cmd : Text) (rs : List SignalRow)
    → signal_value id key (checked j s cmd rs)
      ≡ signal_value id key rs + one_if ((j == id) && counts_for key s cmd)
value-checked id j blast_radius_violations s cmd rs =
    let f = increment_if (counts_for blast_radius_violations s cmd) j blast_radius_violations rs in
    let g = increment_if (counts_for good_count s cmd) j good_count f in
    let a =
      value-increment_if id j blast_radius_violations bad_count (counts_for bad_count s cmd) g in
    let b =
      value-increment_if id j blast_radius_violations good_count (counts_for good_count s cmd) f in
    let c =
      value-increment_if id j blast_radius_violations blast_radius_violations
        (counts_for blast_radius_violations s cmd) rs in
    ground arith
value-checked id j good_count s cmd rs =
    let f = increment_if (counts_for blast_radius_violations s cmd) j blast_radius_violations rs in
    let g = increment_if (counts_for good_count s cmd) j good_count f in
    let a = value-increment_if id j good_count bad_count (counts_for bad_count s cmd) g in
    let b = value-increment_if id j good_count good_count (counts_for good_count s cmd) f in
    let c =
      value-increment_if id j good_count blast_radius_violations
        (counts_for blast_radius_violations s cmd) rs in
    ground arith
value-checked id j bad_count s cmd rs =
    let f = increment_if (counts_for blast_radius_violations s cmd) j blast_radius_violations rs in
    let g = increment_if (counts_for good_count s cmd) j good_count f in
    let a = value-increment_if id j bad_count bad_count (counts_for bad_count s cmd) g in
    let b = value-increment_if id j bad_count good_count (counts_for good_count s cmd) f in
    let c =
      value-increment_if id j bad_count blast_radius_violations
        (counts_for blast_radius_violations s cmd) rs in
    ground arith

-- How many commands of an attempt count for a signal.
abbrev has_text : SignalKey → ProcessSignals → Option Text → Bool
has_text key s none = false
has_text key s (some cmd) = counts_for key s cmd

unfoldable pub counted : ℕ → SignalKey → ProcessSignals → List (ℕ × Option Text) → ℕ
counted id key s [] = 0
counted id key s ((j, cmd) ∷ cs) = one_if ((j == id) && has_text key s cmd) + counted id key s cs

counted-snoc :
    (id j : ℕ) (key : SignalKey) (s : ProcessSignals) (cmd : Option Text)
    (cs : List (ℕ × Option Text))
    → counted id key s (cs ++ ((j, cmd) ∷ []))
      ≡ counted id key s cs + one_if ((j == id) && has_text key s cmd)
unfolding counted
counted-snoc id j key s cmd [] = omega arith
counted-snoc id j key s cmd ((i, c) ∷ cs) = omega (arith, counted-snoc id j key s cmd cs)

-- What the signals are to be: nothing where the attempt's version asks for none.
abbrev pub expected : Option ProcessSignals → ℕ → SignalKey → List (ℕ × Option Text) → ℕ
expected none id key cs = 0
expected (some s) id key cs = counted id key s cs

pub expected-nil : (o : Option ProcessSignals) (id : ℕ) (key : SignalKey) → expected o id key [] ≡ 0
unfolding counted
expected-nil none id key = refl
expected-nil (some s) id key = refl

abbrev counts_in : Option ProcessSignals → SignalKey → Option Text → Bool
counts_in none key cmd = false
counts_in (some s) key cmd = has_text key s cmd

value-checked_with :
    (id j : ℕ) (key : SignalKey) (o : Option ProcessSignals) (cmd : Option Text)
    (rs : List SignalRow)
    → signal_value id key (checked_with j o cmd rs)
      ≡ signal_value id key rs + one_if ((j == id) && counts_in o key cmd)
value-checked_with id j key none cmd rs = ground arith
value-checked_with id j key (some s) none rs = ground arith
value-checked_with id j key (some s) (some cmd) rs = value-checked id j key s cmd rs

expected-snoc :
    (id j : ℕ) (key : SignalKey) (o : Option ProcessSignals) (cmd : Option Text)
    (cs : List (ℕ × Option Text))
    → expected o id key (cs ++ ((j, cmd) ∷ []))
      ≡ expected o id key cs + one_if ((j == id) && counts_in o key cmd)
expected-snoc id j key none cmd cs = ground arith
expected-snoc id j key (some s) cmd cs = counted-snoc id j key s cmd cs

-- Only the signals of the command's own attempt are read.
own_signals :
    (id j : ℕ) (key : SignalKey) (f : ℕ → Option ProcessSignals) (cmd : Option Text)
    → one_if ((j == id) && counts_in (f j) key cmd) ≡ one_if ((j == id) && counts_in (f id) key cmd)
own_signals id j key f cmd = elim (Bool-cases (j == id)) [
  | inl y ↦ ap (λ i. one_if ((j == id) && counts_in (f i) key cmd)) ((==_iff j id).0 y)
  | inr y ↦ rw y refl
]

module _ (process_signals : ℕ → Option ProcessSignals) where
  abbrev pub IsCounted : Telemetry → Type 0
  IsCounted t =
      (id : ℕ) (key : SignalKey)
      → signal_value id key t.signals
        ≡ expected (process_signals_for process_signals id t.world) id key t.commands

  handle_command-IsCounted :
      (j : ℕ) (cmd : Option Text) (t : Telemetry)
      → IsCounted t
      → IsCounted (handle_command process_signals j cmd t)
  unfolding handle_command
  handle_command-IsCounted j cmd t h id key =
      let f : ℕ → Option ProcessSignals = λ i. process_signals_for process_signals i t.world in
      let a = value-checked_with id j key (f j) cmd t.signals in
      let b = expected-snoc id j key (f id) cmd t.commands in
      let c = own_signals id j key f cmd in let d = h id key in omega arith

  consume_message-IsCounted :
      (m : Option CommandExecutedEnvelope) (t : Telemetry)
      → IsCounted t
      → IsCounted (consume_message process_signals m t)
  consume_message-IsCounted none t h = h
  consume_message-IsCounted (some e) t h = payload e.attempt_id e.payload
    where
      payload :
          (o : Option ℕ) (c : Option (Option Text))
          → IsCounted (handle_payload process_signals o c t)
      payload none c = h
      payload (some id) none = h
      payload (some id) (some cmd) = handle_command-IsCounted id cmd t h

  -- Whatever messages arrive, each signal of an attempt stays the number of commands in its log that
  -- contain an action of that signal, and zero where the attempt's version asks for no signals; where
  -- that held before.
  pub consume-IsCounted :
      (ms : List (Option CommandExecutedEnvelope)) (t : Telemetry)
      → IsCounted t
      → IsCounted (consume process_signals ms t)
  unfolding consume
  consume-IsCounted [] t h = h
  consume-IsCounted (m ∷ ms) t h =
      consume-IsCounted ms (consume_message process_signals m t) (consume_message-IsCounted m t h)
