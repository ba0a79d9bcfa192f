-- ===== src/LlmGateway/Budget/Tests.antt =====
-- Runs of budget-ledger.ts, and its theorems at concrete inputs.
use skillfyme_hands_on.Base.{◌+◌, ◌≡◌, refl, true, none, some, [], lookup, insert, arith}
use skillfyme_hands_on.LlmGateway.Budget.Ledger.{
  defaults, BudgetLedger, Scope, attempt_scope, user_scope, day, roll, fits, check, charge_scope,
  charge, new_ledger, note_provider_error, spent_on_attempt, breaker_open,
}
use skillfyme_hands_on.LlmGateway.Budget.Limits.{IsWithin, check-charge-IsWithin}

abbrev full_scope : Scope
full_scope = record { attempt_id = some 7; user_id = some 3; tenant_id = some 1 }

-- Attempt 7 has spent 0.03 USD at time 1000.
charged : BudgetLedger
unfolding new_ledger charge charge_scope roll lookup insert
charged = charge 1000 300_000 full_scope (new_ledger defaults 0)

abbrev failing : BudgetLedger
failing = record {
  cfg = defaults;
  attempt = [];
  user = [];
  tenant = [];
  global = record { spent = 0; window_start = 0 };
  global_breaker_until = 0;
  consecutive_provider_errors = 4;
}

charged_spent : spent_on_attempt 2000 7 charged ≡ 300_000
unfolding charged spent_on_attempt
charged_spent = refl

next_day : spent_on_attempt (1000 + day) 7 charged ≡ 0
unfolding charged spent_on_attempt
next_day = refl

refused : check 2000 300_000 full_scope charged ≡ some attempt_scope
unfolding charged check fits
refused = refl

other_attempt :
    check 2000 4_800_000 (record full_scope { attempt_id = none }) charged ≡ some user_scope
unfolding charged check fits
other_attempt = refl

charged-IsWithin : IsWithin charged
unfolding charged
charged-IsWithin = omega arith

check-charge-IsWithin_example : IsWithin (charge 2500 150_000 full_scope charged)
unfolding charged check fits
check-charge-IsWithin_example =
    check-charge-IsWithin 2000 2500 200_000 150_000 full_scope charged refl (omega arith)
      (omega arith) charged-IsWithin

breaker_run : breaker_open 64_999 (note_provider_error 5000 failing) ≡ true
unfolding breaker_open note_provider_error
breaker_run = refl
