-- ===== src/LlmGateway/Budget/Ledger.antt =====
-- The class `BudgetLedger` of budget-ledger.ts and `BudgetExhaustedError` of types.ts.
use skillfyme_hands_on.Base.{
  ℕ, ◌+◌, ◌-◌, Bool, true, Option, none, some, List, [], lookup, insert, ltb, leb, if◌then◌else◌,
}

pub record BudgetConfig : Type 0 where
  pub per_attempt : ℕ
  pub per_user_daily : ℕ
  pub per_tenant_monthly : ℕ
  pub global_daily : ℕ

-- `DEFAULTS`
abbrev pub defaults : BudgetConfig
defaults = record {
  per_attempt = 500_000;
  per_user_daily = 5_000_000;
  per_tenant_monthly = 500_000_000;
  global_daily = 5_000_000_000;
}

pub record Counter : Type 0 where
  pub spent : ℕ
  pub window_start : ℕ

pub record BudgetLedger : Type 0 where
  pub cfg : BudgetConfig
  pub attempt : List (ℕ × Counter)
  pub user : List (ℕ × Counter)
  pub tenant : List (ℕ × Counter)
  pub global : Counter
  pub global_breaker_until : ℕ
  pub consecutive_provider_errors : ℕ

-- The scope ids of a call.
pub record Scope : Type 0 where
  pub attempt_id : Option ℕ
  pub user_id : Option ℕ
  pub tenant_id : Option ℕ

pub data Exhausted : Type 0 where
  attempt_scope user_scope tenant_scope global_scope : Exhausted

abbrev pub day : ℕ
day = 86_400_000

abbrev pub month : ℕ
month = 2_592_000_000

-- A ledger made at time `now`.
unfoldable pub new_ledger : BudgetConfig → ℕ → BudgetLedger
new_ledger cfg now = record {
  cfg = cfg;
  attempt = [];
  user = [];
  tenant = [];
  global = record { spent = 0; window_start = now };
  global_breaker_until = 0;
  consecutive_provider_errors = 0;
}

-- `roll`: a counter whose window is over starts again at 0. A clock that has gone back, which
-- makes the difference negative, leaves the counter as it is, as `-` on ℕ does.
unfoldable pub roll : ℕ → Option Counter → ℕ → Counter
roll now none window = record { spent = 0; window_start = now }
roll now (some c) window =
    if leb window (now - c.window_start) then record { spent = 0; window_start = now } else c

-- One scope of `checkOrThrow`: true if the estimate fits.
unfoldable pub fits : ℕ → ℕ → List (ℕ × Counter) → ℕ → ℕ → Option ℕ → Bool
unfolding roll
fits now window table limit cost none = true
fits now window table limit cost (some id) =
    leb ((roll now (lookup id table) window).spent + cost) limit

-- `checkOrThrow`: the scope that is exhausted, or none.
unfoldable pub check : ℕ → ℕ → Scope → BudgetLedger → Option Exhausted
unfolding roll
check now cost s b =
    if ltb now b.global_breaker_until
    then some global_scope
    else if ltb b.cfg.global_daily ((roll now (some b.global) day).spent + cost)
    then some global_scope
    else if fits now day b.attempt b.cfg.per_attempt cost s.attempt_id
    then if fits now day b.user b.cfg.per_user_daily cost s.user_id
      then if fits now month b.tenant b.cfg.per_tenant_monthly cost s.tenant_id
        then none
        else some tenant_scope
      else some user_scope
    else some attempt_scope

abbrev pub spend : ℕ → Counter → Counter
spend cost c = record c { spent = c.spent + cost }

-- One scope of `charge`.
unfoldable pub charge_scope : ℕ → ℕ → ℕ → Option ℕ → List (ℕ × Counter) → List (ℕ × Counter)
unfolding roll
charge_scope now window cost none table = table
charge_scope now window cost (some id) table =
    insert id (spend cost (roll now (lookup id table) window)) table

unfoldable pub charge : ℕ → ℕ → Scope → BudgetLedger → BudgetLedger
unfolding roll
charge now cost s b = record b {
  global = spend cost (roll now (some b.global) day);
  attempt = charge_scope now day cost s.attempt_id b.attempt;
  user = charge_scope now day cost s.user_id b.user;
  tenant = charge_scope now month cost s.tenant_id b.tenant;
  consecutive_provider_errors = 0;
}

-- After five errors in a row the breaker opens for a minute.
unfoldable pub note_provider_error : ℕ → BudgetLedger → BudgetLedger
note_provider_error now b =
    let n = b.consecutive_provider_errors + 1 in
    if leb 5 n
    then record b { consecutive_provider_errors = n; global_breaker_until = now + 60_000 }
    else record b { consecutive_provider_errors = n }

unfoldable pub spent_on_attempt : ℕ → ℕ → BudgetLedger → ℕ
unfolding roll
spent_on_attempt now id b = (roll now (lookup id b.attempt) day).spent

unfoldable pub breaker_open : ℕ → BudgetLedger → Bool
breaker_open now b = ltb now b.global_breaker_until
