-- ===== src/LlmGateway/Budget/Limits.antt =====
-- The limits of budget-ledger.ts hold.
use skillfyme_hands_on.Base.{
  ℕ, ◌+◌, ◌≤◌, ◌<◌, ◌≡◌, refl, true, Option, none, some, List, [], ◌∷◌, lookup, insert,
  lookup-insert, All, arith, leb, ◌==◌, if◌then◌else◌,
}
use skillfyme_hands_on.LlmGateway.Budget.Ledger.{
  Counter, BudgetLedger, Scope, day, month, roll, fits, check, spend, charge_scope, charge,
  note_provider_error, spent_on_attempt, global_scope,
}

-- No counter of the table stands above the limit.
abbrev pub Within : ℕ → List (ℕ × Counter) → Type 0
Within limit = All (λ e. e.1.spent ≤ limit)

-- No scope has spent more than its limit in its window.
pub record IsWithin (b : BudgetLedger) : Type 0 where
  pub attempts : Within b.cfg.per_attempt b.attempt
  pub users : Within b.cfg.per_user_daily b.user
  pub tenants : Within b.cfg.per_tenant_monthly b.tenant
  pub all : b.global.spent ≤ b.cfg.global_daily

insert-Within :
    (limit k : ℕ) (c : Counter) (m : List (ℕ × Counter))
    → c.spent ≤ limit
    → Within limit m
    → Within limit (insert k c m)
unfolding insert
insert-Within limit k c [] h w = (h, tt)
insert-Within limit k c ((j, d) ∷ m) h w = ground (arith, insert-Within limit k c m h w.1)

-- One scope: what fits at the check still fits when it is charged, at that time or later.
charge_scope-Within :
    (now later window limit est cost : ℕ) (id : Option ℕ) (m : List (ℕ × Counter))
    → fits now window m limit est id ≡ true
    → cost ≤ est
    → now ≤ later
    → Within limit m
    → Within limit (charge_scope later window cost id m)
unfolding fits charge_scope
charge_scope-Within now later window limit est cost none m f c n w = w
charge_scope-Within now later window limit est cost (some id) m f c n w =
    insert-Within limit id _ m (rolled (lookup id m) f) w
  where
    rolled :
        (o : Option Counter)
        → leb ((roll now o window).spent + est) limit ≡ true
        → (roll later o window).spent + cost ≤ limit
    rolled none g = ground arith
    rolled (some d) g = ground arith

-- A call that passes the check and then costs at most its estimate, charged at the time of the
-- check or later with no other charge in between, leaves every scope within its limit.
pub check-charge-IsWithin :
    (now later est cost : ℕ) (s : Scope) (b : BudgetLedger)
    → check now est s b ≡ none
    → cost ≤ est
    → now ≤ later
    → IsWithin b
    → IsWithin (charge later cost s b)
unfolding check charge
check-charge-IsWithin now later est cost s b e c n w = record {
  attempts =
      charge_scope-Within now later day _ est cost s.attempt_id b.attempt (ground arith) c n
        w.attempts;
  users = charge_scope-Within now later day _ est cost s.user_id b.user (ground arith) c n w.users;
  tenants =
      charge_scope-Within now later month _ est cost s.tenant_id b.tenant (ground arith) c n
        w.tenants;
  all = ground arith;
}

-- A charge is seen by the attempt that it names and by no other: at the time of the charge the
-- named attempt has spent the cost more than before, and every other attempt what it had.
pub spent_on_attempt-charge :
    (now cost id j : ℕ) (s : Scope) (b : BudgetLedger)
    → s.attempt_id ≡ some id
    → spent_on_attempt now j (charge now cost s b)
      ≡ (if id == j then spent_on_attempt now j b + cost else spent_on_attempt now j b)
unfolding spent_on_attempt charge charge_scope
spent_on_attempt-charge now cost id j s b e =
    ground (arith, lookup-insert j id (spend cost (roll now (lookup id b.attempt) day)) b.attempt)

spent_on_attempt_in_window :
    (now id : ℕ) (c : Counter) (b : BudgetLedger)
    → lookup id b.attempt ≡ some c
    → now < c.window_start + day
    → spent_on_attempt now id b ≡ c.spent
unfolding spent_on_attempt
spent_on_attempt_in_window now id c b e v = rw (e, spent_on_attempt) (ground arith)

abbrev pub attempt_only : ℕ → Scope
attempt_only id = record { attempt_id = some id; user_id = none; tenant_id = none }

-- The check reserves nothing: whenever the headroom of an attempt takes one call of a cost but not
-- two, two calls whose checks both come before both charges each pass, and the attempt has then
-- spent more than its limit. The counter of the attempt is in its window throughout.
pub race_overspends :
    (now cost id : ℕ) (c : Counter) (b : BudgetLedger)
    → lookup id b.attempt ≡ some c
    → now < c.window_start + day
    → now < b.global.window_start + day
    → b.global_breaker_until ≤ now
    → c.spent + cost ≤ b.cfg.per_attempt
    → b.cfg.per_attempt < c.spent + cost + cost
    → b.global.spent + cost ≤ b.cfg.global_daily
    → (check now cost (attempt_only id) b ≡ none)
      × (b.cfg.per_attempt
          < spent_on_attempt now id
              (charge now cost (attempt_only id) (charge now cost (attempt_only id) b)))
unfolding check fits roll
race_overspends now cost id c b e v g u h k l = (
  rw e (ground arith),
  ground (
    arith,
    spent_on_attempt_in_window now id c b e v,
    spent_on_attempt-charge now cost id id (attempt_only id) b refl,
    spent_on_attempt-charge now cost id id (attempt_only id) (charge now cost (attempt_only id) b)
        refl,
  ),
)

-- The fifth provider error in a row opens the breaker for a minute: every check in that minute is
-- refused at the global scope, whatever its cost, its scope ids and the money left.
pub breaker_opens :
    (t now cost : ℕ) (s : Scope) (b : BudgetLedger)
    → 4 ≤ b.consecutive_provider_errors
    → now < t + 60_000
    → check now cost s (note_provider_error t b) ≡ some global_scope
unfolding check note_provider_error
breaker_opens t now cost s b h k = ground arith

-- Four errors after a successful call leave the breaker as it was.
pub four_errors_spare_breaker :
    (now cost t₁ t₂ t₃ t₄ : ℕ) (s : Scope) (b : BudgetLedger)
    → (note_provider_error t₄ (
        note_provider_error t₃ (
          note_provider_error t₂
            (note_provider_error t₁ (charge now cost s b))))).global_breaker_until
      ≡ b.global_breaker_until
unfolding note_provider_error charge
four_errors_spare_breaker now cost t₁ t₂ t₃ t₄ s b = ground arith
