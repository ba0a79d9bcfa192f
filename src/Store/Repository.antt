-- ===== src/Store/Repository.antt =====
-- practice-core/src/modules/attempt/attempt.repository.ts.
pub mod Laws
use skillfyme_hands_on.Base.{
  ℕ, ◌+◌, Bool, false, ◌&&◌, Option, none, some, List, [], ◌∷◌, ◌==◌, ltb, if◌then◌else◌, get_or,
  find, filter,
}
use skillfyme_hands_on.Common.Mode.{ActivityMode}
use skillfyme_hands_on.Common.Status.{
  AttemptStatus, created, suspended, same_status, includes, retryable_from,
}
use skillfyme_hands_on.Store.Rows.{Attempt, World}
use skillfyme_hands_on.Store.Monad.{ok, err, conflict, M}

-- An optional id is the one given.
abbrev pub is_id : Option ℕ → ℕ → Bool
is_id none k = false
is_id (some j) k = j == k

abbrev pub has_id : ℕ → Attempt → Bool
has_id id a = a.id == id

unfoldable pub find_by_id : ℕ → World → Option Attempt
find_by_id id w = find (has_id id) w.attempts

-- The fields of `updates` that the services give: `none` leaves the column as it is.
pub record Updates : Type 0 where
  pub status : Option AttemptStatus
  pub environment_id : Option (Option ℕ)
  pub started_at : Option ℕ
  pub submitted_at : Option ℕ
  pub completed_at : Option ℕ
  pub snapshot : Option (Option ℕ × Option ℕ)

abbrev pub no_updates : Updates
no_updates = record {
  status = none;
  environment_id = none;
  started_at = none;
  submitted_at = none;
  completed_at = none;
  snapshot = none;
}

abbrev pub keep_or : Option ℕ → Option ℕ → Option ℕ
keep_or none old = old
keep_or (some t) old = some t

abbrev pub set_snapshot : Option (Option ℕ × Option ℕ) → Attempt → Attempt
set_snapshot none a = a
set_snapshot (some (id, at)) a = record a { snapshot_id = id; snapshot_taken_at = at }

-- The columns that `transition` sets on the row.
unfoldable pub updated : ℕ → ℕ → Updates → Attempt → Attempt
updated now expected u a = record (set_snapshot u.snapshot a) {
  status = get_or u.status a.status;
  environment_id = get_or u.environment_id a.environment_id;
  started_at = keep_or u.started_at a.started_at;
  submitted_at = keep_or u.submitted_at a.submitted_at;
  completed_at = keep_or u.completed_at a.completed_at;
  last_activity_at = now;
  version = expected + 1;
}

-- `UPDATE … WHERE id = … AND version = …` on the table.
unfoldable pub update_where : ℕ → ℕ → (Attempt → Attempt) → List Attempt → List Attempt
update_where id expected f [] = []
update_where id expected f (a ∷ rest) =
    (if has_id id a && (a.version == expected) then f a else a) ∷ update_where id expected f rest

unfoldable pub transition : ℕ → ℕ → Updates → M Attempt
transition id expected u w = elim (find (λ a. has_id id a && (a.version == expected)) w.attempts) [
  | none ↦ err conflict w
  | some a ↦
      ok (updated w.now expected u a)
        (record w { attempts = update_where id expected (updated w.now expected u) w.attempts })
]

-- `UPDATE … WHERE id = …`
unfoldable pub update_row : ℕ → (Attempt → Attempt) → List Attempt → List Attempt
update_row id f [] = []
update_row id f (a ∷ rest) = (if has_id id a then f a else a) ∷ update_row id f rest

unfoldable pub touch : ℕ → M (Unit {0})
touch id w =
    ok tt (record w {
      attempts = update_row id (λ a. record a { last_activity_at = w.now }) w.attempts;
    })

-- `ORDER BY created_at DESC LIMIT 1`
abbrev pub newer : Attempt → Option Attempt → Option Attempt
newer a none = some a
newer a (some b) = if ltb a.created_at b.created_at then some b else some a

abbrev pub most_recent : (Attempt → Bool) → List Attempt → Option Attempt
most_recent p [] = none
most_recent p (a ∷ rest) = if p a then newer a (most_recent p rest) else most_recent p rest

unfoldable pub find_most_recent_completed_attempt : ℕ → ℕ → World → Option Attempt
find_most_recent_completed_attempt user activity w =
    most_recent
      (λ a. (a.user_id == user) && (a.activity_id == activity) && includes retryable_from a.status)
      w.attempts

pub record CreateInput : Type 0 where
  pub tenant_id : ℕ
  pub user_id : ℕ
  pub activity_id : ℕ
  pub activity_version_id : ℕ
  pub mode : ActivityMode
  pub idempotency_key : Option ℕ
  pub retry_of_attempt_id : Option ℕ
  pub retry_index : ℕ

abbrev pub is_replay : CreateInput → ℕ → Attempt → Bool
is_replay i key a =
    (a.user_id == i.user_id)
    && (a.activity_version_id == i.activity_version_id)
    && is_id a.idempotency_key key

-- A new row, with the columns' defaults.
abbrev pub new_attempt : CreateInput → World → Attempt
new_attempt i w = record {
  id = w.next_id;
  tenant_id = i.tenant_id;
  user_id = i.user_id;
  activity_id = i.activity_id;
  activity_version_id = i.activity_version_id;
  mode = i.mode;
  status = created;
  retry_of_attempt_id = i.retry_of_attempt_id;
  retry_index = i.retry_index;
  assistance_flags = [];
  environment_id = none;
  idempotency_key = i.idempotency_key;
  created_at = w.now;
  started_at = none;
  submitted_at = none;
  completed_at = none;
  last_activity_at = w.now;
  hint_penalty_total = 0;
  version = 1;
  snapshot_id = none;
  snapshot_taken_at = none;
}

abbrev pub insert_attempt : CreateInput → M Attempt
insert_attempt i w =
    ok (new_attempt i w)
      (record w { attempts = new_attempt i w ∷ w.attempts; next_id = w.next_id + 1 })

abbrev pub existing : CreateInput → World → Option Attempt
existing i w = elim i.idempotency_key [ none ↦ none | some key ↦ find (is_replay i key) w.attempts ]

unfoldable pub create : CreateInput → M Attempt
create i w = elim (existing i w) [ some a ↦ ok a w | none ↦ insert_attempt i w ]

unfoldable pub find_stale_suspended_attempts : ℕ → World → List Attempt
find_stale_suspended_attempts older_than w =
    filter (λ a. same_status a.status suspended && ltb a.last_activity_at older_than) w.attempts
