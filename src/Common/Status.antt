-- ===== src/Common/Status.antt =====
-- `AttemptStatus` of practice-core/src/db/schema.ts, the groups of
-- practice-core/src/common/attempt-status-groups.ts, and the status lists of
-- practice-core/src/modules/attempt/attempt.service.ts and attempt.repository.ts.
use skillfyme_hands_on.Base.{ℕ, ◌==◌, Bool, List, [], ◌∷◌, any}

pub data AttemptStatus : Type 0 where
  created provisioning ready in_progress submitted evaluating : AttemptStatus
  passed failed completed provision_failed suspended eval_failed : AttemptStatus
  expired abandoned cached : AttemptStatus

-- A number for each status, by which two are compared.
abbrev pub rank : AttemptStatus → ℕ
rank created = 0
rank provisioning = 1
rank ready = 2
rank in_progress = 3
rank submitted = 4
rank evaluating = 5
rank passed = 6
rank failed = 7
rank completed = 8
rank provision_failed = 9
rank suspended = 10
rank eval_failed = 11
rank expired = 12
rank abandoned = 13
rank cached = 14

-- `===` on statuses
abbrev pub same_status : AttemptStatus → AttemptStatus → Bool
same_status s t = rank s == rank t

abbrev pub includes : List AttemptStatus → AttemptStatus → Bool
includes ss s = any (same_status s) ss

-- `AttemptStatusGroups.TERMINAL`
abbrev pub terminal : List AttemptStatus
terminal = passed ∷ failed ∷ completed ∷ provision_failed ∷ eval_failed ∷ expired ∷ abandoned ∷ []

-- `AttemptStatusGroups.RETRYABLE_FROM`
abbrev pub retryable_from : List AttemptStatus
retryable_from = failed ∷ completed ∷ provision_failed ∷ eval_failed ∷ abandoned ∷ expired ∷ []

-- `AttemptStatusGroups.SUCCESS`
abbrev pub success : List AttemptStatus
success = passed ∷ completed ∷ []

-- `AttemptService.REACTIVATABLE_STATUSES`
abbrev pub reactivatable : List AttemptStatus
reactivatable = suspended ∷ cached ∷ provision_failed ∷ []
