-- ===== src/Mentor/Service/Tests.antt =====
-- Replies about an attempt at a guided lab.
use skillfyme_hands_on.Base.{
  ℕ, ◌≡◌, refl, Bool, true, false, Option, none, some, List, [], ◌∷◌, Text,
}
use skillfyme_hands_on.Common.Mode.{guided_lab}
use skillfyme_hands_on.Common.Status.{in_progress}
use skillfyme_hands_on.Store.Rows.{Attempt, ActivityVersion, World, published}
use skillfyme_hands_on.Store.Repository.{find_by_id}
use skillfyme_hands_on.LlmGateway.Budget.Ledger.{defaults, new_ledger}
use skillfyme_hands_on.LlmGateway.PromptCache.{CacheConfig}
use skillfyme_hands_on.LlmGateway.Service.{LlmProvider}
use skillfyme_hands_on.Mentor.Disclosure.{DisclosureResolution}
use skillfyme_hands_on.Mentor.Service.{Patterns, MentorReplyInput, GuardrailResult, Mentor, reply}
use skillfyme_hands_on.Mentor.Service.Laws.{Charged, Logged, reply-Accounts}

abbrev attempt : Attempt
attempt = record {
  id = 1;
  tenant_id = 1;
  user_id = 7;
  activity_id = 3;
  activity_version_id = 4;
  mode = guided_lab;
  status = in_progress;
  retry_of_attempt_id = none;
  retry_index = 1;
  assistance_flags = [];
  environment_id = some 9;
  idempotency_key = none;
  created_at = 10;
  started_at = some 20;
  submitted_at = some 60_020;
  completed_at = none;
  last_activity_at = 90;
  hint_penalty_total = 0;
  version = 4;
  snapshot_id = none;
  snapshot_taken_at = none;
}

abbrev version : ActivityVersion
version = record {
  id = 4;
  activity_id = 3;
  mode = guided_lab;
  status = published;
  tasks = [];
  faults = [];
  milestones = [];
}

abbrev before : World
before = record {
  now = 100;
  next_id = 2;
  attempts = attempt ∷ [];
  events = [];
  tasks = [];
  versions = version ∷ [];
  activity_skills = [];
  learner_states = [];
  requests = [];
  milestones = [];
  submissions = [];
  project_scores = [];
  vivas = [];
}

abbrev never : Text → Bool
never t = false

abbrev same : Text → Text
same t = t

hash : Text → ℕ
hash [] = 0
hash (c ∷ cs) = c

abbrev patterns : Patterns
patterns = record {
  trim = same;
  injection_markers = never;
  just_tell_me_markers = never;
  off_topic_markers = never;
  error_help_markers = never;
}

abbrev masteries : ℕ → List (Option ℕ)
masteries id = some 9_000 ∷ []

abbrev override : ℕ → Option ℕ
override v = none

abbrev system_prompt : Attempt → DisclosureResolution → ℕ → Option Text → World → Text
system_prompt a d n h w = []

abbrev check_output : Text → DisclosureResolution → World → GuardrailResult
check_output t d w = record { allowed = true; violations = []; redacted = t }

abbrev cfg : CacheConfig
cfg = record { ttl_ms = 100; max_entries = 2 }

abbrev providers : List LlmProvider
providers =
    record {
      name = 1;
      healthy = true;
      complete = λ t s u n.
          some (record { text = 7 ∷ []; model = 1; input_tokens = 3; output_tokens = 2 });
    }
    ∷ []

abbrev mentor : Mentor
mentor = record {
  world = before;
  gateway = record { budget = new_ledger defaults 0; cache = []; records = [] };
}

-- A learner who has mastered the skill claims to have seen the third hint.
abbrev claim : MentorReplyInput
claim = record {
  attempt_id = 1;
  message = 8 ∷ [];
  time_stuck = none;
  hint_level_reached = some 3;
  history = none;
}

found : find_by_id 1 before ≡ some attempt
unfolding find_by_id
found = refl

reply-Accounts_example :
    Charged hash same cfg false mentor attempt (
      reply patterns masteries override system_prompt check_output
        (1 ∷ [])
        hash
        same
        cfg
        providers
        claim
        mentor)
    × Logged claim mentor (
        reply patterns masteries override system_prompt check_output
          (1 ∷ [])
          hash
          same
          cfg
          providers
          claim
          mentor)
reply-Accounts_example =
    reply-Accounts patterns masteries override system_prompt check_output (1 ∷ []) hash same cfg
      providers claim mentor attempt version found refl
