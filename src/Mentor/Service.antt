-- ===== src/Mentor/Service.antt =====
-- practice-core/src/modules/mentor/mentor.service.ts with mentor.controller.ts, which hands on what the
-- request says, and intent-classifier.ts. Regular expressions are the tests of `Patterns`; the prompt
-- that is rendered, with JSON in it, is the parameter `system_prompt`; the output guardrail, which is
-- made of regular expressions, is the parameter `check_output`. A fixed text is told by its kind. The reading of
-- the environment's state and the writes to the log are taken to succeed.
pub mod Laws
mod Tests
use skillfyme_hands_on.Base.{
  ℕ, ◌+◌, ◌/◌, Bool, true, false, Option, none, some, List, [], ◌∷◌, ◌++◌, map, length,
  if◌then◌else◌, get_or, Text,
}
use skillfyme_hands_on.EventStore.Events.{EventActor, ai, system, ai_message}
use skillfyme_hands_on.Store.Rows.{Attempt, ActivityVersion, World}
use skillfyme_hands_on.Store.Monad.{left, append_typed_event}
use skillfyme_hands_on.Store.Repository.{find_by_id}
use skillfyme_hands_on.Evaluation.Service.{find_version}
use skillfyme_hands_on.LlmGateway.Router.{mentor_reply}
use skillfyme_hands_on.LlmGateway.PromptCache.{CacheConfig}
use skillfyme_hands_on.LlmGateway.Service.{
  LlmRequest, LlmResponse, Degraded, LlmProvider, Gateway, call,
}
use skillfyme_hands_on.Mentor.Disclosure.{
  DisclosureResolution, patient_tutor, concept_only, resolve_disclosure,
}

pub data Intent : Type 0 where
  concept_q error_help just_tell_me off_topic injection : Intent

-- Whether one of the expressions of a list is found in a text.
pub record Patterns : Type 0 where
  pub trim : Text → Text
  pub injection_markers : Text → Bool
  pub just_tell_me_markers : Text → Bool
  pub off_topic_markers : Text → Bool
  pub error_help_markers : Text → Bool

abbrev pub classify_intent : Patterns → Text → Intent
classify_intent p text =
    let t = p.trim text in
    if p.injection_markers t
    then injection
    else if p.just_tell_me_markers t
    then just_tell_me
    else if p.off_topic_markers t
    then off_topic
    else if p.error_help_markers t
    then error_help
    else concept_q

-- All but the attempt's id is the request's body.
pub record MentorReplyInput : Type 0 where
  pub attempt_id : ℕ
  pub message : Text
  pub time_stuck : Option ℕ
  pub hint_level_reached : Option ℕ
  pub history : Option Text

pub data GuardrailViolation : Type 0 where
  command_leak code_block_too_long names_broken_resource solution_snippet_leak : GuardrailViolation

pub record GuardrailResult : Type 0 where
  pub allowed : Bool
  pub violations : List GuardrailViolation
  pub redacted : Text

-- What a reply says.
pub data Said : Type 0 where
  wont_follow outside_activity no_context ask_where_to_look : Said
  generated : Text → Said

pub record MentorReply : Type 0 where
  pub text : Said
  pub intent : Intent
  pub disclosure : DisclosureResolution
  pub guardrail_violations : List GuardrailViolation
  pub degraded : Bool
  pub cost : ℕ

-- The tables and the gateway, which all of practice-core shares.
pub record Mentor : Type 0 where
  pub world : World
  pub gateway : Gateway

-- The mean of the estimates, where a skill without one counts 0.3; without skills it is 0.5.
abbrev total : List (Option ℕ) → ℕ
total [] = 0
total (m ∷ ms) = get_or m 3_000 + total ms

abbrev pub mean_of_skills : List (Option ℕ) → ℕ
mean_of_skills [] = 5_000
mean_of_skills (m ∷ ms) = total (m ∷ ms) / length (m ∷ ms)

abbrev untrusted_open : Text
untrusted_open =
    b'<' ∷ b'u' ∷ b'n' ∷ b't' ∷ b'r' ∷ b'u' ∷ b's' ∷ b't' ∷ b'e' ∷ b'd' ∷ b'-' ∷ b'l' ∷ b'e' ∷ b'a'
    ∷ b'r' ∷ b'n' ∷ b'e' ∷ b'r' ∷ b'-' ∷ b'c' ∷ b'o' ∷ b'n' ∷ b't' ∷ b'e' ∷ b'n' ∷ b't' ∷ b'>' ∷ []

abbrev untrusted_close : Text
untrusted_close =
    b'<' ∷ b'/' ∷ b'u' ∷ b'n' ∷ b't' ∷ b'r' ∷ b'u' ∷ b's' ∷ b't' ∷ b'e' ∷ b'd' ∷ b'-' ∷ b'l' ∷ b'e'
    ∷ b'a' ∷ b'r' ∷ b'n' ∷ b'e' ∷ b'r' ∷ b'-' ∷ b'c' ∷ b'o' ∷ b'n' ∷ b't' ∷ b'e' ∷ b'n' ∷ b't'
    ∷ b'>' ∷ []

abbrev pub fixed : Said → Intent → DisclosureResolution → Bool → MentorReply
fixed said intent d degraded = record {
  text = said;
  intent = intent;
  disclosure = d;
  guardrail_violations = [];
  degraded = degraded;
  cost = 0;
}

abbrev pub least_disclosure : DisclosureResolution
least_disclosure = record {
  persona = patient_tutor;
  ceiling = concept_only;
  may_use_canonical_path = false;
  max_code_lines = 0;
}

abbrev pub log_message : ℕ → EventActor → World → World
log_message id actor w = left (append_typed_event id actor ai_message w)

module _ (patterns : Patterns) (masteries : ℕ → List (Option ℕ)) (override : ℕ → Option ℕ)
    (system_prompt : Attempt → DisclosureResolution → ℕ → Option Text → World → Text)
    (check_output : Text → DisclosureResolution → World → GuardrailResult) (prompt_version : Text)
    (sha256 : Text → ℕ) (redact : Text → Text) (cfg : CacheConfig)
    (providers : List LlmProvider) where
  abbrev pub disclosure_for : MentorReplyInput → Attempt → ActivityVersion → DisclosureResolution
  disclosure_for i a v = resolve_disclosure (record {
    mode = a.mode;
    mean_mastery = mean_of_skills (masteries a.id);
    time_stuck = get_or i.time_stuck 0;
    hint_level_reached = i.hint_level_reached;
    activity_override = override v.id;
  })

  abbrev pub request_for : MentorReplyInput → Attempt → DisclosureResolution → World → LlmRequest
  request_for i a d w = record {
    task_class = mentor_reply;
    prompt_version = prompt_version;
    system = system_prompt a d (mean_of_skills (masteries a.id)) i.history w;
    user = untrusted_open ++ i.message ++ untrusted_close;
    scope = record {
      attempt_id = some a.id;
      user_id = some a.user_id;
      tenant_id = some a.tenant_id;
    };
    max_output_tokens = none;
    no_cache = false;
  }

  -- The guardrail and the accounting, unless the gateway degraded.
  abbrev pub conclude_reply :
      MentorReplyInput
      → Intent
      → DisclosureResolution
      → World
      → LlmResponse
      → Gateway
      → Option Degraded
      → MentorReply × Mentor
  conclude_reply i intent d w res g (some reason) =
      (fixed no_context intent d true, record { world = w; gateway = g })
  conclude_reply i intent d w res g none =
      let guard = check_output res.text d w in
      (
        record {
          text = if guard.allowed then generated guard.redacted else ask_where_to_look;
          intent = intent;
          disclosure = d;
          guardrail_violations = guard.violations;
          degraded = false;
          cost = res.cost;
        },
        record { world = log_message i.attempt_id ai w; gateway = g },
      )

  abbrev pub gateway_call :
      MentorReplyInput → Attempt → DisclosureResolution → Mentor → LlmResponse × Gateway
  gateway_call i a d m =
      call sha256 redact cfg m.world.now (request_for i a d m.world) providers m.gateway

  abbrev pub ask :
      MentorReplyInput → Intent → Attempt → DisclosureResolution → Mentor → MentorReply × Mentor
  ask i intent a d m =
      let r = gateway_call i a d m in conclude_reply i intent d m.world r.0 r.1 r.0.degraded

  -- From the intent on.
  abbrev pub respond_to :
      Intent → MentorReplyInput → Attempt → DisclosureResolution → Mentor → MentorReply × Mentor
  respond_to injection i a d m = (
    fixed wont_follow injection d false,
    record m { world = log_message i.attempt_id system m.world },
  )
  respond_to off_topic i a d m = (fixed outside_activity off_topic d false, m)
  respond_to concept_q i a d m = ask i concept_q a d m
  respond_to error_help i a d m = ask i error_help a d m
  respond_to just_tell_me i a d m = ask i just_tell_me a d m

  abbrev pub reply_with :
      MentorReplyInput → Option Attempt → Option ActivityVersion → Mentor → MentorReply × Mentor
  reply_with i none v m = (fixed no_context concept_q least_disclosure true, m)
  reply_with i (some a) none m = (fixed no_context concept_q least_disclosure true, m)
  reply_with i (some a) (some v) m =
      respond_to (classify_intent patterns i.message) i a (disclosure_for i a v) m

  -- The version of an attempt that is there.
  abbrev pub version_of : Option Attempt → World → Option ActivityVersion
  version_of none w = none
  version_of (some a) w = find_version a.activity_version_id w

  unfoldable pub reply : MentorReplyInput → Mentor → MentorReply × Mentor
  unfolding find_by_id resolve_disclosure call
  reply i m = let a = find_by_id i.attempt_id m.world in reply_with i a (version_of a m.world) m
