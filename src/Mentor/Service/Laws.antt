-- ===== src/Mentor/Service/Laws.antt =====
-- What a reply of the mentor costs and logs, and what decides how much it may disclose.
use skillfyme_hands_on.Base.{
  ℕ, ◌≡◌, refl, subst, ◌⊎◌, inl, inr, Bool, true, false, not, ◌&&◌, ◌||◌, if◌then◌else◌, Option,
  none, some, List, Text,
}
use skillfyme_hands_on.EventStore.Events.{EventActor, ai, system}
use skillfyme_hands_on.Store.Rows.{Attempt, ActivityVersion, World}
use skillfyme_hands_on.Store.Repository.{find_by_id}
use skillfyme_hands_on.Evaluation.Service.{find_version}
use skillfyme_hands_on.LlmGateway.PromptCache.{CacheConfig}
use skillfyme_hands_on.LlmGateway.Service.{LlmRequest, LlmResponse, Degraded, LlmProvider, Gateway}
use skillfyme_hands_on.LlmGateway.Service.Laws.{Accounts, call-Accounts}
use skillfyme_hands_on.Mentor.Disclosure.{DisclosureResolution}
use skillfyme_hands_on.Mentor.Service.{
  Intent, concept_q, error_help, just_tell_me, off_topic, injection, Patterns, classify_intent,
  MentorReplyInput, GuardrailResult, MentorReply, Mentor, log_message, disclosure_for, request_for,
  conclude_reply, gateway_call, respond_to, reply,
}

-- What is answered without the gateway: a message with a marker of an injection, or one with a marker
-- of what is off topic and none of those that ask for the answer.
abbrev pub turned_away : Patterns → Text → Bool
turned_away p text =
    p.injection_markers (p.trim text)
    || (not (p.just_tell_me_markers (p.trim text)) && p.off_topic_markers (p.trim text))

abbrev refused : Intent → Bool
refused injection = true
refused off_topic = true
refused _ = false

refused-classify_intent :
    (p : Patterns) (text : Text) → refused (classify_intent p text) ≡ turned_away p text
refused-classify_intent p text = by_markers _ _ _ _
  where
    by_markers :
        (i j o e : Bool)
        → refused (
            if i
            then injection
            else if j
            then just_tell_me
            else if o
            then off_topic
            else if e
            then error_help
            else concept_q)
          ≡ (i || (not j && o))
    by_markers true j o e = refl
    by_markers false true o e = refl
    by_markers false false true e = refl
    by_markers false false false true = refl
    by_markers false false false false = refl

-- One message at most is logged.
abbrev pub Logged : MentorReplyInput → Mentor → MentorReply × Mentor → Type 0
Logged i m r =
    (r.1.world ≡ m.world)
    ⊎ ((actor : EventActor) × (r.1.world ≡ log_message i.attempt_id actor m.world))

-- A reply costs what the gateway's answer does, and nothing if it is degraded.
abbrev pub cost_of : Bool → LlmResponse → ℕ
cost_of true res = 0
cost_of false res = res.cost

module _ (sha256 : Text → ℕ) (redact : Text → Text) (cfg : CacheConfig) where
  -- A reply to a message that is turned away leaves the gateway alone and costs nothing; for any other
  -- the gateway accounts for one call, in the scope of the attempt, its learner and their tenant.
  abbrev pub Charged : Bool → Mentor → Attempt → MentorReply × Mentor → Type 0
  Charged true m a r = (r.1.gateway ≡ m.gateway) × (r.0.cost ≡ 0)
  Charged false m a r =
      (req : LlmRequest) × (res : LlmResponse) × (req.scope.attempt_id ≡ some a.id)
      × (req.scope.user_id ≡ some a.user_id)
      × (req.scope.tenant_id ≡ some a.tenant_id)
      × Accounts sha256 redact cfg m.world.now req m.gateway (res, r.1.gateway)
      × (r.0.cost ≡ cost_of r.0.degraded res)

module _ (patterns : Patterns) (masteries : ℕ → List (Option ℕ)) (override : ℕ → Option ℕ)
    (system_prompt : Attempt → DisclosureResolution → ℕ → Option Text → World → Text)
    (check_output : Text → DisclosureResolution → World → GuardrailResult) (prompt_version : Text)
    (sha256 : Text → ℕ) (redact : Text → Text) (cfg : CacheConfig)
    (providers : List LlmProvider) where
  abbrev asked_of :
      MentorReplyInput → Attempt → DisclosureResolution → Mentor → LlmResponse × Gateway
  asked_of i a d m =
      gateway_call patterns masteries override system_prompt check_output prompt_version sha256
        redact cfg providers i a d m

  abbrev IsAccounted : Bool → MentorReplyInput → Mentor → Attempt → MentorReply × Mentor → Type 0
  IsAccounted b i m a r = Charged sha256 redact cfg b m a r × Logged i m r

  accounts :
      (i : MentorReplyInput) (a : Attempt) (d : DisclosureResolution) (m : Mentor)
      → Accounts sha256 redact cfg m.world.now
          (request_for patterns masteries override system_prompt check_output prompt_version sha256
            redact cfg providers i a d m.world)
          m.gateway
          (asked_of i a d m)
  accounts i a d m =
      call-Accounts sha256 redact cfg m.world.now
        (request_for patterns masteries override system_prompt check_output prompt_version sha256
          redact cfg providers i a d m.world)
        providers m.gateway

  conclude_reply-IsAccounted :
      (i : MentorReplyInput) (t : Intent) (a : Attempt) (d : DisclosureResolution) (m : Mentor)
      (o : Option Degraded)
      → IsAccounted false i m a (
          conclude_reply patterns masteries override system_prompt check_output prompt_version
            sha256 redact cfg providers i t d m.world
            (asked_of i a d m).0
            (asked_of i a d m).1
            o)
  conclude_reply-IsAccounted i t a d m none = (
    (
      request_for patterns masteries override system_prompt check_output prompt_version sha256
          redact cfg providers i a d m.world,
      (asked_of i a d m).0,
      refl,
      refl,
      refl,
      accounts i a d m,
      refl,
    ),
    inr (ai, refl),
  )
  conclude_reply-IsAccounted i t a d m (some reason) = (
    (
      request_for patterns masteries override system_prompt check_output prompt_version sha256
          redact cfg providers i a d m.world,
      (asked_of i a d m).0,
      refl,
      refl,
      refl,
      accounts i a d m,
      refl,
    ),
    inl refl,
  )

  respond_to-IsAccounted :
      (t : Intent) (i : MentorReplyInput) (a : Attempt) (d : DisclosureResolution) (m : Mentor)
      → IsAccounted (refused t) i m a (
          respond_to patterns masteries override system_prompt check_output prompt_version sha256
            redact cfg providers t i a d m)
  respond_to-IsAccounted injection i a d m = ((refl, refl), inr (system, refl))
  respond_to-IsAccounted off_topic i a d m = ((refl, refl), inl refl)
  respond_to-IsAccounted concept_q i a d m = conclude_reply-IsAccounted i concept_q a d m _
  respond_to-IsAccounted error_help i a d m = conclude_reply-IsAccounted i error_help a d m _
  respond_to-IsAccounted just_tell_me i a d m = conclude_reply-IsAccounted i just_tell_me a d m _

  -- A message about an attempt that is there, with its version, and that has a marker of an injection, or
  -- one of what is off topic and none that asks for the answer, never reaches the gateway, and the reply
  -- costs nothing. For any other message the gateway accounts for one call, in the scope of the attempt,
  -- its learner and their tenant; the reply costs what that call does, and nothing if it is degraded.
  -- One message at most is logged. Reading the environment's state and writing the log do not fail.
  pub reply-Accounts :
      (i : MentorReplyInput) (m : Mentor) (a : Attempt) (v : ActivityVersion)
      → find_by_id i.attempt_id m.world ≡ some a
      → find_version a.activity_version_id m.world ≡ some v
      → Charged sha256 redact cfg (turned_away patterns i.message) m a (
          reply patterns masteries override system_prompt check_output prompt_version sha256 redact
            cfg providers i m)
        × Logged i m (
            reply patterns masteries override system_prompt check_output prompt_version sha256
              redact cfg providers i m)
  unfolding reply
  reply-Accounts i m a v e f =
      rw (e, f)
        (subst
          (λ b. IsAccounted b i m a (
            respond_to patterns masteries override system_prompt check_output prompt_version sha256
              redact cfg providers (classify_intent patterns i.message) i a
              (disclosure_for patterns masteries override system_prompt check_output prompt_version
                sha256 redact cfg providers i a v)
              m))
          (refused-classify_intent patterns i.message)
          (respond_to-IsAccounted (classify_intent patterns i.message) i a _ m))
