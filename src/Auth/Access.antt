-- ===== src/Auth/Access.antt =====
-- Requests to practice-core/src/modules/attempt/attempt.controller.ts that change state, and the one of
-- practice-core/src/modules/mentor/mentor.controller.ts, behind the guards in the order of
-- app.module.ts, and who may make them. The throttler is left out: it only turns requests away. What a
-- route writes outside the world's tables, a file or an artifact's text, is left out with them.
use skillfyme_hands_on.Base.{
  ℕ, ◌≡◌, refl, ap, ◌∙◌, map, ◌⊎◌, arith, inl, inr, Bool, false, Option, none, some, List, [], ◌∷◌,
  All, Text,
}
use skillfyme_hands_on.EventStore.Events.{EventActor}
use skillfyme_hands_on.Store.Rows.{Attempt, ValidatorSpec, World}
use skillfyme_hands_on.Store.Repository.{find_by_id}
use skillfyme_hands_on.Evaluation.ValidatorRunner.{ResultStatus, TaskSummary}
use skillfyme_hands_on.Attempt.Service.Handlers.{Orchestrator}
use skillfyme_hands_on.Attempt.Lifecycle.Machine.{IsFresh, Evolves, Evolves-refl, Evolves-trans}
use skillfyme_hands_on.Attempt.Lifecycle.Histories.{
  Call, call_create, call_start_lab, call_mark_started, call_check_work, call_submit, call_connect,
  call_reveal_hint, call_guided_fallback, call_write_file, call_submit_artifact, call_mentor, serve,
  serve-Evolves,
}
use skillfyme_hands_on.Auth.{
  AuthClaims, TokenClaims, Refusal, auth_guard, roles_guard, is_owned_by_caller, ownership_guard,
}

-- The routes of the attempts' controller that name an attempt. Those about hints carry the task's key,
-- and the last two what the environment and the activity say to them.
pub data AttemptRoute : Type 0 where
  provision start check submit connect : AttemptRoute
  reveal_hint guided_fallback : ℕ → AttemptRoute
  write_file submit_artifact : Bool → AttemptRoute

abbrev call_of : AttemptRoute → ℕ → Call
call_of provision id = call_start_lab id
call_of start id = call_mark_started id
call_of check id = call_check_work id
call_of submit id = call_submit id
call_of connect id = call_connect id
call_of (reveal_hint key) id = call_reveal_hint id key
call_of (guided_fallback key) id = call_guided_fallback id key
call_of (write_file taken) id = call_write_file id taken
call_of (submit_artifact required) id = call_submit_artifact id required

-- A request with its `Authorization` header, or what reaches the server by another way. A message to the
-- mentor carries whose message the reply logs, if any.
pub data Request : Type 0 where
  create_request : Option Text → ℕ → Option ℕ → Request
  on_attempt : Option Text → Option ℕ → AttemptRoute → Request
  to_mentor : Option Text → ℕ → Option EventActor → Request
  internal : Call → Request

-- The guards of a route that names an attempt: no route is public or asks for a role.
abbrev guards_after : Option ℕ → World → Option AuthClaims ⊎ Refusal → Option Refusal
guards_after id w (inr r) = some r
guards_after id w (inl auth) = elim (roles_guard none auth) [
  | some r ↦ some r
  | none ↦ ownership_guard id auth w
]

abbrev run_guard : AttemptRoute → ℕ → Option Refusal → Option Call
run_guard route id none = some (call_of route id)
run_guard route id (some r) = none

-- What a header bears is no token of the attempt's owner: it is refused, or its claims are of another
-- user or of another tenant.
abbrev pub IsNotOf : Attempt → Option AuthClaims ⊎ Refusal → Type 0
IsNotOf a (inr r) = Unit
IsNotOf a (inl none) = Unit
IsNotOf a (inl (some c)) = (¬ (c.user_id ≡ a.user_id)) ⊎ (¬ (c.tenant_id ≡ a.tenant_id))

IsNotOf-is_owned_by_caller :
    (a : Attempt) (auth : Option AuthClaims)
    → IsNotOf a (inl auth)
    → is_owned_by_caller (some a) auth ≡ false
unfolding is_owned_by_caller
IsNotOf-is_owned_by_caller a none n = refl
IsNotOf-is_owned_by_caller a (some c) n = ground arith

foreign-guards :
    (id : ℕ) (route : AttemptRoute) (a : Attempt) (w : World)
    → ((c : Option AuthClaims)
        → is_owned_by_caller (find_by_id id w) c ≡ is_owned_by_caller (some a) c)
    → (o : Option AuthClaims ⊎ Refusal) → IsNotOf a o
    → run_guard route id (guards_after (some id) w o) ≡ none
unfolding roles_guard ownership_guard
foreign-guards id route a w k (inr r) n = refl
foreign-guards id route a w k (inl auth) n = rw (k auth, IsNotOf-is_owned_by_caller a auth n) refl

abbrev pub on : ℕ → List (Option Text × AttemptRoute) → List Request
on id = map (λ (h, r). on_attempt h (some id) r)

module _ (verify : Text → Option TokenClaims) where
  unfoldable pub guards : Option Text → Option ℕ → World → Option Refusal
  unfolding auth_guard roles_guard ownership_guard
  guards header id w = guards_after id w (auth_guard verify false header)

  -- The call that a request makes of the services, if the guards let it pass: a creation is in the name
  -- of the token's user, and an attempt's handler is run on the id that the guards saw.
  unfoldable pub permitted : Request → World → Option Call
  unfolding guards auth_guard
  permitted (create_request header version key) w = elim (auth_guard verify false header) [
    | inr r ↦ none
    | inl none ↦ none
    | inl (some c) ↦ some (
        call_create (record {
          tenant_id = c.tenant_id;
          user_id = c.user_id;
          activity_version_id = version;
          idempotency_key = key;
        }))
  ]
  permitted (on_attempt header none route) w = none
  permitted (on_attempt header (some id) route) w = run_guard route id (guards header (some id) w)
  permitted (to_mentor header id actor) w = elim (auth_guard verify false header) [
    | inr r ↦ none
    | inl auth ↦ elim (roles_guard none auth) [ some r ↦ none | none ↦ some (call_mentor id actor) ]
  ]
  permitted (internal c) w = some c

  abbrev pub IsForeign : Attempt → Option Text → Type 0
  IsForeign a header = IsNotOf a (auth_guard verify false header)

  foreign-permitted :
      (header : Option Text) (id : ℕ) (route : AttemptRoute) (a : Attempt) (w : World)
      → ((c : Option AuthClaims)
          → is_owned_by_caller (find_by_id id w) c ≡ is_owned_by_caller (some a) c)
      → IsForeign a header
      → permitted (on_attempt header (some id) route) w ≡ none
  unfolding permitted guards
  foreign-permitted header id route a w k h =
      foreign-guards id route a w k (auth_guard verify false header) h

module _ (verify : Text → Option TokenClaims) (gate_met : ℕ → ℕ → Bool) (quota_disabled : Bool)
    (orchestrator : Orchestrator) (execute : Option ℕ → ValidatorSpec → ℕ → Option ResultStatus)
    (score : Attempt → List TaskSummary → ℕ × Bool) where
  abbrev run_call : Option Call → World → World
  run_call none w = w
  run_call (some c) w = serve gate_met quota_disabled orchestrator execute score c w

  unfoldable pub respond : Request → World → World
  unfolding permitted serve
  respond r w = run_call (permitted verify r w) w

  unfoldable pub respond_all : List Request → World → World
  unfolding respond
  respond_all [] w = w
  respond_all (r ∷ rs) w = respond_all rs (respond r w)

  run_call-Evolves : (o : Option Call) (w : World) → Evolves w (run_call o w)
  run_call-Evolves none w = Evolves-refl w
  run_call-Evolves (some c) w = serve-Evolves gate_met quota_disabled orchestrator execute score c w

  respond-Evolves : (r : Request) (w : World) → Evolves w (respond r w)
  unfolding respond
  respond-Evolves r w = run_call-Evolves (permitted verify r w) w

  respond_all-Evolves : (rs : List Request) (w : World) → Evolves w (respond_all rs w)
  unfolding respond_all
  respond_all-Evolves [] w = Evolves-refl w
  respond_all-Evolves (r ∷ rs) w =
      Evolves-trans (respond-Evolves r w) (respond_all-Evolves rs (respond r w))

  -- In a world whose attempts' ids are all below the next one, no history of requests and other calls
  -- changes whose an attempt is that is there: the callers it belonged to are those it belongs to.
  pub is_owned_by_caller-respond_all :
      (rs : List Request) (w : World) (id : ℕ) (a : Attempt) (caller : Option AuthClaims)
      → IsFresh w
      → find_by_id id w ≡ some a
      → is_owned_by_caller (find_by_id id (respond_all rs w)) caller
        ≡ is_owned_by_caller (some a) caller
  unfolding is_owned_by_caller
  is_owned_by_caller-respond_all rs w id a none f e =
      let (b, eb, m) = (respond_all-Evolves rs w).moves f id a e in simp (eb)
  is_owned_by_caller-respond_all rs w id a (some c) f e =
      let (b, eb, m) = (respond_all-Evolves rs w).moves f id a e in simp (eb, m.owner, m.tenant)

  -- In a world whose attempts' ids are all below the next one, whatever requests and other calls there
  -- were, requests to the attempts' controller on an attempt that was there at the start, with headers
  -- that bear no valid token of its owner's, that is, of its user and its tenant, change nothing. The
  -- message to the mentor is none of these: its route has no ownership guard.
  pub respond_all-foreign :
      (rs : List Request) (hs : List (Option Text × AttemptRoute)) (w : World) (id : ℕ)
      (a : Attempt)
      → IsFresh w
      → find_by_id id w ≡ some a
      → All (λ (h, r). IsForeign verify a h) hs
      → respond_all (on id hs) (respond_all rs w) ≡ respond_all rs w
  unfolding respond_all respond
  respond_all-foreign rs [] w id a f e all = refl
  respond_all-foreign rs ((h, r) ∷ hs) w id a f e (x, xs) =
      let n =
        foreign-permitted verify h id r a (respond_all rs w)
          (λ c. is_owned_by_caller-respond_all rs w id a c f e) x in
      ap (λ v. respond_all (on id hs) (run_call v (respond_all rs w))) n
      ∙ respond_all-foreign rs hs w id a f e xs
