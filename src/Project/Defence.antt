-- ===== src/Project/Defence.antt =====
-- practice-core/src/modules/project/defence.service.ts. A question and a message are numbers, a message
-- that is blank is `none`. The map of the running vivas, which the process keeps in memory, is the
-- world's `vivas`. Levels are counted in thirds of a ten-thousandth where they become scores.
pub mod Laws
use skillfyme_hands_on.Base.{
  ℕ, zero, suc, ◌+◌, ◌-◌, ◌*◌, ◌<◌, Bool, true, false, ◌||◌, Option, none, some, List, [], ◌∷◌, min,
  length, filter, lookup, insert, if◌then◌else◌, ltb,
}
use skillfyme_hands_on.EventStore.Events.{
  learner, ai, defence_message, DefenceRole, examiner_role, learner_role, DefenceMessage, spoken,
  scored_viva, AttemptEvent, AttemptEventRow, EventActor,
}
use skillfyme_hands_on.EventStore.Log.{of_attempt, replay}
use skillfyme_hands_on.Store.Milestones.{final, milestone_locked, VivaState}
use skillfyme_hands_on.Store.Rows.{World}
use skillfyme_hands_on.Store.Monad.{
  ok, err, fault, project_error, empty_defence_message, defence_not_available, M, ◌>>=◌, ◌>>◌, bind,
  return, throw, modify, append_typed_event,
}
use skillfyme_hands_on.Evaluation.Service.{take_or_throw}
use skillfyme_hands_on.Project.Repository.{get_milestone, is_locked}
use skillfyme_hands_on.Project.Ports.{Turn, GradingResult, Ports, grading_level, resolve_repo_ref}

-- `VIVA_RUBRIC_ID`
abbrev pub viva_rubric_id : ℕ
viva_rubric_id = 1

-- The question that stands in for those that could not be made.
abbrev pub stand_in_question : ℕ
stand_in_question = 0

pub record VivaScore : Type 0 where
  pub overall_level : ℕ
  pub provisional : Bool
  pub human_review_required : Bool

-- What `postMessage` answers.
pub record Posted : Type 0 where
  pub turn : ℕ
  pub next_question : Option ℕ
  pub closed : Bool
  pub score : Option VivaScore

abbrev pub is_defence : AttemptEvent → Bool
is_defence (defence_message m) = true
is_defence _ = false

-- The rows of type DEFENCE_MESSAGE of an attempt.
abbrev pub defence_rows : List AttemptEventRow → List AttemptEventRow
defence_rows es = filter (λ e. is_defence e.event) es

unfoldable pub next_turn : ℕ → World → ℕ
next_turn id w = length (defence_rows (filter (of_attempt id) w.events)) + 1

abbrev turns_of : AttemptEvent → List Turn → List Turn
turns_of (defence_message (spoken r n t)) rest = record { turn = n; role = r; text = t } ∷ rest
turns_of _ rest = rest

abbrev pub turns : List AttemptEventRow → List Turn
turns [] = []
turns (e ∷ es) = turns_of e.event (turns es)

unfoldable pub transcript : ℕ → World → List Turn
transcript id w = turns (replay id w.events)

abbrev score_in : AttemptEvent → Option ℕ → Option ℕ
score_in (defence_message (scored_viva n level)) earlier = some (min 30_000 (10_000 * (level - 1)))
score_in _ earlier = earlier

-- The score of the last marker among rows that stand oldest first.
abbrev pub last_score : List AttemptEventRow → Option ℕ → Option ℕ
last_score [] found = found
last_score (e ∷ es) found = last_score es (score_in e.event found)

unfoldable pub defence_component_score : ℕ → World → Option ℕ
defence_component_score id w = last_score (replay id w.events) none

abbrev pub actor_of : DefenceRole → EventActor
actor_of learner_role = learner
actor_of examiner_role = ai

unfoldable pub emit_turn : ℕ → DefenceRole → ℕ → ℕ → M (Unit {0})
emit_turn id role turn text =
    append_typed_event id (actor_of role) (defence_message (spoken role turn text))

unfoldable pub assert_final_reached : ℕ → M (Unit {0})
assert_final_reached id w = elim (get_milestone id final w) [
  | none ↦ err (project_error defence_not_available) w
  | some r ↦ if is_locked r.status then err (project_error defence_not_available) w else ok tt w
]

abbrev pub set_viva : ℕ → VivaState → World → World
set_viva id v w = record w { vivas = insert id v w.vivas }

-- `questions[asked]`, where it is there
unfoldable pub question_at : ℕ → List ℕ → Option ℕ
question_at n [] = none
question_at zero (q ∷ qs) = some q
question_at (suc n) (q ∷ qs) = question_at n qs

module _ (ports : Ports) where
  abbrev questions_for : ℕ → World → List ℕ
  questions_for id w = elim (ports.generate_questions (resolve_repo_ref id w)) [
    | some qs ↦ qs
    | none ↦ stand_in_question ∷ []
  ]

  -- The result is the first turn and the number of questions. A list of no questions fails at its
  -- first, which is read once the viva is stored.
  abbrev ask_first : ℕ → List ℕ → M (ℕ × ℕ)
  ask_first id [] w =
      err fault (set_viva id (record { questions = []; asked = 0; closed = false }) w)
  ask_first id (q ∷ qs) w =
      (emit_turn id examiner_role (next_turn id w) q >> λ u.
      ok (next_turn id w, suc (length qs))
        (set_viva id (record { questions = q ∷ qs; asked = 1; closed = false }) u))
        w

  unfoldable pub start_viva : ℕ → M (ℕ × ℕ)
  unfolding emit_turn next_turn assert_final_reached
  start_viva id w = bind (assert_final_reached id w) λ _ u. ask_first id (questions_for id u) u

  -- `scoreViva`
  abbrev record_viva_score : ℕ → GradingResult → M VivaScore
  record_viva_score id g w =
      (append_typed_event id ai
            (defence_message (scored_viva (next_turn id w - 1) (grading_level g)))
          >> return (record {
            overall_level = grading_level g;
            provisional = g.provisional;
            human_review_required = g.provisional || ports.always_reviewed;
          }))
        w

  -- The commits of the learner's repository, where there is one; an exception is not caught.
  abbrev pub commits_of : Option ℕ → M (List ℕ)
  commits_of none = return []
  commits_of (some repo) = take_or_throw (ports.list_commits repo)

  unfoldable pub grade_viva : ℕ → List ℕ → M VivaScore
  unfolding transcript next_turn
  grade_viva id commits w = elim (ports.grade_transcript (transcript id w) commits) [
    | none ↦ err fault w
    | some g ↦ record_viva_score id g w
  ]

  unfoldable pub score_viva : ℕ → M VivaScore
  unfolding grade_viva
  score_viva id w =
      if ports.has_rubric viva_rubric_id
      then bind (commits_of (resolve_repo_ref id w) w) (grade_viva id)
      else err fault w

  abbrev recorded : ℕ → Posted
  recorded turn = record { turn = turn; next_question = none; closed = false; score = none }

  -- A learner's turn while the viva runs: the next question, or its end.
  unfoldable pub advance : ℕ → ℕ → VivaState → M Posted
  unfolding emit_turn next_turn question_at
  advance id turn v w = elim (question_at v.asked v.questions) [
    | some q ↦
        (emit_turn id examiner_role (next_turn id w) q >> λ u.
        ok (record (recorded turn) { next_question = some q })
          (set_viva id (record v { asked = v.asked + 1 }) u))
          w
    | none ↦
        bind (score_viva id (set_viva id (record v { closed = true }) w))
          λ s. return (record { turn = turn; next_question = none; closed = true; score = some s })
  ]

  -- What follows once the message is in the transcript.
  abbrev pub answer : ℕ → DefenceRole → ℕ → M Posted
  answer id examiner_role turn w = ok (recorded turn) w
  answer id learner_role turn w = elim (lookup id w.vivas) [
    | none ↦ ok (recorded turn) w
    | some v ↦ if v.closed then ok (recorded turn) w else advance id turn v w
  ]

  abbrev post_text : ℕ → DefenceRole → ℕ → M Posted
  post_text id role text w =
      bind (assert_final_reached id w)
        λ _ u. (emit_turn id role (next_turn id u) text >> answer id role (next_turn id u)) u

  unfoldable pub post_message : ℕ → DefenceRole → Option ℕ → M Posted
  unfolding emit_turn next_turn assert_final_reached advance
  post_message id role none = throw (project_error empty_defence_message)
  post_message id role (some text) = post_text id role text
