-- ===== src/Lib.antt =====
-- Skillfyme Hands-On: the learning platform's backend, practice-core, in the parts that decide what
-- happens to a learner's attempt at a lab.
--
-- The backend is a set of services over one database. A learner's request creates an attempt, if the
-- eligibility check finds no reason against it; starting the lab asks the orchestrator, a separate
-- service, for an environment; work is checked and submitted by running the activity's validators in
-- that environment; a submission is evaluated, which ends the attempt and may start a cooldown. What
-- happens is appended to an event log, from which the state of each task is rebuilt. The mentor, an AI
-- that answers learners, is bounded by a disclosure policy, and its calls by a budget.
--
-- Files, with the code each models (paths below practice-core/src):
--   Base             names of the libraries passed on, lists and tables
--   Common           Status: common/attempt-status-groups.ts; Mode: ActivityMode of db/schema.ts;
--                    Number: the arithmetic that scoring and mastery are over
--   Store            Rows: the tables of db/schema.ts; Monad: a step that changes the world and ends
--                    with a result or an error, with common/find-or-throw.ts and
--                    modules/attempt/attempt-error.ts; Repository: modules/attempt/attempt.repository.ts
--   EventStore       Events: modules/event-store/attempt-event-type.ts; Log: event-store.repository.ts;
--                    Replay: replay.service.ts
--   Evaluation       modules/evaluation: ValidatorRunner is validator-runner.service.ts, Cooldown is
--                    cooldown.ts, Service is evaluation.service.ts over any scoring; Scoring is that
--                    scoring: Profile is scoring-profile.ts, Criteria and Ordering are criteria.ts,
--                    Engine, Bounds and Penalties are scoring-engine.service.ts, and Verdict is the
--                    evaluation with the engine
--   Attempt          modules/attempt: Eligibility is eligibility.service.ts; Service.Handlers and
--                    Service.Operations are attempt.service.ts, the start of a lab of
--                    attempt.controller.ts and cache-sweep.service.ts; Service.Repeats, Provisioned,
--                    Submitted and Quota are about how its operations end; Lifecycle is about the state
--                    machine that all of them keep to, and about histories of calls; Hints is
--                    hint.service.ts with common/activity-spec-reader.ts; Signals is
--                    command-executed.consumer.ts over common/nats-subscriber-base.ts
--   Mentor           modules/mentor: Disclosure is disclosure-policy.ts; Service is mentor.service.ts with
--                    intent-classifier.ts
--   Project          modules/project: Repository is project.repository.ts; Ports is what the project mode
--                    asks of graders, of Forgejo and of the orchestrator, with the part of git.service.ts
--                    that records a submission; Scoring is project-scoring.ts; Defence is
--                    defence.service.ts; Service is project.service.ts (Specs, Gates and Operations are
--                    the code, the others are about it); Progress is the sequence of milestones that
--                    the service is to keep, with what the repository's updates do to it
--   Auth             modules/auth: role.ts, auth.guard.ts and roles.guard.ts, with
--                    modules/attempt/attempt-ownership.ts and attempt-ownership.guard.ts; Access: the
--                    requests of modules/attempt/attempt.controller.ts behind these guards
--   Skill            modules/skill: Bkt is bkt.service.ts, Elo is elo.service.ts, Review is
--                    spaced-repetition.ts, Mastery is mastery.service.ts with the loop of
--                    evaluation.service.ts that calls it; Explained is about its tables
--   Recommendation   modules/recommendation/recommendation.service.ts; Ranked and Strongest are about it
--   LlmGateway       Router: modules/llm-gateway/router.ts and types.ts; Budget: budget-ledger.ts;
--                    PromptCache: prompt-cache.ts; Service: llm-gateway.service.ts
--
-- The state is the record World: the clock, the tables as lists of rows (attempts and events newest
-- first) and the calls that have left for the orchestrator. Ids and texts that are only compared, and
-- times in milliseconds, are natural numbers; scores and penalties are counted in ten-thousandths, and
-- costs in whole units of the ledger. A quotient of a project's scores is an exact fraction,
-- rounded where the code rounds; the numbers of the scoring engine and of mastery are any type with
-- the operations and the laws of Common.Number, which hold of rounded arithmetic. An operation is a function of the world that ends with a value
-- or an error and, in either case, leaves the changes made so far, as the code does, which opens no
-- transaction. A request runs alone, except that a provisioning takes as its argument what the rest of
-- the system does while it waits for the orchestrator.
--
-- Parameters of the model: the orchestrator's answers, the validators' executor with the outcome of
-- each of its three tries, what an evaluation reads beside the attempt and its tasks' summaries, what
-- a numeric column keeps of a number, and the mastery gate of a skill; for projects the graders' levels, the repository's head commit and its commits, the questions of a defence
-- and what the database's driver hands over for a numeric column. An answer of none stands for a call
-- that throws; for a request the verification of its token, what the environment says to a file that is written
-- and the activity to an artifact, and whose message a reply of the mentor logs; for the LLM gateway the redactor, SHA-256
-- and the providers' answers; for the mentor the regular expressions, the rendered prompt and the
-- output guardrail. The writes to the skill tables within an evaluation, and for the mentor the
-- reading of the environment's state and the writes to the log, are taken to succeed. A grading has at least one criterion, as every rubric does.
--
-- Recursion is on lists and, for the three tries of a validator, on the number of tries left, which
-- starts at three as in the code. The list of a project's milestones, which seeds a project and then
-- starts again, is on fuel; its callers give it two, and Project.Service.Listing shows that two and
-- more give the same result.
--
-- Not modelled: the grading of artifacts by the AI, which changes neither verdict nor score; the payload fields that nothing reads back; the breakdown of a
-- project's score and its evidence per skill; the enrolment of a learner at Forgejo; the other modules
-- of practice-core; the web client, the orchestrator and the content.
pub mod Base
pub mod Common
pub mod Mentor
pub mod LlmGateway
pub mod EventStore
pub mod Store
pub mod Evaluation
pub mod Attempt
pub mod Project
pub mod Auth
pub mod Skill
pub mod Recommendation
