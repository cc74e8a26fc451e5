-- ===== src/Lib.antt =====
-- LifeOS: an assistant that takes captures and messages, drafts actions from them, and changes the
-- owner's data only through an audited command bus, by itself or after a decision of the owner.
--
-- The parts, and the files that model them:
--   Prelude       native numbers and texts, JSON values, floats, regular expressions, and `Env`, what
--                 the program takes from outside
--   State         the rows of apps/api/lifeos_api/db/models.py that the modelled services use, the
--                 store, and actions on it that may raise; services/audit.py, services/status_events.py,
--                 packages/core/lifeos_core/ids.py and time.py
--   Policy        apps/api/lifeos_api/services/policy_engine.py: `decide_capture_action`, `tool_effect`
--   Orchestrator  apps/api/lifeos_api/services/orchestrator.py: `draft_from_capture` and its drafts
--   Bus           apps/api/lifeos_api/services/command_bus.py: `CommandBus.plan` and `CommandBus.apply`;
--                 Create and Update hold the branches of `_apply_payload`
--   Planner       apps/api/lifeos_api/services/conversation_action_planner.py: Dates, Patterns and
--                 Titles read a message; Local is `_deterministic_plan`'s plans, Deciding that function
--                 and the override, Enforcing `enforce_conversation_policy` and
--                 `plan_conversation_turn`, FollowUps `interpret_proposal_follow_up`, Revision
--                 `revise_proposal_draft`
--   Providers     packages/providers/lifeos_providers/router.py: Choices and Completing
--   Captures      apps/api/lifeos_api/routers/captures.py: Receiving, Settling and Creating are the
--                 parts of `create_capture`; services/agentic_router.py: Answers and Classifying;
--                 services/runtime_config.py: Settings
--   Proposals     apps/api/lifeos_api/services/conversation_action_service.py and
--                 routers/action_proposals.py: the proposals of a conversation and their decisions
--   Reviews       apps/api/lifeos_api/routers/reviews.py: `decide_review`
--   Tools         apps/api/lifeos_api/routers/tools.py: `create_tool_call`
--   Handoffs      apps/api/lifeos_api/routers/handoffs.py: `create_handoff`, `update_handoff_status`
--   Sessions      apps/api/lifeos_api/routers/sessions.py and schemas/session.py: Values are the
--                 requests and rows, Binding `_find_bound_session`, `_create_session_row` and
--                 `_resolve_session`, Changing and Reading the endpoints
--   Runtime       apps/api/lifeos_api/services/agent_runtime.py: Results is `_result`, Replies the
--                 texts, Executing the loops over proposals, Answering `_handle_proposal_follow_up`,
--                 Planning the tests on a message and the call of the provider, Identity `_model_identity_reply`,
--                 Conversing `_try_conversation_action_loop`, Finishing `_start_iteration` and
--                 `_finish_run`, Messages `run_agent_message` and the endpoints that call it
--   Jobs          apps/api/lifeos_api/routers/jobs.py and schemas/job.py
--   Memory        apps/api/lifeos_api/routers/memory.py
--   Examples      runs of the theorems on concrete values
-- A capture is drafted by the router and put before the policy; a draft that needs it becomes a
-- review, whose approval runs a command. A conversation is planned and leaves proposals, whose execution
-- runs a command too. All of them call `CommandBus.apply`. A message of a session is a run: the runtime
-- looks for a follow-up on the pending proposals, asks the planner and carries the plan out.
--
-- Stateful code is a function from the store to a result and a store, with `ok` and `raise`; what was
-- written before an exception stays in the store. A method on a row of the session takes the row and
-- puts it back under its id; a run and its session are passed as they are at that point. The store
-- keeps tables in the order of insertion; `session.get` is the
-- first row with the id.
--
-- Choices. Texts are native strings; the case of letters, digits and word characters are those of
-- ASCII. A float is a number of millionths, an infinity or nan: decimal literals of up to fifteen
-- digits compare as floats do. An instant is its microseconds, a day its proleptic ordinal. Ids are
-- made of the n-th random part and times are the n-th reading of the clock, both from `Env`, as are
-- the text forms of numbers and containers, the parsing of numbers and instants, `dict` of a list, time
-- zones and `isoformat`. The order in which the set of prayers is walked is an argument. Rows with
-- equal sort keys keep the order of insertion.
-- Fuel: a repetition in a regular expression and a replacement run on the length of the text that is
-- left; each round consumes a character, so it is enough. All else is structural recursion.
--
-- Not modelled: errors of the database at a flush or a commit, foreign keys, transactions that roll
-- back, values outside JSON in a payload, ints below zero in a payload, the year 9999. The vault's
-- files are a log of writes, each of which may fail as `Env` says. The listing endpoints that are left
-- out only read. Network requests,
-- `model_validate_json`, SHA-256, JSON texts and environment variables are arguments or fields of `Env`;
-- the completions that the capture router and the runtime get are arguments, so the messages that are sent
-- to the provider are left out. A provider's answer or a section of the configuration that is no dict
-- raises one exception whatever its type. `run_agent_message` is modelled up to the end of the
-- conversation loop, which returns a result for each of the five modes of a plan: what the function does
-- without one, from `_build_plan` on, is not reached. Of sessions with one time of update the query returns
-- the first. The rest of the tools and of the runtime configuration, runs, agents, settings and the
-- gateways, migrations, scripts, schemas and start-up code are left out.
pub mod Prelude
pub mod Policy
pub mod Orchestrator
pub mod State
pub mod Bus
pub mod Proposals
pub mod Reviews
pub mod Tools
pub mod Planner
pub mod Providers
pub mod Captures
pub mod Handoffs
pub mod Sessions
pub mod Runtime
pub mod Jobs
pub mod Memory
pub mod Examples
