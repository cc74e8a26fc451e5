-- ===== src/Runtime/Planning.antt =====
-- The tests on a message, a plan as a dict, and `_conversation_plan_json_with_provider`. The completion that
-- the provider router gives for the planning messages is a parameter.
use life_os_vnex.Prelude.{
  ℕ, suc, String, Bool, false, ◌||◌, Option, none, some, List, [], ◌∷◌, ◌++◌, if◌then◌else◌, ◌==◌,
  map, length,
}
use Prim.Native.Char.{code}
use life_os_vnex.Prelude.{eqb, leb, ◌&&◌}
use life_os_vnex.Prelude.Text.{◌⧺◌, lower, upper, strip, compact, has_any, member, take_text}
use life_os_vnex.Prelude.Json.{
  Json, Float, Fields, null, bool, str, obj, arr, nil, object, array, fields_of, text_or_null,
}
use life_os_vnex.Prelude.Env.{Env}
use life_os_vnex.Prelude.Regex.{full_match}
use life_os_vnex.State.{
  AgentRun, AgentSession, ProviderCallLog, Exception, Result, type_name, message_of, Action, pure,
  lift, modify, ◌>>=◌, ◌>>◌, new_id, utc_now, create_status_event,
}
use life_os_vnex.Planner.{ActionProposal, PlanMode, TurnPlan, FollowUpKind}
use life_os_vnex.Providers.{ProviderCompletion}
use life_os_vnex.Captures.{caught, provider_log, router_mode}
use life_os_vnex.Proposals.{Origin}
use life_os_vnex.Runtime.Replies.{test_re}
use life_os_vnex.Runtime.Finishing.{run_event}

-- `_is_model_identity_question`
unfoldable pub is_model_identity_question : String → Bool
is_model_identity_question message =
    has_any (compact (lower (strip message)))
      ("what model" ∷ "which model" ∷ "what provider" ∷ "which provider" ∷ "who are you using" ∷ [])

-- `action_markers`
abbrev pub action_markers : List String
action_markers =
    "create a task" ∷ "add a task" ∷ "make a task" ∷ "remind me" ∷ "set a reminder"
    ∷ "create a reminder" ∷ "mark " ∷ "complete " ∷ "finish " ∷ "i need to" ∷ "need to" ∷ "i should"
    ∷ "should " ∷ "i prefer" ∷ "remember that" ∷ "remember this" ∷ "every " ∷ "daily" ∷ "weekly"
    ∷ "monthly" ∷ "delete" ∷ "run docker" ∷ "terminal" ∷ "write file" ∷ "edit file" ∷ "provider"
    ∷ "api key" ∷ []

-- `_use_local_conversation_planner_first`
unfoldable pub use_local_planner_first : String → Bool
use_local_planner_first message =
    let low = compact (lower (strip message)) in
    low == ""
    || (full_match test_re low
        || (is_model_identity_question message || has_any low action_markers))

abbrev pub kind_text : FollowUpKind → String
kind_text FollowUpKind.no_action = "none"
kind_text FollowUpKind.approve = "approve"
kind_text FollowUpKind.reject = "reject"
kind_text FollowUpKind.revise = "revise"
kind_text FollowUpKind.ask = "ask"

abbrev pub mode_text : PlanMode → String
mode_text PlanMode.answer_only = "answer_only"
mode_text PlanMode.execute_now = "execute_now"
mode_text PlanMode.propose_inline = "propose_inline"
mode_text PlanMode.formal_review = "formal_review"
mode_text PlanMode.clarify = "clarify"

abbrev proposal_dict : ActionProposal → Json
proposal_dict p = object (
    ("type", str p.type)
    ∷ ("summary", str p.summary)
    ∷ ("confidence", Json.float p.confidence)
    ∷ ("risk", str p.risk)
    ∷ ("requires_confirmation", bool p.requires_confirmation)
    ∷ ("formal_review_required", bool p.formal_review_required)
    ∷ ("draft", obj p.draft)
    ∷ ("reason", text_or_null p.reason)
    ∷ [])

-- `plan.model_dump(mode="json")`
unfoldable pub plan_fields : TurnPlan → Fields
plan_fields plan = fields_of (
    ("mode", str (mode_text plan.mode))
    ∷ ("assistant_reply", str plan.assistant_reply)
    ∷ ("proposals", array (map proposal_dict plan.proposals))
    ∷ ("memory_candidates", array (map (λ d. obj d) plan.memory_candidates))
    ∷ ("clarifying_question", text_or_null plan.clarifying_question)
    ∷ ("status_events", array (map (λ e. str e) plan.status_events))
    ∷ [])

abbrev is_letter : ℕ → Bool
is_letter n = (leb 0x41 n && leb n 0x5a) || (leb 0x61 n && leb n 0x7a)

-- `s.replace("_", " ").title()`, from a place that follows a letter or not.
event_title : Bool → String → String
event_title after String.[] = ""
event_title after (String.◌∷◌ c s) =
    let rest = event_title (is_letter (code c)) s in
    if eqb (code c) b'_'
    then " " ⧺ rest
    else (if after then lower (String.◌∷◌ c "") else upper (String.◌∷◌ c "")) ⧺ rest

-- How many readings of the clock a planned turn may take: two for the message and one for each proposal.
abbrev pub readings : Option TurnPlan → ℕ
readings none = 3
readings (some plan) = suc (length plan.proposals)

abbrev pub questions : Option String → List String
questions none = []
questions (some q) = if q == "" then [] else q ∷ []

abbrev pub first_id : List String → Option String
first_id [] = none
first_id (id ∷ ids) = some id

abbrev event_visibility : String → String
event_visibility event =
    if member event ("planned_action" ∷ "waiting_for_confirmation" ∷ [])
    then "discord_compact"
    else "web_only"

-- The plan that stands for an unavailable provider in agentic mode.
abbrev retry_plan : Json
retry_plan = object (
    ("mode", str "clarify")
    ∷ (
      "assistant_reply",
      str "Provider planning is required but unavailable. Check provider settings.",
    )
    ∷ ("proposals", arr nil)
    ∷ ("memory_candidates", arr nil)
    ∷ ("clarifying_question", str "Should I retry after provider settings are fixed?")
    ∷ ("status_events", array (str "understanding_request" ∷ []))
    ∷ [])

-- The row of a provider call that failed.
abbrev pub unavailable_log : String → String → String → Exception → ℕ → ProviderCallLog
unavailable_log id run model e now = record {
  id = id;
  run_id = some run;
  agent_id = some "orchestrator";
  provider_id = "unavailable";
  model = model;
  key_label = null;
  status = "failed";
  latency_ms = 0;
  input_tokens = Json.int 0;
  output_tokens = Json.int 0;
  cost_usd = Float.num 0;
  error_json = some (
      fields_of
        (("type", str (type_name e)) ∷ ("message", str (take_text 1000 (message_of e))) ∷ []));
  created_at = now;
}

abbrev pub log_call : ProviderCallLog → Action Unit
log_call row = modify (λ s. record s { provider_calls = s.provider_calls ++ row ∷ [] })

abbrev pub session_origin : AgentSession → Origin
session_origin r = record { id = r.id; agent = some r.agent_id }

abbrev pub run_origin : AgentRun → Origin
run_origin run = record { id = run.id; agent = run.active_agent_id }

module _ (env : Env) (timezone : String) where
  -- An event for each name of the plan.
  unfoldable pub announce : String → String → List String → Action Unit
  unfolding event_title
  announce run mode [] = pure tt
  announce run mode (e ∷ es) = do
    create_status_event env (
        run_event run ("conversation." ⧺ e) (event_title false e) (event_visibility e)
          (fields_of (("mode", str mode) ∷ [])))
    announce run mode es

  module _ (default_mode : String) (complete : Result ProviderCompletion) where
    -- The answer of the provider.
    unfoldable pub conversation_answer : String → String → Action (Option String)
    conversation_answer run log_id = do
      c ← lift complete
      now ← utc_now env
      log_call (provider_log env log_id run "orchestrator" c now)
      create_status_event env (
          run_event run "provider.call_finished" "Conversation planner provider finished" "web_only"
            (fields_of (
              ("provider_call_log_id", str log_id)
              ∷ ("provider", str c.provider)
              ∷ ("model", str c.model)
              ∷ [])))
      pure (some c.content)

    unfoldable pub conversation_failure :
        String → String → String → Exception → Action (Option String)
    conversation_failure run mode log_id e = do
      now ← utc_now env
      log_call (unavailable_log log_id run "conversation-action-planner" e now)
      create_status_event env (
          run_event run "provider.fallback_used" "Conversation planner provider unavailable"
            "discord_compact"
            (fields_of (("error", str (take_text 500 (message_of e))) ∷ ("mode", str mode) ∷ [])))
      pure (if mode == "agentic" then some (env.dumps retry_plan) else none)

    unfoldable pub ask_provider : String → String → Action (Option String)
    ask_provider run mode = do
      log_id ← new_id env "pcall"
      create_status_event env (
          run_event run "provider.call_started" "Conversation planner provider started" "web_only" (
            fields_of (
              ("agent_id", str "orchestrator") ∷ ("planner", str "conversation_action_loop") ∷ [])))
      caught (conversation_answer run log_id) (conversation_failure run mode log_id)

    -- `_conversation_plan_json_with_provider`
    unfoldable pub conversation_plan_json : String → Action (Option String)
    conversation_plan_json run = do
      mode ← router_mode env default_mode
      if mode == "deterministic" then pure none else ask_provider run mode

    abbrev pub plan_json : String → String → Action (Option String)
    plan_json run message =
        if use_local_planner_first message then pure none else conversation_plan_json run
