-- ===== src/Runtime/Messages.antt =====
-- `run_agent_message`, and the endpoints `post_message` and `chat` that call it. The conversation loop
-- returns a result for each of the five modes, so what `run_agent_message` does without one, from
-- `_build_plan` on, is not reached.
use life_os_vnex.Prelude.{ℕ, String, true, false, Option, none, some, [], ◌∷◌, ◌++◌}
use life_os_vnex.Prelude.{if◌then◌else◌, leb}
use life_os_vnex.Prelude.Json.{Float, str, int, end, fields_of}
use life_os_vnex.Prelude.Env.{Env}
use life_os_vnex.State.{
  AgentRun, AgentSession, Message, Result, Action, pure, modify, ◌>>=◌, ◌>>◌, new_id, utc_now,
  create_status_event, find_row, update_row,
}
use life_os_vnex.Planner.{TurnPlan}
use life_os_vnex.Providers.{ProviderCompletion}
use life_os_vnex.Proposals.{message_key, text_or}
use life_os_vnex.Sessions.{SessionMessageCreate, SessionResolve, ChatCreate, session_key, resolve}
use life_os_vnex.Runtime.Finishing.{
  RunReply, run_event, start_iteration, finish_run, finish_max_iterations,
}
use life_os_vnex.Runtime.Conversing.{conversation_turn}

abbrev pub user_message : String → SessionMessageCreate → ℕ → String → Message
user_message session q now id = record {
  id = id;
  session_id = some session;
  run_id = none;
  role = "user";
  content_md = some q.message;
  content_json = none;
  source_platform = some q.source_platform;
  source_external_channel_id = q.external_channel_id;
  source_external_thread_id = q.external_thread_id;
  source_external_message_id = q.external_message_id;
  metadata_json = q.metadata;
  created_at = now;
}

-- `agent_session.iteration_cap or 5`
abbrev pub cap_or_five : ℕ → ℕ
cap_or_five cap = if leb 1 cap then cap else 5

abbrev pub new_run : AgentSession → Option String → ℕ → String → String → AgentRun
new_run r user now id trace = record {
  id = id;
  session_id = some r.id;
  root_capture_id = none;
  initiating_user_id = user;
  orchestrator_agent_id = "orchestrator";
  active_agent_id = some (text_or (some r.agent_id) "orchestrator");
  status = "running";
  status_summary = some "Message received";
  provider_used = none;
  model_used = none;
  cost_usd = Float.num 0;
  token_usage_json = fields_of (("input_tokens", int 0) ∷ ("output_tokens", int 0) ∷ []);
  trace_id = some trace;
  iteration_cap = cap_or_five r.iteration_cap;
  current_iteration = 0;
  cancel_requested = false;
  cancelled_at = none;
  result_json = end;
  finished_at = none;
  created_at = now;
  updated_at = now;
}

abbrev pub with_run : String → Message → Message
with_run run m = record m { run_id = some run }

-- The binding that a chat message is resolved by.
abbrev pub chat_binding : ChatCreate → SessionResolve
chat_binding q = record {
  source_platform = q.message.source_platform;
  external_channel_id = q.message.external_channel_id;
  external_thread_id = q.message.external_thread_id;
  create_if_missing = true;
  agent_id = text_or q.agent_id "orchestrator";
  title = q.title;
  iteration_cap = q.iteration_cap;
  visibility = q.visibility;
  user_id = q.message.user_id;
  metadata = q.message.metadata;
}

module _ (env : Env) where
  -- The rows of the message and of its run, and their events.
  unfoldable pub receive_message : AgentSession → SessionMessageCreate → Action (Message × AgentRun)
  receive_message r q = do
    now ← utc_now env
    message_id ← new_id env "msg"
    modify (λ s. record s { messages = s.messages ++ user_message r.id q now message_id ∷ [] })
    run_id ← new_id env "run"
    trace_id ← new_id env "trace"
    let run = new_run r q.user_id now run_id trace_id
    modify (λ s. record s {
      runs = s.runs ++ run ∷ [];
      messages = update_row message_key message_id (with_run run_id) s.messages;
    })
    create_status_event env (
        run_event run_id "run.created" "Run created" "web_only"
          (fields_of (("session_id", str r.id) ∷ ("iteration_cap", int run.iteration_cap) ∷ [])))
    create_status_event env (
        run_event run_id "message.received" "Received message" "discord_compact" (
          fields_of
            (("message_id", str message_id) ∷ ("source_platform", str q.source_platform) ∷ [])))
    pure (with_run run_id (user_message r.id q now message_id), run)

  module _ (timezone default_mode : String) (complete : Result ProviderCompletion)
      (parse : String → Option TurnPlan) where
    -- What follows the attempt to start the first iteration.
    unfoldable pub answer_message :
        AgentSession → SessionMessageCreate → Message → AgentRun → Option AgentRun → Action RunReply
    answer_message r q m run none = finish_max_iterations env run r.id m.id
    answer_message r q m run (some started) = do
      result ←
          conversation_turn env timezone started r m default_mode complete parse q.source_platform
            q.message
      finish_run env started r.id m.id result

    -- `run_agent_message`
    unfoldable pub run_message : AgentSession → SessionMessageCreate → Action RunReply
    run_message r q = do
      received ← receive_message r q
      started ← start_iteration env received.1 "Understand request"
      answer_message r q received.0 received.1 started

    -- `run_agent_message` in the session that was looked for; `none` is not_found.
    unfoldable pub run_in : Option AgentSession → SessionMessageCreate → Action (Option RunReply)
    run_in none q = pure none
    run_in (some r) q = do reply ← run_message r q; pure (some reply)

    -- `post_message`
    unfoldable pub post_message : String → SessionMessageCreate → Action (Option RunReply)
    post_message id q s = run_in (find_row session_key id s.sessions) q s

    -- `chat`
    unfoldable pub chat : ChatCreate → Action (Option RunReply)
    chat q = do found ← resolve env (chat_binding q); run_in found q.message
