-- ===== src/Examples/RuntimeRuns.antt =====
-- Runs of the turns of a session.
use life_os_vnex.Prelude.{String, Option, some, none, [], ◌∷◌}
use life_os_vnex.Prelude.Json.{end, str, object, fields_of}
use life_os_vnex.State.{
  Store, AgentSession, AgentRun, Message, PendingActionProposal, Exception, Result, raise,
}
use life_os_vnex.Planner.{TurnPlan}
use life_os_vnex.Providers.{ProviderCompletion}
use life_os_vnex.Sessions.{SessionCreate, SessionMessageCreate, session_row}
use life_os_vnex.Runtime.{new_run, user_message, conversation_turn}
use life_os_vnex.Runtime.Permitted.{IsSafe, conversation-IsSafe}
use life_os_vnex.Sessions.Bounds.{Capped}
use life_os_vnex.Sessions.Caps.{limit, cancel}
use life_os_vnex.Runtime.Capped.{Call, manage, post, talk, after_calls, after_calls-Capped}
use life_os_vnex.Sessions.{ChatCreate}
use life_os_vnex.Prelude.{List, All, arith}
use life_os_vnex.Examples.{sample_env, empty_store}

abbrev chat_session : SessionCreate
chat_session = record {
  agent_id = "orchestrator";
  title = none;
  iteration_cap = some 3;
  visibility = "private";
  source_platform = some "web";
  external_channel_id = some "c1";
  external_thread_id = none;
  external_message_id = none;
  user_id = none;
  memory_scope = end;
  metadata = end;
}

abbrev session : AgentSession
session = session_row chat_session 3 0 "sess_a0"

abbrev question : SessionMessageCreate
question = record {
  message = "What model are you using?";
  source_platform = "web";
  external_channel_id = some "c1";
  external_thread_id = none;
  external_message_id = none;
  user_id = none;
  metadata = end;
}

abbrev chat_store : Store
chat_store = record empty_store { sessions = session ∷ [] }

abbrev offline : Result ProviderCompletion
offline = raise (Exception.runtime_error "No provider available")

abbrev no_plan : String → Option TurnPlan
no_plan json = none

abbrev run : AgentRun
run = new_run session none 0 "run_a1" "trace_a2"

abbrev message : Message
message = user_message "sess_a0" question 0 "msg_a0"

conversation-IsSafe_example :
    IsSafe sample_env "UTC" run session message "hybrid" offline no_plan "add a task to pay rent"
      chat_store chat_store
      (conversation_turn sample_env "UTC" run session message "hybrid" offline no_plan "web"
        "add a task to pay rent" chat_store).1
conversation-IsSafe_example =
    conversation-IsSafe sample_env "UTC" run session message "hybrid" offline no_plan
      "add a task to pay rent" "web" chat_store

abbrev task_row : PendingActionProposal
task_row = record {
  id = "aprop_1";
  session_id = some "sess_a0";
  source_message_id = none;
  source = "web";
  agent_name = "orchestrator";
  proposal_type = "task.create";
  summary = "Create task: Pay rent";
  draft_json = fields_of (
      (
        "command",
        object (
            ("command_type", str "life_item.create")
            ∷ ("payload", object (("title", str "Pay rent") ∷ []))
            ∷ []),
      )
      ∷ []);
  risk_level = "low";
  status = "pending";
  created_at = 0;
  expires_at = none;
  last_revised_at = none;
  executed_command_id = none;
  review_item_id = none;
}

abbrev proposal_store : Store
proposal_store = record chat_store { proposals = task_row ∷ [] }

abbrev chat_request : ChatCreate
chat_request = record {
  message = question;
  agent_id = none;
  title = none;
  iteration_cap = some 9;
  visibility = "private";
}

-- A session is limited, gets a message, is chatted with and cancelled.
abbrev calls : List Call
calls =
    manage (limit "sess_a0" 50)
    ∷ post offline no_plan "sess_a0" question
    ∷ talk offline no_plan chat_request
    ∷ manage (cancel "sess_a0")
    ∷ []

after_calls-Capped_example :
    All Capped (after_calls sample_env "UTC" "hybrid" calls chat_store).sessions
after_calls-Capped_example =
    after_calls-Capped sample_env "UTC" "hybrid" calls chat_store
      ((omega arith, omega arith), (tt, ((omega arith, omega arith), (tt, tt))))
      ((omega arith, omega arith), tt)
