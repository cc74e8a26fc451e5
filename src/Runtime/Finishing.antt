-- ===== src/Runtime/Finishing.antt =====
-- `_start_iteration`, `_finish_max_iterations` and `_finish_run`: how a run moves on and how it ends. The
-- run and the session are the objects of the turn, of which each function gets the present value.
use life_os_vnex.Prelude.{
  ℕ, suc, String, Option, none, some, List, [], ◌∷◌, ◌++◌, if◌then◌else◌, ◌==◌, leb,
}
use life_os_vnex.Prelude.Text.{◌⧺◌, member}
use life_os_vnex.Prelude.Json.{Fields, str, int, obj, end, object, fields_of, or_json}
use life_os_vnex.Prelude.Env.{Env, text_of}
use life_os_vnex.State.{
  AgentRun, AgentSession, Message, AuditEvent, StatusEventRow, Action, pure, modify, ◌>>=◌, ◌>>◌,
  new_id, utc_now, create_audit_event, create_status_event, update_row,
}
use life_os_vnex.Captures.{run_key}
use life_os_vnex.Proposals.{text_or}
use life_os_vnex.Sessions.{session_key}
use life_os_vnex.Runtime.Results.{RunResult, plain, result_fields, run_status}

abbrev pub run_event : String → String → String → String → Fields → String → ℕ → StatusEventRow
run_event run type title visibility detail id now = record {
  id = id;
  run_id = some run;
  event_type = type;
  visibility = visibility;
  title = title;
  detail_json = detail;
  created_at = now;
}

-- Assignments to the objects of the turn.
abbrev pub set_run : String → (AgentRun → AgentRun) → Action Unit
set_run id f = modify (λ s. record s { runs = update_row run_key id f s.runs })

abbrev pub set_session : String → (AgentSession → AgentSession) → Action Unit
set_session id f = modify (λ s. record s { sessions = update_row session_key id f s.sessions })

abbrev pub iterated : AgentRun → AgentRun
iterated run = record run { current_iteration = suc run.current_iteration }

-- The statuses that leave a run open.
abbrev pub open_ends : List String
open_ends = "needs_clarification" ∷ "waiting_approval" ∷ []

abbrev pub finished_run : String → RunResult → ℕ → AgentRun → AgentRun
finished_run status result now run = record run {
  status = status;
  status_summary =
      some (if result.status_summary == "" then result.status else result.status_summary);
  result_json = result_fields result;
  finished_at = if member status open_ends then none else some now;
  updated_at = now;
}

abbrev pub finished_session : String → String → ℕ → AgentSession → AgentSession
finished_session status run now r = record r {
  last_run_id = some run;
  updated_at = now;
  paused_run_id = if status == "needs_clarification" then r.paused_run_id else none;
}

abbrev pub assistant_message : Env → String → String → RunResult → ℕ → String → Message
assistant_message env session run result now id = record {
  id = id;
  session_id = some session;
  run_id = some run;
  role = "assistant";
  content_md = some (text_of env (or_json result.final_message_md (str "")));
  content_json = some (result_fields result);
  source_platform = some "lifeos";
  source_external_channel_id = none;
  source_external_thread_id = none;
  source_external_message_id = none;
  metadata_json = end;
  created_at = now;
}

-- `run.completed`, or `run.failed` and `run.max_iterations`.
abbrev ending_event : String → String
ending_event status =
    if member status ("failed" ∷ "max_iterations" ∷ []) then "run." ⧺ status else "run.completed"

abbrev processed_audit : AgentRun → String → String → RunResult → String → String → ℕ → AuditEvent
processed_audit run session message result summary id now = record {
  id = id;
  actor_type = "agent";
  actor_id = text_or run.active_agent_id "orchestrator";
  event_type = "agent_session.message_processed";
  entity_type = "agent_run";
  entity_id = run.id;
  summary = text_or (some summary) "Agent run completed";
  before_json = none;
  after_json = some (
      object (
        ("session_id", str session)
        ∷ ("user_message_id", str message)
        ∷ ("result", obj (result_fields result))
        ∷ []));
  metadata_json = end;
  trace_id = run.trace_id;
  created_at = now;
}

-- What the endpoint returns.
pub record RunReply : Type 0 where
  pub session_id : String
  pub run_id : String
  pub message_id : String
  pub agent_id : Option String
  pub status : String
  pub result : RunResult

module _ (env : Env) where
  -- `_start_iteration`; `none` is False.
  unfoldable pub start_iteration : AgentRun → String → Action (Option AgentRun)
  start_iteration run title s =
      if leb run.iteration_cap run.current_iteration
      then (pure none s)
      else (do
        set_run run.id (λ _. iterated run)
        create_status_event env (
            run_event run.id "agent.iteration_started" title "discord_compact" (
              fields_of (
                ("iteration", int (suc run.current_iteration))
                ∷ ("iteration_cap", int run.iteration_cap)
                ∷ [])))
        pure (some (iterated run)))
          s

  -- `_finish_run` with the status that it sets.
  unfoldable pub finish_in : String → AgentRun → String → String → RunResult → Action RunReply
  finish_in status run session message result = do
    now ← utc_now env
    let ended = finished_run status result now run
    let summary = text_or ended.status_summary ""
    set_run run.id (λ _. ended)
    set_session session (finished_session status run.id now)
    id ← new_id env "msg"
    modify (λ s. record s {
      messages = s.messages ++ assistant_message env session run.id result now id ∷ [];
    })
    create_status_event env (
        run_event run.id (ending_event status) (text_or (some summary) "Run completed")
          "discord_compact"
          (fields_of (("status", str status) ∷ ("assistant_message_id", str id) ∷ [])))
    create_audit_event env (processed_audit run session message result summary)
    pure (record {
      session_id = session;
      run_id = run.id;
      message_id = id;
      agent_id = run.active_agent_id;
      status = status;
      result = result;
    })

  -- `_finish_run` without a terminal status.
  unfoldable pub finish_run : AgentRun → String → String → RunResult → Action RunReply
  finish_run run session message result =
      finish_in (run_status result.status) run session message result

  abbrev stopped_text : ℕ → String
  stopped_text cap =
      "I reached the "
      ⧺ text_of env (int cap)
      ⧺ "-iteration cap.\n\nWhat I completed:\n- Received and recorded your message.\n\nWhat is incomplete:\n- I did not finish the action. Reply `continue` or raise `/lifeos iterations`."

  -- `_finish_max_iterations`
  unfoldable pub finish_max_iterations : AgentRun → String → String → Action RunReply
  finish_max_iterations run session message = do
    create_status_event env (
        run_event run.id "run.max_iterations_reached" "Max iterations reached" "discord_compact"
          (fields_of (("iteration_cap", int run.iteration_cap) ∷ [])))
    finish_in "max_iterations" run session message (
        plain "max_iterations" (stopped_text run.iteration_cap)
          "- Recorded the message.\n- Stopped at iteration cap." "Max iterations reached")
