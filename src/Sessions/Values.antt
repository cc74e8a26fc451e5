-- ===== src/Sessions/Values.antt =====
-- The agents, the requests of the session endpoints, and the rows as they are returned and audited.
use life_os_vnex.Prelude.{ℕ, String, Bool, Option, none, some, List, [], ◌∷◌}
use life_os_vnex.Prelude.Json.{Json, Fields, null, str, obj, int, end, object, text_or_null}
use life_os_vnex.Prelude.Env.{Env}
use life_os_vnex.State.{AgentSession, AgentRun, Message, AuditEvent}

-- `AGENTS`
abbrev pub agents : List String
agents =
    "orchestrator" ∷ "capture-router" ∷ "approval-manager" ∷ "memory-curator" ∷ "daily-planner"
    ∷ "work.generic" ∷ "finance" ∷ "health-fitness" ∷ "deen-prayer" ∷ "family-commitments"
    ∷ "research" ∷ "systems-devops" ∷ []

-- `SessionCreate`
pub record SessionCreate : Type 0 where
  pub agent_id : String
  pub title : Option String
  pub iteration_cap : Option ℕ
  pub visibility : String
  pub source_platform : Option String
  pub external_channel_id : Option String
  pub external_thread_id : Option String
  pub external_message_id : Option String
  pub user_id : Option String
  pub memory_scope : Fields
  pub metadata : Fields

-- `SessionResolve`
pub record SessionResolve : Type 0 where
  pub source_platform : String
  pub external_channel_id : Option String
  pub external_thread_id : Option String
  pub create_if_missing : Bool
  pub agent_id : String
  pub title : Option String
  pub iteration_cap : Option ℕ
  pub visibility : String
  pub user_id : Option String
  pub metadata : Fields

-- `SessionMessageCreate`
pub record SessionMessageCreate : Type 0 where
  pub message : String
  pub source_platform : String
  pub external_channel_id : Option String
  pub external_thread_id : Option String
  pub external_message_id : Option String
  pub user_id : Option String
  pub metadata : Fields

-- `ChatCreate`
pub record ChatCreate : Type 0 where
  pub message : SessionMessageCreate
  pub agent_id : Option String
  pub title : Option String
  pub iteration_cap : Option ℕ
  pub visibility : String

abbrev pub session_key : AgentSession → String
session_key r = r.id

abbrev pub session_audit :
    String → String → String → String → Option Json → Option Json → String → ℕ → AuditEvent
session_audit actor event session summary before after id now = record {
  id = id;
  actor_type = "user";
  actor_id = actor;
  event_type = event;
  entity_type = "agent_session";
  entity_id = session;
  summary = summary;
  before_json = before;
  after_json = after;
  metadata_json = end;
  trace_id = none;
  created_at = now;
}

module _ (env : Env) where
  abbrev pub iso_or_null : Option ℕ → Json
  iso_or_null none = null
  iso_or_null (some t) = str (env.iso t)

  abbrev fields_or_null : Option Fields → Json
  fields_or_null none = null
  fields_or_null (some d) = obj d

  -- `row_to_dict(row, SESSION_FIELDS)`
  unfoldable pub session_dict : AgentSession → Json
  session_dict r = object (
      ("id", str r.id)
      ∷ ("agent_id", str r.agent_id)
      ∷ ("user_id", text_or_null r.user_id)
      ∷ ("channel_id", text_or_null r.channel_id)
      ∷ ("title", text_or_null r.title)
      ∷ ("status", str r.status)
      ∷ ("memory_scope", obj r.memory_scope)
      ∷ ("iteration_cap", int r.iteration_cap)
      ∷ ("visibility", str r.visibility)
      ∷ ("source_platform", text_or_null r.source_platform)
      ∷ ("external_channel_id", text_or_null r.external_channel_id)
      ∷ ("external_thread_id", text_or_null r.external_thread_id)
      ∷ ("external_message_id", text_or_null r.external_message_id)
      ∷ ("last_run_id", text_or_null r.last_run_id)
      ∷ ("last_user_correction_id", text_or_null r.last_user_correction_id)
      ∷ ("paused_run_id", text_or_null r.paused_run_id)
      ∷ ("metadata_json", obj r.metadata_json)
      ∷ ("created_at", str (env.iso r.created_at))
      ∷ ("updated_at", str (env.iso r.updated_at))
      ∷ [])

  -- `row_to_dict(message, MESSAGE_FIELDS)`
  unfoldable pub message_dict : Message → Json
  message_dict m = object (
      ("id", str m.id)
      ∷ ("session_id", text_or_null m.session_id)
      ∷ ("run_id", text_or_null m.run_id)
      ∷ ("role", str m.role)
      ∷ ("content_md", text_or_null m.content_md)
      ∷ ("content_json", fields_or_null m.content_json)
      ∷ ("source_platform", text_or_null m.source_platform)
      ∷ ("source_external_channel_id", text_or_null m.source_external_channel_id)
      ∷ ("source_external_thread_id", text_or_null m.source_external_thread_id)
      ∷ ("source_external_message_id", text_or_null m.source_external_message_id)
      ∷ ("metadata_json", obj m.metadata_json)
      ∷ ("created_at", str (env.iso m.created_at))
      ∷ [])

  -- The fields of a run that `get_session` returns.
  unfoldable pub run_dict : AgentRun → Json
  run_dict r = object (
      ("id", str r.id)
      ∷ ("active_agent_id", text_or_null r.active_agent_id)
      ∷ ("status", str r.status)
      ∷ ("status_summary", text_or_null r.status_summary)
      ∷ ("iteration_cap", int r.iteration_cap)
      ∷ ("current_iteration", int r.current_iteration)
      ∷ ("result_json", obj r.result_json)
      ∷ ("created_at", str (env.iso r.created_at))
      ∷ ("updated_at", str (env.iso r.updated_at))
      ∷ ("finished_at", iso_or_null r.finished_at)
      ∷ [])
