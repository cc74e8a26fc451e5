-- ===== src/State/Runtime.antt =====
-- The tables of captures, sessions, runs, handoffs, notifications, provider calls, users and memory
-- candidates, and the columns that are read of the agents and the settings.
use life_os_vnex.Prelude.{ℕ, String, Bool, Option, List}
use life_os_vnex.Prelude.Json.{Json, Float, Fields}

pub record RawCapture : Type 0 where
  pub id : String
  pub source_platform : String
  pub source_channel_id : Option String
  pub source_external_message_id : Option String
  pub source_thread_id : Option String
  pub source_user_id : Option String
  pub capture_kind : String
  pub raw_text : Option String
  pub raw_uri : String
  pub content_hash : String
  pub status : String
  pub sensitivity : String
  pub received_at : ℕ
  pub created_at : ℕ
  pub updated_at : ℕ

pub record CaptureInterpretation : Type 0 where
  pub id : String
  pub capture_id : String
  pub agent_id : String
  pub intent_labels : List String
  pub draft_json : Fields
  pub confidence : Float
  pub missing_context : List Json
  pub risk_level : String
  pub status : String
  pub created_at : ℕ

pub record AgentRun : Type 0 where
  pub id : String
  pub session_id : Option String
  pub root_capture_id : Option String
  pub initiating_user_id : Option String
  pub orchestrator_agent_id : String
  pub active_agent_id : Option String
  pub status : String
  pub status_summary : Option String
  pub provider_used : Option String
  pub model_used : Option String
  pub cost_usd : Float
  pub token_usage_json : Fields
  pub trace_id : Option String
  pub iteration_cap : ℕ
  pub current_iteration : ℕ
  pub cancel_requested : Bool
  pub cancelled_at : Option ℕ
  pub result_json : Fields
  pub finished_at : Option ℕ
  pub created_at : ℕ
  pub updated_at : ℕ

pub record Handoff : Type 0 where
  pub id : String
  pub parent_run_id : Option String
  pub from_agent_id : String
  pub to_agent_id : String
  pub reason : String
  pub task_md : String
  pub known_context : List Json
  pub context_refs : List Json
  pub constraints : List Json
  pub expected_output_schema : Option Fields
  pub result_json : Fields
  pub summary_md : Option String
  pub risk_level : String
  pub status : String
  pub visibility : String
  pub requires_user_visibility : Bool
  pub discord_summary_posted : Bool
  pub completed_at : Option ℕ
  pub created_at : ℕ
  pub updated_at : ℕ

pub record Notification : Type 0 where
  pub id : String
  pub target_platform : String
  pub target_channel_id : Option String
  pub notification_type : String
  pub title : String
  pub body_md : String
  pub status : String
  pub related_run_id : Option String
  pub related_review_item_id : Option String
  pub external_message_id : Option String
  pub error_json : Option Fields
  pub created_at : ℕ
  pub sent_at : Option ℕ

pub record ProviderCallLog : Type 0 where
  pub id : String
  pub run_id : Option String
  pub agent_id : Option String
  pub provider_id : String
  pub model : String
  pub key_label : Json
  pub status : String
  pub latency_ms : ℕ
  pub input_tokens : Json
  pub output_tokens : Json
  pub cost_usd : Float
  pub error_json : Option Fields
  pub created_at : ℕ

pub record AgentRow : Type 0 where
  pub id : String
  pub autonomy_level : Option String

pub record AgentModelConfig : Type 0 where
  pub agent_id : String
  pub primary_provider_id : Option String
  pub primary_model : Option String
  pub secondary_provider_id : Option String
  pub secondary_model : Option String
  pub fallback_allowed : Bool
  pub settings_json : Fields

pub record SystemSetting : Type 0 where
  pub key : String
  pub value_json : Fields

pub record User : Type 0 where
  pub id : String
  pub display_name : String
  pub timezone : String
  pub locale : Option String
  pub role : String
  pub created_at : ℕ
  pub updated_at : ℕ

pub record AgentSession : Type 0 where
  pub id : String
  pub agent_id : String
  pub user_id : Option String
  pub channel_id : Option String
  pub title : Option String
  pub status : String
  pub memory_scope : Fields
  pub iteration_cap : ℕ
  pub visibility : String
  pub source_platform : Option String
  pub external_channel_id : Option String
  pub external_thread_id : Option String
  pub external_message_id : Option String
  pub last_run_id : Option String
  pub last_user_correction_id : Option String
  pub paused_run_id : Option String
  pub metadata_json : Fields
  pub created_at : ℕ
  pub updated_at : ℕ

pub record MemoryCandidate : Type 0 where
  pub id : String
  pub source_capture_id : Option String
  pub proposed_by_agent_id : String
  pub candidate_kind : String
  pub statement_md : String
  pub evidence_refs : List Json
  pub confidence : Float
  pub sensitivity : String
  pub status : String
  pub review_item_id : Option String
  pub created_at : ℕ
  pub updated_at : ℕ

pub record JobRun : Type 0 where
  pub id : String
  pub job_id : String
  pub run_id : Option String
  pub status : String
  pub started_at : Option ℕ
  pub finished_at : Option ℕ
  pub output_summary_md : Option String
  pub error_json : Option Fields
  pub created_at : ℕ
