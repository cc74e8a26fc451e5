-- ===== src/State/Rows.antt =====
-- The tables that the modelled services use, a record for each row. An instant is its microseconds.
-- A column that `setattr` fills from a payload holds whatever value the payload has.
use life_os_vnex.Prelude.{ℕ, String, Bool, Option}
use life_os_vnex.Prelude.Json.{Json, Float, Items, Fields}

pub record LifeItem : Type 0 where
  pub id : String
  pub domain : Json
  pub item_type : Json
  pub title : Json
  pub description_md : Json
  pub status : Json
  pub priority : Json
  pub due_at : Option ℕ
  pub scheduled_at : Option ℕ
  pub source_capture_id : Json
  pub approved_state_change_id : String
  pub metadata_json : Fields
  pub created_at : ℕ
  pub updated_at : ℕ

pub record FinanceEntry : Type 0 where
  pub id : String
  pub local_date : String
  pub entry_type : String
  pub amount : Float
  pub currency : String
  pub category : String
  pub note_md : Json
  pub status : String
  pub source_capture_id : Json
  pub review_item_id : Option String
  pub created_at : ℕ
  pub updated_at : ℕ

pub record DailyLog : Type 0 where
  pub id : String
  pub user_id : Json
  pub local_date : String
  pub domain : String
  pub log_type : String
  pub value_json : Fields
  pub source_capture_id : Json
  pub review_item_id : Option String
  pub confidence : Json
  pub created_at : ℕ

pub record PrayerLog : Type 0 where
  pub id : String
  pub user_id : Json
  pub local_date : String
  pub prayer : String
  pub status : String
  pub source_platform : Json
  pub source_external_message_id : Json
  pub created_at : ℕ
  pub updated_at : ℕ

pub record MemoryFact : Type 0 where
  pub id : String
  pub fact_kind : String
  pub statement_md : String
  pub domain : String
  pub confidence : Float
  pub sensitivity : String
  pub status : String
  pub source_candidate_id : Json
  pub evidence_refs : Items
  pub vault_uri : String
  pub created_at : ℕ
  pub updated_at : ℕ

pub record Job : Type 0 where
  pub id : String
  pub name : String
  pub description_md : Json
  pub schedule_type : String
  pub schedule_json : Fields
  pub timezone : String
  pub target_agent_id : Json
  pub command_json : Fields
  pub approval_policy : String
  pub enabled : Bool
  pub created_by_user_id : Json
  pub created_at : ℕ
  pub updated_at : ℕ

pub record ToolCall : Type 0 where
  pub id : String
  pub run_id : Option String
  pub agent_id : String
  pub tool_id : String
  pub status : String
  pub input_json : Fields
  pub output_json : Option Fields
  pub redacted_input_json : Option Fields
  pub redacted_output_json : Option Fields
  pub approval_review_item_id : Option String
  pub error_json : Option Fields
  pub created_at : ℕ
  pub started_at : Option ℕ
  pub finished_at : Option ℕ

pub record StateChange : Type 0 where
  pub id : String
  pub review_item_id : Option String
  pub command_type : String
  pub command_payload : Fields
  pub status : String
  pub applied_by : String
  pub after_snapshot_uri : Option String
  pub error_json : Option Fields
  pub created_at : ℕ
  pub applied_at : Option ℕ

pub record AuditEvent : Type 0 where
  pub id : String
  pub actor_type : String
  pub actor_id : String
  pub event_type : String
  pub entity_type : String
  pub entity_id : String
  pub summary : String
  pub before_json : Option Json
  pub after_json : Option Json
  pub metadata_json : Fields
  pub trace_id : Option String
  pub created_at : ℕ

pub record StatusEventRow : Type 0 where
  pub id : String
  pub run_id : Option String
  pub event_type : String
  pub visibility : String
  pub title : String
  pub detail_json : Fields
  pub created_at : ℕ

pub record ReviewItem : Type 0 where
  pub id : String
  pub kind : String
  pub title : String
  pub body_md : String
  pub source_capture_id : Option String
  pub source_uri : Option String
  pub proposed_by_agent_id : Option String
  pub assigned_agent_id : Option String
  pub priority : String
  pub confidence : Float
  pub risk_level : String
  pub sensitivity : String
  pub proposed_action_json : Fields
  pub validation_json : Fields
  pub status : String
  pub expires_at : Option ℕ
  pub snoozed_until : Option ℕ
  pub created_at : ℕ
  pub updated_at : ℕ

pub record ReviewDecision : Type 0 where
  pub id : String
  pub review_item_id : String
  pub decision : String
  pub decision_text : Option String
  pub decision_payload : Fields
  pub source_platform : String
  pub source_external_message_id : Option String
  pub created_at : ℕ

pub record Message : Type 0 where
  pub id : String
  pub session_id : Option String
  pub run_id : Option String
  pub role : String
  pub content_md : Option String
  pub content_json : Option Fields
  pub source_platform : Option String
  pub source_external_channel_id : Option String
  pub source_external_thread_id : Option String
  pub source_external_message_id : Option String
  pub metadata_json : Fields
  pub created_at : ℕ

pub record PendingActionProposal : Type 0 where
  pub id : String
  pub session_id : Option String
  pub source_message_id : Option String
  pub source : String
  pub agent_name : String
  pub proposal_type : String
  pub summary : String
  pub draft_json : Fields
  pub risk_level : String
  pub status : String
  pub created_at : ℕ
  pub expires_at : Option ℕ
  pub last_revised_at : Option ℕ
  pub executed_command_id : Option String
  pub review_item_id : Option String
