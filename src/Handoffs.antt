-- ===== src/Handoffs.antt =====
-- apps/api/lifeos_api/routers/handoffs.py: creating a handoff between agents and setting its status.
pub mod Statuses
use life_os_vnex.Prelude.{
  ℕ, String, Bool, true, false, Option, none, some, List, [], ◌∷◌, ◌++◌, if◌then◌else◌,
}
use life_os_vnex.Prelude.Text.{◌⧺◌, member}
use life_os_vnex.Prelude.Json.{
  Json, Fields, null, bool, str, obj, end, object, array, fields_of, text_or_null,
}
use life_os_vnex.Prelude.Env.{Env}
use life_os_vnex.State.{
  Store, Handoff, AuditEvent, StatusEventRow, Action, pure, gets, modify, ◌>>=◌, ◌>>◌, new_id,
  utc_now, create_audit_event, create_status_event, find_row, update_row,
}

-- `HandoffCreate`
pub record HandoffCreate : Type 0 where
  pub parent_run_id : Option String
  pub from_agent_id : String
  pub to_agent_id : String
  pub reason : String
  pub task_md : String
  pub known_context : List Json
  pub context_refs : List Json
  pub constraints : List Json
  pub expected_output_schema : Option Fields
  pub risk_level : String
  pub visibility : String
  pub requires_user_visibility : Bool

abbrev pub handoff_key : Handoff → String
handoff_key r = r.id

abbrev pub handoff_row : HandoffCreate → String → ℕ → Handoff
handoff_row q id now = record {
  id = id;
  parent_run_id = q.parent_run_id;
  from_agent_id = q.from_agent_id;
  to_agent_id = q.to_agent_id;
  reason = q.reason;
  task_md = q.task_md;
  known_context = q.known_context;
  context_refs = q.context_refs;
  constraints = q.constraints;
  expected_output_schema = q.expected_output_schema;
  result_json = end;
  summary_md = none;
  risk_level = q.risk_level;
  status = "created";
  visibility = q.visibility;
  requires_user_visibility = q.requires_user_visibility;
  discord_summary_posted = false;
  completed_at = none;
  created_at = now;
  updated_at = now;
}

abbrev pub created_event : HandoffCreate → String → String → ℕ → StatusEventRow
created_event q handoff id now = record {
  id = id;
  run_id = q.parent_run_id;
  event_type = "agent.handoff_created";
  visibility = "discord_compact";
  title = q.from_agent_id ⧺ " -> " ⧺ q.to_agent_id;
  detail_json = fields_of (("handoff_id", str handoff) ∷ ("reason", str q.reason) ∷ []);
  created_at = now;
}

abbrev fields_or_null : Option Fields → Json
fields_or_null none = null
fields_or_null (some d) = obj d

-- The statuses that end a handoff.
abbrev pub ended_statuses : List String
ended_statuses = "returned" ∷ "merged" ∷ "failed" ∷ "cancelled" ∷ []

-- The row with a status that is set at `now`.
abbrev pub with_status : String → ℕ → Handoff → Handoff
with_status status now r = record r {
  status = status;
  updated_at = now;
  completed_at = if member status ended_statuses then some now else r.completed_at;
}

abbrev status_audit : String → String → String → ℕ → AuditEvent
status_audit handoff status id now = record {
  id = id;
  actor_type = "system";
  actor_id = "handoff-router";
  event_type = "handoff.status_updated";
  entity_type = "handoff";
  entity_id = handoff;
  summary = "Handoff status updated to " ⧺ status;
  before_json = none;
  after_json = none;
  metadata_json = end;
  trace_id = none;
  created_at = now;
}

module _ (env : Env) where
  abbrev iso_or_null : Option ℕ → Json
  iso_or_null none = null
  iso_or_null (some t) = str (env.iso t)

  -- `row_to_dict(row, HANDOFF_FIELDS)`
  unfoldable pub handoff_dict : Handoff → Json
  handoff_dict r = object (
      ("id", str r.id)
      ∷ ("parent_run_id", text_or_null r.parent_run_id)
      ∷ ("from_agent_id", str r.from_agent_id)
      ∷ ("to_agent_id", str r.to_agent_id)
      ∷ ("reason", str r.reason)
      ∷ ("task_md", str r.task_md)
      ∷ ("known_context", array r.known_context)
      ∷ ("context_refs", array r.context_refs)
      ∷ ("constraints", array r.constraints)
      ∷ ("expected_output_schema", fields_or_null r.expected_output_schema)
      ∷ ("result_json", obj r.result_json)
      ∷ ("summary_md", text_or_null r.summary_md)
      ∷ ("risk_level", str r.risk_level)
      ∷ ("status", str r.status)
      ∷ ("visibility", str r.visibility)
      ∷ ("requires_user_visibility", bool r.requires_user_visibility)
      ∷ ("discord_summary_posted", bool r.discord_summary_posted)
      ∷ ("created_at", str (env.iso r.created_at))
      ∷ ("updated_at", str (env.iso r.updated_at))
      ∷ ("completed_at", iso_or_null r.completed_at)
      ∷ [])

  abbrev created_audit : HandoffCreate → Handoff → String → ℕ → AuditEvent
  created_audit q r id now = record {
    id = id;
    actor_type = "agent";
    actor_id = q.from_agent_id;
    event_type = "agent.handoff_created";
    entity_type = "handoff";
    entity_id = r.id;
    summary = q.reason;
    before_json = none;
    after_json = some (handoff_dict r);
    metadata_json = end;
    trace_id = none;
    created_at = now;
  }

  -- `create_handoff`, which returns the row.
  unfoldable pub create_handoff : HandoffCreate → Action Handoff
  create_handoff q = do
    now ← utc_now env
    id ← new_id env "hnd"
    let row = handoff_row q id now
    modify (λ s. record s { handoffs = s.handoffs ++ row ∷ [] })
    create_status_event env (created_event q id)
    create_audit_event env (created_audit q row)
    pure row

  -- The assignments to a row that is found.
  unfoldable pub set_status : String → Handoff → Action (Option Handoff)
  set_status status r = do
    now ← utc_now env
    modify (λ s. record s {
      handoffs = update_row handoff_key r.id (with_status status now) s.handoffs;
    })
    create_audit_event env (status_audit r.id status)
    pure (some (with_status status now r))

  -- `update_handoff_status`; `none` is the reply `{"error": "not_found"}`.
  unfoldable pub update_handoff_status : String → String → Action (Option Handoff)
  update_handoff_status id status s = elim (find_row handoff_key id s.handoffs) [
    | none ↦ pure none s
    | some r ↦ set_status status r s
  ]
