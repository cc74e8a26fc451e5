-- ===== src/Tools.antt =====
-- apps/api/lifeos_api/routers/tools.py: requesting a tool call under the tool policy.
pub mod Requests
use life_os_vnex.Prelude.{ℕ, String, Option, none, some, List, [], ◌∷◌, ◌++◌, if◌then◌else◌, ◌==◌}
use life_os_vnex.Prelude.Text.{◌⧺◌}
use life_os_vnex.Prelude.Json.{Json, Float, Fields, str, obj, end, object, fields_of, text_or_null}
use life_os_vnex.Prelude.Env.{Env}
use life_os_vnex.State.{
  Store, Tables, ToolCall, ReviewItem, AuditEvent, StatusEventRow, Exception, Result, ok, raise,
  Action, pure, lift, modify, ◌>>=◌, ◌>>◌, new_id, utc_now, create_audit_event, create_status_event,
}
use life_os_vnex.Policy.{tool_effect}

-- `ToolCallCreate`
pub record ToolRequest : Type 0 where
  pub run_id : Option String
  pub agent_id : String
  pub tool_id : String
  pub input_json : Fields

abbrev pub dry_run : Fields
dry_run = fields_of (
    ("mode", str "dry_run")
    ∷ ("message", str "Tool call recorded; executor integration pending.")
    ∷ [])

abbrev only {ℓ} : {A : Type ℓ} → String → String → A → Option A
only effect wanted a = if effect == wanted then some a else none

abbrev pub tool_review : ToolRequest → String → String → ℕ → ReviewItem
tool_review q call_id id now = record {
  id = id;
  kind = "tool";
  title = "Tool approval: " ⧺ q.tool_id;
  body_md = "Agent `" ⧺ q.agent_id ⧺ "` requested `" ⧺ q.tool_id ⧺ "`.";
  source_capture_id = none;
  source_uri = none;
  proposed_by_agent_id = some q.agent_id;
  assigned_agent_id = some "approval-manager";
  priority = "normal";
  confidence = Float.num 1000000;
  risk_level = "external_side_effect";
  sensitivity = "normal";
  proposed_action_json = fields_of (
      ("command_type", str "tool_call.approve")
      ∷ ("risk_level", str "external_side_effect")
      ∷ (
        "payload",
        object (
            ("run_id", text_or_null q.run_id)
            ∷ ("agent_id", str q.agent_id)
            ∷ ("tool_id", str q.tool_id)
            ∷ ("input_json", obj q.input_json)
            ∷ ("tool_call_id", str call_id)
            ∷ []),
      )
      ∷ []);
  validation_json = end;
  status = "pending";
  expires_at = none;
  snoozed_until = none;
  created_at = now;
  updated_at = now;
}

abbrev pub tool_call_row : ToolRequest → String → Option String → String → ℕ → ToolCall
tool_call_row q effect review id now = record {
  id = id;
  run_id = q.run_id;
  agent_id = q.agent_id;
  tool_id = q.tool_id;
  status =
      if effect == "deny" then "denied" else if effect == "allow" then "succeeded" else "requested";
  input_json = q.input_json;
  output_json = only effect "allow" dry_run;
  redacted_input_json = some q.input_json;
  redacted_output_json = only effect "allow" dry_run;
  approval_review_item_id = review;
  error_json = only effect "deny" (fields_of (("reason", str "permission denied") ∷ []));
  created_at = now;
  started_at = only effect "allow" now;
  finished_at = only effect "allow" now;
}

abbrev pub tool_event :
    ToolRequest → String → String → String → Fields → String → ℕ → StatusEventRow
tool_event q event lead visibility detail id now = record {
  id = id;
  run_id = q.run_id;
  event_type = event;
  visibility = visibility;
  title = lead ⧺ q.tool_id;
  detail_json = detail;
  created_at = now;
}

module _ (env : Env) where
  effect_or_error : Option String → Result String
  effect_or_error none = raise (Exception.attribute_error "object has no attribute 'get'")
  effect_or_error (some e) = ok e

  -- The review of a call that the policy asks about.
  unfoldable pub ask_review : ToolRequest → String → String → ℕ → Action (Option String)
  unfolding new_id
  ask_review q effect call_id now =
      if effect == "ask"
      then (do
        id ← new_id env "rev"
        modify (λ s. record s { reviews = s.reviews ++ tool_review q call_id id now ∷ [] })
        pure (some id))
      else pure none

  -- The events of a call that is allowed.
  unfoldable pub run_events : ToolRequest → String → ToolCall → Action Unit
  unfolding create_status_event
  run_events q effect call =
      if effect == "allow"
      then (do
        create_status_event env (
            tool_event q "tool.call_started" "Tool started: " "web_only"
              (fields_of (("tool_call_id", str call.id) ∷ [])))
        create_status_event env (
            tool_event q "tool.call_finished" "Tool finished: " "discord_compact"
              (fields_of (("tool_call_id", str call.id) ∷ ("status", str call.status) ∷ []))))
      else pure tt

  abbrev pub tool_audit : ToolRequest → String → ToolCall → String → ℕ → AuditEvent
  tool_audit q effect call id now = record {
    id = id;
    actor_type = "agent";
    actor_id = q.agent_id;
    event_type = "tool.call_requested";
    entity_type = "tool_call";
    entity_id = call.id;
    summary = q.agent_id ⧺ " requested " ⧺ q.tool_id ⧺ "; policy=" ⧺ effect;
    before_json = none;
    after_json = some (object (("input", obj q.input_json) ∷ ("effect", str effect) ∷ []));
    metadata_json = end;
    trace_id = none;
    created_at = now;
  }

  abbrev add_call : ToolCall → Store → Store
  add_call r s = record s {
    tables = record s.tables { tool_calls = s.tables.tool_calls ++ r ∷ [] };
  }

  -- `create_tool_call`, which returns the row of the call; `config` is the file configs/tools.yaml.
  unfoldable pub create_tool_call : Fields → ToolRequest → Action ToolCall
  unfolding effect_or_error ask_review run_events create_status_event create_audit_event new_id
      utc_now
  create_tool_call config q = do
    now ← utc_now env
    effect ← lift (effect_or_error (tool_effect env q.agent_id q.tool_id config))
    call_id ← new_id env "toolcall"
    review ← ask_review q effect call_id now
    let call = tool_call_row q effect review call_id now
    modify (add_call call)
    create_status_event env (
        tool_event q "tool.call_requested" "Tool requested: "
          (if effect == "ask" then "discord_compact" else "web_only")
          (fields_of (
            ("tool_call_id", str call.id)
            ∷ ("effect", str effect)
            ∷ ("review_item_id", text_or_null review)
            ∷ [])))
    run_events q effect call
    create_audit_event env (tool_audit q effect call)
    pure call
