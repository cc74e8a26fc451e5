-- ===== src/Captures/Creating.antt =====
-- `create_capture` from the routing to the reply.
use life_os_vnex.Prelude.{ℕ, String, true, false, none, some, List, [], ◌∷◌, ◌++◌}
use life_os_vnex.Prelude.Text.{◌⧺◌, take_text}
use life_os_vnex.Prelude.Json.{
  Json, Fields, null, bool, str, obj, end, object, fields_of, get_or, text_or_null,
}
use life_os_vnex.Prelude.Env.{Env, text_of}
use life_os_vnex.State.{
  CaptureInterpretation, Handoff, AuditEvent, Exception, Result, message_of, Action, pure, modify,
  ◌>>=◌, ◌>>◌, new_id, create_status_event, create_audit_event, update_row,
}
use life_os_vnex.Policy.{PolicyDecision, decide_capture_action, verdict_text, as_dict}
use life_os_vnex.Orchestrator.{Draft, draft_from_capture}
use life_os_vnex.Providers.{ProviderCompletion}
use life_os_vnex.Captures.Settings.{agent_autonomy, router_mode}
use life_os_vnex.Captures.Classifying.{caught, route_capture}
use life_os_vnex.Captures.Receiving.{CaptureCreate, Received, capture_event, receive_capture}
use life_os_vnex.Captures.Settling.{
  Settled, Routed, missing_of, policy_request, capture_key, run_key, settle_capture,
}

abbrev pub interpretation_of : Received → Draft → String → CaptureInterpretation
interpretation_of o d id = record {
  id = id;
  capture_id = o.capture_id;
  agent_id = d.agent_id;
  intent_labels = d.intent_labels;
  draft_json = fields_of (
      ("domain", str d.domain)
      ∷ ("title", str d.title)
      ∷ ("proposed_action", obj d.proposed_action)
      ∷ []);
  confidence = d.confidence;
  missing_context = missing_of d;
  risk_level = d.risk_level;
  status = "drafted";
  created_at = o.now;
}

abbrev pub capture_handoff : Received → Draft → String → Handoff
capture_handoff o d id = record {
  id = id;
  parent_run_id = some o.run_id;
  from_agent_id = "capture-router";
  to_agent_id = d.agent_id;
  reason = "Capture classified as " ⧺ d.domain;
  task_md = "Classify capture " ⧺ o.capture_id ⧺ " and apply policy.";
  known_context = [];
  context_refs =
      object (("kind", str "raw_capture") ∷ ("id", str o.capture_id) ∷ ("uri", str o.file.uri) ∷ [])
      ∷ [];
  constraints = [];
  expected_output_schema = some (fields_of (("type", str "review_item") ∷ []));
  result_json = end;
  summary_md = none;
  risk_level = "normal";
  status = "returned";
  visibility = "web";
  requires_user_visibility = true;
  discord_summary_posted = false;
  completed_at = some o.now;
  created_at = o.now;
  updated_at = o.now;
}

-- The reply of the endpoint.
pub record CaptureReply : Type 0 where
  pub capture_id : String
  pub run_id : String
  pub handoff_id : String
  pub route : Fields
  pub settled : Settled

abbrev routed_audit : Received → Draft → PolicyDecision → Fields → Settled → String → ℕ → AuditEvent
routed_audit o d policy meta settled id now = record {
  id = id;
  actor_type = "agent";
  actor_id = d.agent_id;
  event_type = "capture.policy_routed";
  entity_type = "raw_capture";
  entity_id = o.capture_id;
  summary = "Capture routed to " ⧺ d.agent_id ⧺ "; policy=" ⧺ verdict_text policy.decision ⧺ ".";
  before_json = none;
  after_json = some (
      object (
        ("review_item_id", text_or_null settled.review_item_id)
        ∷ ("run_id", str o.run_id)
        ∷ ("state_change_id", text_or_null settled.state_change_id)
        ∷ ("policy", as_dict policy)
        ∷ ("provider", obj meta)
        ∷ []));
  metadata_json = end;
  trace_id = some o.trace_id;
  created_at = now;
}

-- The keys of a dict that was written out.
abbrev fields_in : Json → Fields
fields_in (obj d) = d
fields_in other = end

module _ (env : Env) (timezone : String) where
  -- What the routing leaves on the capture and the run.
  abbrev record_route : Received → Draft → Fields → Action Unit
  record_route o d meta = modify (λ s. record s {
    captures =
        update_row capture_key o.capture_id (λ r. record r { sensitivity = d.sensitivity })
          s.captures;
    runs =
        update_row run_key o.run_id
          (λ r. record r {
            active_agent_id = some d.agent_id;
            provider_used = some (text_of env (get_or "provider" null meta));
            model_used = some (text_of env (get_or "model" null meta));
          })
          s.runs;
  })

  abbrev stamp : Received → Action Unit
  stamp o = modify (λ s. record s {
    captures =
        update_row capture_key o.capture_id (λ r. record r { updated_at = o.now }) s.captures;
    runs = update_row run_key o.run_id (λ r. record r { updated_at = o.now }) s.runs;
  })

  abbrev pub routed_of : Received → String → Routed
  routed_of o id = record {
    capture_id = o.capture_id;
    run_id = o.run_id;
    interpretation_id = id;
    raw_uri = o.file.uri;
    now = o.now;
  }

  -- The interpretation, the policy's event and the handoff of a draft; it returns their ids.
  unfoldable pub announce_route :
      Received → Draft → Fields → PolicyDecision → Action (String × String)
  announce_route o d meta policy = do
    record_route o d meta
    interpretation_id ← new_id env "interp"
    modify (λ s. record s {
      interpretations = s.interpretations ++ interpretation_of o d interpretation_id ∷ [];
    })
    create_status_event env (
        capture_event o.run_id "policy.decision" ("Policy: " ⧺ verdict_text policy.decision)
          (fields_in (as_dict policy)))
    handoff_id ← new_id env "hnd"
    modify (λ s. record s { handoffs = s.handoffs ++ capture_handoff o d handoff_id ∷ [] })
    create_status_event env (
        capture_event o.run_id "agent.handoff_created" ("Capture Router -> " ⧺ d.agent_id)
          (fields_of (("handoff_id", str handoff_id) ∷ [])))
    pure (interpretation_id, handoff_id)

  -- The branch of the policy, the audit and the reply.
  unfoldable pub conclude_capture :
      Received → Draft → Fields → PolicyDecision → String → String → Action CaptureReply
  conclude_capture o d meta policy interpretation_id handoff_id = do
    settled ← settle_capture env timezone (routed_of o interpretation_id) d policy
    stamp o
    create_audit_event env (routed_audit o d policy meta settled)
    pure (record {
      capture_id = o.capture_id;
      run_id = o.run_id;
      handoff_id = handoff_id;
      route = fields_of (
          ("agent_id", str d.agent_id)
          ∷ ("domain", str d.domain)
          ∷ ("decision", str (verdict_text policy.decision))
          ∷ ("reason", str policy.reason)
          ∷ ("confidence", Json.float d.confidence)
          ∷ ("provider", get_or "provider" null meta)
          ∷ ("model", get_or "model" null meta)
          ∷ ("fallback_used", get_or "fallback_used" (bool false) meta)
          ∷ []);
      settled = settled;
    })

  -- What follows the routing.
  unfoldable pub finish_capture : CaptureCreate → Received → Draft → Fields → Action CaptureReply
  finish_capture q o d meta = do
    mode ← agent_autonomy d.agent_id
    let policy = decide_capture_action env (policy_request q d mode)
    ids ← announce_route o d meta policy
    conclude_capture o d meta policy ids.0 ids.1

  module _ (order : List String) (complete : Result ProviderCompletion) where
    -- The deterministic draft that takes the place of a routing that raised.
    abbrev pub last_resort : CaptureCreate → Received → Exception → Draft × Fields
    last_resort q o e = (
      draft_from_capture env order o.capture_id q.raw_text q.source_platform,
      fields_of (
          ("provider", str "deterministic")
          ∷ ("model", str "capture-router-v1")
          ∷ ("fallback_used", bool true)
          ∷ ("fallback_reason", str (take_text 500 (message_of e)))
          ∷ []),
    )

    -- The routing, which a raise does not get out of.
    unfoldable pub route_or_default : String → CaptureCreate → Received → Action (Draft × Fields)
    route_or_default mode q o =
        caught
          (route_capture env order complete o.capture_id q.raw_text q.source_platform o.run_id mode)
          (λ e. pure (last_resort q o e))

    -- `create_capture`; `default_mode` is the setting `router_mode`.
    unfoldable pub create_capture : String → CaptureCreate → Action CaptureReply
    create_capture default_mode q = do
      o ← receive_capture env timezone q
      mode ← router_mode env default_mode
      routed ← route_or_default mode q o
      finish_capture q o routed.0 routed.1
