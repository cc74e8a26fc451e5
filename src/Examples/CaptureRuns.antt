-- ===== src/Examples/CaptureRuns.antt =====
-- Runs of the provider router and of the branches of a capture.
use life_os_vnex.Prelude.{
  String, true, false, ◌≡◌, ◌⊎◌, refl, some, none, List, [], ◌∷◌, if◌then◌else◌, ◌==◌,
}
use life_os_vnex.Prelude.Json.{str, obj, end, hundredths}
use life_os_vnex.Policy.{PolicyDecision, review_required}
use life_os_vnex.Orchestrator.{Draft}
use life_os_vnex.Providers.{ProviderChoice, Reply, answered, failed}
use life_os_vnex.Captures.{CaptureCreate, Received, Routed, settle_capture}
use life_os_vnex.Captures.{finish_capture}
use life_os_vnex.Captures.Clearance.{IsPermitted, change-IsCleared}
use life_os_vnex.Captures.Outcomes.{IsKept, unapplied-IsKept}
use life_os_vnex.Handoffs.{HandoffCreate, update_handoff_status, handoff_row}
use life_os_vnex.Handoffs.Statuses.{Outcome, update_status-Outcome}
use life_os_vnex.State.{Store}
use life_os_vnex.Examples.{sample_env, empty_store}

abbrev choice : String → ProviderChoice
choice model = record {
  provider = "openrouter";
  model = model;
  fallback_allowed = true;
  raw = end;
  key_label = str "main";
  api_key = some "key";
  base_url = str "https://example.test";
  provider_type = str "openai_compatible";
}

-- The first model is down.
abbrev respond : ProviderChoice → Reply
respond c = if c.model == "large" then failed "timed out" else answered (obj end) 12

abbrev two_choices : List ProviderChoice
two_choices = choice "large" ∷ choice "small" ∷ []

abbrev capture_request : CaptureCreate
capture_request = record {
  source_platform = "discord";
  source_channel_id = none;
  external_message_id = none;
  external_thread_id = none;
  capture_kind = "text";
  raw_text = some "call the bank";
  received_at = 1;
  sensitivity = "normal";
  metadata = end;
}

abbrev received : Received
received = record {
  capture_id = "cap_a0";
  run_id = "run_a1";
  trace_id = "trace_a2";
  file = record { uri = "raw/discord/2026/05/01/di_cap_a0.md"; digest = "digest" };
  now = 1;
}

abbrev asking_policy : PolicyDecision
asking_policy = record {
  decision = review_required;
  reason = "Confidence is too low.";
  risk_level = "safe_internal_read";
  confidence = hundredths 50;
  requires_user_visible_status = true;
}

abbrev routed : Routed
routed = record {
  capture_id = "cap_a0";
  run_id = "run_a1";
  interpretation_id = "interp_a2";
  raw_uri = "raw/discord/2026/05/01/di_cap_a0.md";
  now = 1;
}

abbrev note : Draft
note = record {
  agent_id = "daily-planner";
  domain = "planning";
  sensitivity = "normal";
  intent_labels = [];
  confidence = hundredths 50;
  risk_level = "safe_internal_read";
  title = "Note";
  body_md = "Note";
  proposed_action = end;
  needs_review = false;
  missing_context = none;
}

unapplied-IsKept_example :
    IsKept sample_env routed note asking_policy empty_store
      (settle_capture sample_env "UTC" routed note asking_policy empty_store).1
unapplied-IsKept_example =
    unapplied-IsKept sample_env "UTC" routed note asking_policy empty_store refl

abbrev handoff : HandoffCreate
handoff = record {
  parent_run_id = some "run_a1";
  from_agent_id = "capture-router";
  to_agent_id = "finance";
  reason = "An expense";
  task_md = "Record it.";
  known_context = [];
  context_refs = [];
  constraints = [];
  expected_output_schema = none;
  risk_level = "normal";
  visibility = "web";
  requires_user_visibility = true;
}

abbrev handoff_store : Store
handoff_store = record empty_store { handoffs = handoff_row handoff "hnd_a0" 1 ∷ [] }

update_status-Outcome_example :
    Outcome sample_env "hnd_a0" "returned" handoff_store
      (update_handoff_status sample_env "hnd_a0" "returned" handoff_store).0
      (update_handoff_status sample_env "hnd_a0" "returned" handoff_store).1
update_status-Outcome_example = update_status-Outcome sample_env "hnd_a0" "returned" handoff_store

change-IsCleared_example :
    ((finish_capture sample_env "UTC" capture_request received note end empty_store).1.tables
      ≡ empty_store.tables)
    ⊎ IsPermitted sample_env capture_request note empty_store
change-IsCleared_example =
    change-IsCleared sample_env "UTC" received note end capture_request empty_store
