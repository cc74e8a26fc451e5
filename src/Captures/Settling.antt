-- ===== src/Captures/Settling.antt =====
-- `create_capture` from the routing on: the policy, its branches and what they leave.
use life_os_vnex.Prelude.{
  ℕ, String, Bool, true, false, Option, none, some, List, [], ◌∷◌, ◌++◌, if◌then◌else◌, or_default,
}
use life_os_vnex.Prelude.Text.{◌⧺◌}
use life_os_vnex.Prelude.Json.{Json, Fields, bool, str, obj, end, array, fields_of, get_or, truthy}
use life_os_vnex.Prelude.Env.{Env, text_of}
use life_os_vnex.State.{
  RawCapture, AgentRun, CaptureInterpretation, Notification, ReviewItem, Action, pure, lift, modify,
  ◌>>=◌, ◌>>◌, new_id, create_status_event, update_row,
}
use life_os_vnex.Policy.{
  Request, PolicyDecision, Verdict, raw_only, review_required, ask_clarification, auto_apply,
  as_dict,
}
use life_os_vnex.Orchestrator.{Draft}
use life_os_vnex.Bus.Apply.{apply}
use life_os_vnex.Bus.{CommandStatus, CommandRequest, index, dict_of}
use life_os_vnex.Captures.Receiving.{CaptureCreate, capture_event}

abbrev pub capture_key : RawCapture → String
capture_key r = r.id

abbrev pub run_key : AgentRun → String
run_key r = r.id

abbrev pub interpretation_key : CaptureInterpretation → String
interpretation_key r = r.id

-- Assignments to the three objects of a capture.
abbrev set_capture : String → (RawCapture → RawCapture) → Action Unit
set_capture id f = modify (λ s. record s { captures = update_row capture_key id f s.captures })

abbrev set_run : String → (AgentRun → AgentRun) → Action Unit
set_run id f = modify (λ s. record s { runs = update_row run_key id f s.runs })

abbrev set_interpretation : String → String → Action Unit
set_interpretation id status = modify (λ s. record s {
  interpretations =
      update_row interpretation_key id (λ r. record r { status = status }) s.interpretations;
})

-- What a branch of the policy leaves for the reply.
pub record Settled : Type 0 where
  pub review_item_id : Option String
  pub state_change_id : Option String
  pub notification_id : Option String
  pub message : String

-- The ids of the objects that the branches change.
pub record Routed : Type 0 where
  pub capture_id : String
  pub run_id : String
  pub interpretation_id : String
  pub raw_uri : String
  pub now : ℕ

abbrev pub missing_of : Draft → List Json
missing_of d = or_default d.missing_context []

abbrev pub policy_request : CaptureCreate → Draft → String → Request
policy_request q d mode = record {
  action = d.proposed_action;
  confidence = d.confidence;
  sensitivity = d.sensitivity;
  autonomy_mode = mode;
  owner_authenticated = truthy (get_or "owner_authenticated" (bool true) q.metadata);
  missing_context = missing_of d;
  intent_labels = d.intent_labels;
}

abbrev finished : String → String → ℕ → AgentRun → AgentRun
finished status summary now r = record r {
  status = status;
  status_summary = some summary;
  finished_at = some now;
}

abbrev waiting : String → String → AgentRun → AgentRun
waiting status summary r = record r { status = status; status_summary = some summary }

abbrev with_capture_status : String → RawCapture → RawCapture
with_capture_status status r = record r { status = status }

abbrev is_applied : CommandStatus → Bool
is_applied CommandStatus.applied = true
is_applied status = false

-- The statuses of the review branch, for a decision to review and one to ask.
abbrev pub review_status : Verdict → String
review_status review_required = "pending"
review_status verdict = "needs_clarification"

abbrev capture_wait : Verdict → String
capture_wait review_required = "waiting_approval"
capture_wait verdict = "needs_clarification"

abbrev lead : Verdict → String
lead review_required = "Waiting for approval: "
lead verdict = "Needs clarification: "

abbrev told : Verdict → String
told review_required = "Captured. Review needed: "
told verdict = "Captured. Clarification needed: "

abbrev pub capture_review : Routed → Draft → PolicyDecision → String → ReviewItem
capture_review o d policy id = record {
  id = id;
  kind = d.domain;
  title = d.title;
  body_md = d.body_md;
  source_capture_id = some o.capture_id;
  source_uri = some o.raw_uri;
  proposed_by_agent_id = some d.agent_id;
  assigned_agent_id = some "approval-manager";
  priority = "normal";
  confidence = d.confidence;
  risk_level = d.risk_level;
  sensitivity = d.sensitivity;
  proposed_action_json = d.proposed_action;
  validation_json =
      fields_of (("missing_context", array (missing_of d)) ∷ ("policy", as_dict policy) ∷ []);
  status = review_status policy.decision;
  expires_at = none;
  snoozed_until = none;
  created_at = o.now;
  updated_at = o.now;
}

abbrev pub review_notice : Routed → Draft → String → String → Notification
review_notice o d review_id id = record {
  id = id;
  target_platform = "discord";
  target_channel_id = none;
  notification_type = "review.created";
  title = d.title;
  body_md = d.body_md;
  status = "queued";
  related_run_id = some o.run_id;
  related_review_item_id = some review_id;
  external_message_id = none;
  error_json = none;
  created_at = o.now;
  sent_at = none;
}

module _ (env : Env) (timezone : String) where
  -- The branch `raw_only`.
  unfoldable pub keep_raw : Routed → Action Settled
  keep_raw o = do
    set_capture o.capture_id (with_capture_status "raw_only")
    set_interpretation o.interpretation_id "archived_raw_only"
    set_run o.run_id (finished "completed" "Captured as raw context; no approval needed." o.now)
    pure (record {
      review_item_id = none;
      state_change_id = none;
      notification_id = none;
      message = "Captured as raw context. No approval needed.";
    })

  abbrev policy_command : String → Fields → CommandRequest
  policy_command command payload = record {
    command_type = command;
    payload = payload;
    source_review_item_id = none;
    actor_type = "system";
    actor_id = "policy-engine";
  }

  -- The branch `auto_apply`.
  unfoldable pub apply_draft : Routed → Draft → Action Settled
  apply_draft o d = do
    command ← lift (index "command_type" d.proposed_action)
    payload ← lift (dict_of env (get_or "payload" (obj end) d.proposed_action))
    result ← apply env timezone (policy_command (text_of env command) payload)
    set_capture o.capture_id
        (with_capture_status (if is_applied result.status then "auto_applied" else "failed"))
    set_interpretation o.interpretation_id "auto_applied"
    let summary = "Auto-applied " ⧺ text_of env command
    set_run o.run_id
        (finished (if is_applied result.status then "completed" else "failed") summary o.now)
    pure (record {
      review_item_id = none;
      state_change_id = some result.state_change_id;
      notification_id = none;
      message = "Done: " ⧺ summary ⧺ ".";
    })

  -- The branch `review_required` and `ask_clarification`.
  unfoldable pub ask_owner : Routed → Draft → PolicyDecision → Action Settled
  ask_owner o d policy = do
    review_id ← new_id env "rev"
    modify (λ s. record s { reviews = s.reviews ++ capture_review o d policy review_id ∷ [] })
    notice_id ← new_id env "notif"
    modify (λ s. record s {
      notifications = s.notifications ++ review_notice o d review_id notice_id ∷ [];
    })
    set_capture o.capture_id (with_capture_status (capture_wait policy.decision))
    set_interpretation o.interpretation_id "promoted_to_review"
    set_run o.run_id (waiting (capture_wait policy.decision) (lead policy.decision ⧺ d.title))
    create_status_event env (
        capture_event o.run_id "review.created" ("Review created: " ⧺ d.title)
          (fields_of (("review_item_id", str review_id) ∷ [])))
    pure (record {
      review_item_id = some review_id;
      state_change_id = none;
      notification_id = some notice_id;
      message = told policy.decision ⧺ d.title;
    })

  -- The branches of the policy's decision; it has no other decision than these four.
  unfoldable pub settle_by : Verdict → Routed → Draft → PolicyDecision → Action Settled
  settle_by raw_only o d policy = keep_raw o
  settle_by auto_apply o d policy = apply_draft o d
  settle_by review_required o d policy = ask_owner o d policy
  settle_by ask_clarification o d policy = ask_owner o d policy

  unfoldable pub settle_capture : Routed → Draft → PolicyDecision → Action Settled
  settle_capture o d policy = settle_by policy.decision o d policy
