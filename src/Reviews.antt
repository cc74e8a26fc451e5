-- ===== src/Reviews.antt =====
-- apps/api/lifeos_api/routers/reviews.py: the owner's decision on a review.
pub mod Statuses
use life_os_vnex.Prelude.{
  ℕ, ◌+◌, ◌*◌, String, Bool, true, false, Option, none, some, List, [], ◌∷◌, ◌++◌, if◌then◌else◌,
  ◌==◌,
}
use life_os_vnex.Prelude.{◌-◌, ◌/◌, leb}
use life_os_vnex.Prelude.Text.{◌⧺◌}
use life_os_vnex.Prelude.Json.{
  Json, Float, Fields, null, bool, int, float, str, arr, obj, object, end, get_or, contains,
  fields_of, text_or_null,
}
use life_os_vnex.Prelude.Json.{Whole, plus, minus}
use life_os_vnex.Prelude.Env.{Env, text_of}
use life_os_vnex.State.{
  Store, ReviewItem, ReviewDecision, AuditEvent, StatusEventRow, Exception, Result, ok, raise,
  Action, pure, throw, lift, gets, modify, ◌>>=◌, ◌>>◌, new_id, utc_now, create_audit_event,
  create_status_event, find_row, update_row,
}
use life_os_vnex.Bus.{
  CommandRequest, CommandResult, CommandStatus, status_text, index, dict_of, int_of,
}
use life_os_vnex.Bus.Apply.{apply}

-- `ReviewDecisionCreate.decision`
pub data Choice : Type 0 where
  approve reject correct clarify snooze done : Choice

abbrev pub choice_text : Choice → String
choice_text approve = "approve"
choice_text reject = "reject"
choice_text correct = "correct"
choice_text clarify = "clarify"
choice_text snooze = "snooze"
choice_text done = "done"

-- `ReviewDecisionCreate`
pub record DecisionRequest : Type 0 where
  pub choice : Choice
  pub text : Option String
  pub payload : Fields
  pub source_platform : String
  pub source_external_message_id : Option String

-- The reply: `ok`, `status`, the id of the decision and the result of a command.
pub record ReviewReply : Type 0 where
  pub ok : Bool
  pub status : String
  pub decision_id : Option String
  pub result : Option CommandResult

abbrev pub review_key : ReviewItem → String
review_key r = r.id

abbrev pub decision_row : DecisionRequest → String → String → ℕ → ReviewDecision
decision_row d review_id id now = record {
  id = id;
  review_item_id = review_id;
  decision = choice_text d.choice;
  decision_text = d.text;
  decision_payload = d.payload;
  source_platform = d.source_platform;
  source_external_message_id = d.source_external_message_id;
  created_at = now;
}

-- The microseconds of an hour.
abbrev pub one_hour : ℕ
one_hour = 3600000000

abbrev pub in_status : String → ℕ → ReviewItem → ReviewItem
in_status status now r = record r { status = status; updated_at = now }

abbrev pub put_review : ReviewItem → Store → Store
put_review r s = record s { reviews = update_row review_key r.id (λ _. r) s.reviews }

abbrev with_note : Option String → String → String
with_note none body = body
with_note (some note) body = if note == "" then body else body ⧺ "\n\nCorrection note:\n" ⧺ note

module _ (env : Env) (timezone : String) where
  abbrev iso_or_null : Option ℕ → Json
  iso_or_null none = null
  iso_or_null (some t) = str (env.iso t)

  -- `row_to_dict(review, REVIEW_FIELDS)`
  unfoldable pub review_dict : ReviewItem → Json
  review_dict r = object (
      ("id", str r.id)
      ∷ ("kind", str r.kind)
      ∷ ("title", str r.title)
      ∷ ("body_md", str r.body_md)
      ∷ ("source_capture_id", text_or_null r.source_capture_id)
      ∷ ("source_uri", text_or_null r.source_uri)
      ∷ ("proposed_by_agent_id", text_or_null r.proposed_by_agent_id)
      ∷ ("assigned_agent_id", text_or_null r.assigned_agent_id)
      ∷ ("priority", str r.priority)
      ∷ ("confidence", float r.confidence)
      ∷ ("risk_level", str r.risk_level)
      ∷ ("sensitivity", str r.sensitivity)
      ∷ ("proposed_action_json", obj r.proposed_action_json)
      ∷ ("validation_json", obj r.validation_json)
      ∷ ("status", str r.status)
      ∷ ("expires_at", iso_or_null r.expires_at)
      ∷ ("snoozed_until", iso_or_null r.snoozed_until)
      ∷ ("created_at", str (env.iso r.created_at))
      ∷ ("updated_at", str (env.iso r.updated_at))
      ∷ [])

  -- `now + timedelta(hours=hours)`, which fails before the first year.
  unfoldable pub add_hours : ℕ → Whole → Result ℕ
  add_hours now (plus n) = ok (now + n * one_hour)
  add_hours now (minus n) =
      if leb (n * one_hour) now
      then ok (now - n * one_hour)
      else raise (Exception.overflow_error "date value out of range")

  -- The command of an approval.
  abbrev pub approved_command : ReviewItem → Json → Fields → CommandRequest
  approved_command r type payload = record {
    command_type = text_of env type;
    payload = payload;
    source_review_item_id = some r.id;
    actor_type = "user";
    actor_id = "owner";
  }

  unfoldable pub approve_review : ReviewItem → ℕ → Action (ReviewItem × Option CommandResult)
  approve_review r now = do
    type ← lift (index "command_type" r.proposed_action_json)
    payload ← lift (dict_of env (get_or "payload" (obj end) r.proposed_action_json))
    result ← apply env timezone (approved_command r type payload)
    pure (
      in_status (if status_text result.status == "applied" then "applied" else "failed") now r,
      some result,
    )

  -- The proposed action of a correction.
  unfoldable pub corrected_action : Fields → Fields → Result Fields
  corrected_action payload action =
      if contains "proposed_action_json" payload
      then dict_of env (get_or "proposed_action_json" null payload)
      else ok action

  unfoldable pub corrected_body : DecisionRequest → String → String
  corrected_body d body =
      if contains "body_md" d.payload
      then text_of env (get_or "body_md" null d.payload)
      else with_note d.text body

  -- The branches of the decision: the review as each leaves it.
  unfoldable pub decided :
      DecisionRequest → ReviewItem → ℕ → Action (ReviewItem × Option CommandResult)
  unfolding approve_review corrected_action corrected_body int_of add_hours
  decided d r now = elim d.choice [
    | approve ↦ approve_review r now
    | reject ↦ pure (in_status "rejected" now r, none)
    | correct ↦ do
      action ← lift (corrected_action d.payload r.proposed_action_json)
      pure (
        in_status "pending" now
            (record r { proposed_action_json = action; body_md = corrected_body d r.body_md }),
        none,
      )
    | clarify ↦ pure (in_status "needs_clarification" now r, none)
    | snooze ↦ do
      hours ← lift (int_of env (get_or "hours" (int 8) d.payload))
      until ← lift (add_hours now hours)
      pure (in_status "snoozed" now (record r { snoozed_until = some until }), none)
    | done ↦ pure (in_status "applied" now r, none)
  ]

  abbrev pub review_audit :
      DecisionRequest → ReviewItem → ReviewItem → String → String → ℕ → AuditEvent
  review_audit d before r decision_id id now = record {
    id = id;
    actor_type = "user";
    actor_id = "owner";
    event_type = "review.decision_received";
    entity_type = "review_item";
    entity_id = r.id;
    summary = "Review decision: " ⧺ choice_text d.choice;
    before_json = some (review_dict before);
    after_json = some (review_dict r);
    metadata_json = fields_of (("decision_id", str decision_id) ∷ []);
    trace_id = none;
    created_at = now;
  }

  unfoldable pub decide_found : DecisionRequest → ReviewItem → Action ReviewReply
  unfolding decided create_audit_event create_status_event new_id utc_now
  decide_found d r = do
    now ← utc_now env
    decision_id ← new_id env "dec"
    modify (λ s. record s { decisions = s.decisions ++ decision_row d r.id decision_id now ∷ [] })
    outcome ← decided d r now
    modify (put_review outcome.0)
    create_audit_event env (review_audit d r outcome.0 decision_id)
    create_status_event env (λ id created. record {
      id = id;
      run_id = none;
      event_type = "review.decision_received";
      visibility = "discord_compact";
      title = "Review " ⧺ choice_text d.choice ⧺ ": " ⧺ r.title;
      detail_json =
          fields_of (("review_item_id", str r.id) ∷ ("decision_id", str decision_id) ∷ []);
      created_at = created;
    })
    pure (record {
      ok = true;
      status = outcome.0.status;
      decision_id = some decision_id;
      result = outcome.1;
    })

  -- `decide_review`
  unfoldable pub decide_review : String → DecisionRequest → Action ReviewReply
  unfolding decide_found
  decide_review id d s = elim (find_row review_key id s.reviews) [
    | none ↦
        (ok (record { ok = false; status = "not_found"; decision_id = none; result = none }), s)
    | some r ↦ decide_found d r s
  ]
