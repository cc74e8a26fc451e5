-- ===== src/Proposals/Creation.antt =====
-- `persist_inline_proposals` and `create_formal_reviews_for_plan`.
use life_os_vnex.Prelude.{ℕ, ◌+◌, String, Option, none, some, List, [], ◌∷◌, ◌++◌, if◌then◌else◌}
use life_os_vnex.Prelude.Text.{◌⧺◌, take_text, member}
use life_os_vnex.Prelude.Json.{
  Json, Fields, null, str, obj, fields_of, object, get_or, or_json, text_or_null,
}
use life_os_vnex.Prelude.Env.{Env}
use life_os_vnex.State.{
  PendingActionProposal, ReviewItem, Message, Action, pure, lift, modify, ◌>>=◌, ◌>>◌, new_id,
  utc_now, create_audit_event, create_status_event,
}
use life_os_vnex.Bus.{dict_of}
use life_os_vnex.Planner.{dict_or_empty}
use life_os_vnex.Proposals.Values.{ActionProposal, review_kind, review_body, text_or}
use life_os_vnex.Proposals.Evidence.{attach_evidence}
use life_os_vnex.Proposals.Decisions.{proposal_audit}

-- The session or the run that a plan belongs to, with its agent.
pub record Origin : Type 0 where
  pub id : String
  pub agent : Option String

abbrev pub agent_name : Origin → String
agent_name o = text_or o.agent "orchestrator"

-- `timedelta(hours=24)` in microseconds
abbrev pub one_day : ℕ
one_day = 86400000000

abbrev pub inline_row :
    Origin → Message → String → ℕ → ActionProposal → String → PendingActionProposal
inline_row o m source now p id = record {
  id = id;
  session_id = some o.id;
  source_message_id = some m.id;
  source = source;
  agent_name = agent_name o;
  proposal_type = p.type;
  summary = p.summary;
  draft_json = p.draft;
  risk_level = p.risk;
  status = "pending";
  created_at = now;
  expires_at = some (now + one_day);
  last_revised_at = none;
  executed_command_id = none;
  review_item_id = none;
}

-- The review that a proposal is put in, with its command and payload.
abbrev pub review_row :
    Origin → Message → ℕ → ActionProposal → Fields → Fields → String → ReviewItem
review_row run m now p command payload id = record {
  id = id;
  kind = review_kind p;
  title = take_text 200 p.summary;
  body_md = review_body p m;
  source_capture_id = none;
  source_uri = some ("message:" ⧺ m.id);
  proposed_by_agent_id = some (agent_name run);
  assigned_agent_id = some "approval-manager";
  priority = "normal";
  confidence = p.confidence;
  risk_level = p.risk;
  sensitivity = if member p.risk ("sensitive" ∷ "destructive" ∷ []) then p.risk else "normal";
  proposed_action_json = fields_of (
      ("command_type", get_or "command_type" (str "none") command) ∷ ("payload", obj payload) ∷ []);
  validation_json = fields_of (
      ("reason", text_or_null p.reason)
      ∷ ("conversation_proposal_type", str p.type)
      ∷ ("source_message_id", str m.id)
      ∷ []);
  status = "pending";
  expires_at = none;
  snoozed_until = none;
  created_at = now;
  updated_at = now;
}

module _ (env : Env) (o : Origin) (m : Message) where
  -- The first loop: a row for each proposal.
  unfoldable pub add_proposals :
      String → ℕ → List ActionProposal → Action (List PendingActionProposal)
  unfolding new_id
  add_proposals source now [] = pure []
  add_proposals source now (p ∷ ps) = do
    id ← new_id env "aprop"
    let row = inline_row o m source now p id
    modify (λ s. record s { proposals = s.proposals ++ row ∷ [] })
    rows ← add_proposals source now ps
    pure (row ∷ rows)

  -- The second loop: an audit event for each row.
  unfoldable pub audit_proposals : List PendingActionProposal → Action Unit
  unfolding create_audit_event
  audit_proposals [] = pure tt
  audit_proposals (r ∷ rs) = do
    create_audit_event env (
        proposal_audit env "agent" (agent_name o) "action_proposal.created"
          "Created inline proposal: " r (fields_of (("source_message_id", str m.id) ∷ [])))
    audit_proposals rs

  -- `persist_inline_proposals`
  unfoldable pub persist_proposals :
      String → List ActionProposal → Action (List PendingActionProposal)
  unfolding add_proposals audit_proposals utc_now
  persist_proposals source ps = do
    now ← utc_now env
    rows ← add_proposals source now ps
    audit_proposals rows
    pure rows

  abbrev no_command : Json
  no_command = object (("command_type", str "none") ∷ ("payload", object []) ∷ [])

  unfoldable pub add_reviews : ℕ → List ActionProposal → Action (List ReviewItem)
  unfolding new_id
  add_reviews now [] = pure []
  add_reviews now (p ∷ ps) = do
    command ← lift (dict_of env (or_json (get_or "command" null p.draft) no_command))
    payload ← lift (dict_of env (dict_or_empty "payload" command))
    evidence ← lift (attach_evidence env m payload)
    id ← new_id env "rev"
    let row = review_row o m now p command evidence id
    modify (λ s. record s { reviews = s.reviews ++ row ∷ [] })
    rows ← add_reviews now ps
    pure (row ∷ rows)

  unfoldable pub announce_reviews : List ReviewItem → Action Unit
  unfolding create_status_event
  announce_reviews [] = pure tt
  announce_reviews (r ∷ rs) = do
    create_status_event env (λ id now. record {
      id = id;
      run_id = some o.id;
      event_type = "formal_review_created";
      visibility = "discord_compact";
      title = "Formal review created: " ⧺ r.title;
      detail_json =
          fields_of (("review_item_id", str r.id) ∷ ("risk_level", str r.risk_level) ∷ []);
      created_at = now;
    })
    announce_reviews rs

  -- `create_formal_reviews_for_plan`
  unfoldable pub formal_reviews : List ActionProposal → Action (List ReviewItem)
  unfolding add_reviews announce_reviews utc_now
  formal_reviews ps = do
    now ← utc_now env
    rows ← add_reviews now ps
    announce_reviews rows
    pure rows
