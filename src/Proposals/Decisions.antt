-- ===== src/Proposals/Decisions.antt =====
-- Executing, rejecting and revising a proposal. Each returns the row as it leaves it.
use life_os_vnex.Prelude.{
  ℕ, String, Bool, true, false, not, Option, none, some, List, [], ◌∷◌, if◌then◌else◌, ◌==◌,
}
use life_os_vnex.Prelude.Text.{◌⧺◌, member}
use life_os_vnex.Prelude.Json.{Fields, null, str, end, fields_of, get_or, or_json, set}
use life_os_vnex.Prelude.Env.{Env, text_of}
use life_os_vnex.State.{
  Store, PendingActionProposal, Message, LifeItem, AuditEvent, Exception, Result, ok, raise, Action,
  pure, throw, lift, gets, modify, ◌>>=◌, ◌>>◌, utc_now, create_audit_event, find_row, update_row,
}
use life_os_vnex.Bus.{CommandRequest, CommandResult, status_text, dict_of}
use life_os_vnex.Bus.Apply.{apply}
use life_os_vnex.Planner.{dict_or_empty, revise_draft}
use life_os_vnex.Proposals.Values.{
  open_statuses, proposal_key, revised_summary, public_dict, text_or,
}
use life_os_vnex.Proposals.Evidence.{attach_evidence}
use life_os_vnex.Proposals.Search.{find_item}

abbrev pub message_key : Message → String
message_key m = m.id

-- `await session.get(Message, id) if id else None`
abbrev pub source_message : Option String → List Message → Option Message
source_message none ms = none
source_message (some id) ms = if id == "" then none else find_row message_key id ms

abbrev pub put_proposal : PendingActionProposal → Store → Store
put_proposal r s = record s { proposals = update_row proposal_key r.id (λ _. r) s.proposals }

abbrev pub with_status : String → PendingActionProposal → PendingActionProposal
with_status status r = record r { status = status }

-- The audit event on a proposal as it is now.
abbrev pub proposal_audit :
    Env
    → String
    → String
    → String
    → String
    → PendingActionProposal
    → Fields
    → String
    → ℕ
    → AuditEvent
proposal_audit env actor_type actor_id event lead r metadata id now = record {
  id = id;
  actor_type = actor_type;
  actor_id = actor_id;
  event_type = event;
  entity_type = "pending_action_proposal";
  entity_id = r.id;
  summary = lead ⧺ r.summary;
  before_json = none;
  after_json = some (public_dict env r);
  metadata_json = metadata;
  trace_id = none;
  created_at = now;
}

-- `item_id` of the item that was found.
abbrev pub put_target : Option LifeItem → Fields → Result Fields
put_target none payload =
    raise (Exception.value_error "I could not find a matching open task to mark done.")
put_target (some item) payload = ok (set "item_id" (str item.id) payload)

-- `ActionProposalDecisionCreate`
pub data Decision : Type 0 where
  approve reject ask : Decision
  revise : Option String → Fields → Decision

-- The reply of the endpoint: `ok`, `status`, and the result of an approval.
pub record Reply : Type 0 where
  pub ok : Bool
  pub status : String
  pub result : Option CommandResult

abbrev pub plain_reply : PendingActionProposal → Reply
plain_reply r = record { ok = true; status = r.status; result = none }

abbrev pub executed_reply : PendingActionProposal × CommandResult → Reply
executed_reply (r, result) = record { ok = true; status = r.status; result = some result }

module _ (env : Env) (timezone : String) where
  -- The payload that names the task to complete, for a proposal of that type.
  unfoldable pub complete_payload : PendingActionProposal → Fields → Action Fields
  complete_payload r payload =
      if r.proposal_type == "task.complete"
      then (do
        found ← (λ s. (find_item env r.draft_json s.tables.items, s))
        lift (put_target found payload))
      else pure payload

  unfoldable pub payload_evidence : Option Message → Fields → Result Fields
  payload_evidence none payload = ok payload
  payload_evidence (some m) payload = attach_evidence env m payload

  abbrev known_type : String → Action String
  known_type type =
      if type == ""
      then throw (Exception.value_error "Proposal has no executable command.")
      else pure type

  -- `command_request_from_proposal`
  unfoldable pub command_request : PendingActionProposal → String → String → Action CommandRequest
  unfolding complete_payload payload_evidence
  command_request r actor_type actor_id = do
    command ← lift (dict_of env (dict_or_empty "command" r.draft_json))
    let type = text_of env (or_json (get_or "command_type" null command) (str ""))
    payload ← lift (dict_of env (dict_or_empty "payload" command))
    known ← known_type type
    target ← complete_payload r payload
    message ← gets (λ s. source_message r.source_message_id s.messages)
    evidence ← lift (payload_evidence message target)
    pure (record {
      command_type = known;
      payload = evidence;
      source_review_item_id = none;
      actor_type = actor_type;
      actor_id = actor_id;
    })

  -- The row of a proposal whose command has ended.
  abbrev pub executed_row : CommandResult → PendingActionProposal → PendingActionProposal
  executed_row result r = record r {
    executed_command_id = some result.state_change_id;
    status = if status_text result.status == "applied" then "executed" else "failed";
  }

  -- `execute_action_proposal` past its guards.
  unfoldable pub run_proposal :
      PendingActionProposal → String → String → Action (PendingActionProposal × CommandResult)
  unfolding create_audit_event
  run_proposal r actor_type actor_id = do
    command ← command_request r actor_type actor_id
    modify (put_proposal (with_status "approved" r))
    result ← apply env timezone command
    modify (put_proposal (executed_row result r))
    create_audit_event env (
        proposal_audit env actor_type actor_id "action_proposal.executed" "Executed proposal: "
          (executed_row result r)
          (fields_of (("state_change_id", str result.state_change_id) ∷ [])))
    pure (executed_row result r, result)

  -- `execute_action_proposal`
  unfoldable pub execute_proposal :
      PendingActionProposal → String → String → Action (PendingActionProposal × CommandResult)
  unfolding run_proposal
  execute_proposal r actor_type actor_id =
      if not (member r.status open_statuses)
      then throw (Exception.value_error ("Proposal is not open: " ⧺ r.status))
      else if not (r.risk_level == "low")
      then throw (
          Exception.value_error
            "Only low-risk inline proposals can be executed from conversation follow-up.")
      else run_proposal r actor_type actor_id

  unfoldable pub reject_open : PendingActionProposal → Action PendingActionProposal
  unfolding create_audit_event
  reject_open r = do
    modify (put_proposal (with_status "rejected" r))
    create_audit_event env (
        proposal_audit env "user" "owner" "action_proposal.rejected" "Rejected proposal: "
          (with_status "rejected" r) end)
    pure (with_status "rejected" r)

  -- `reject_action_proposal`
  unfoldable pub reject_proposal : PendingActionProposal → Action PendingActionProposal
  unfolding reject_open
  reject_proposal r = if member r.status open_statuses then reject_open r else pure r

  abbrev pub revised_row : Fields → String → ℕ → PendingActionProposal → PendingActionProposal
  revised_row draft text now r = record r {
    draft_json = draft;
    summary = revised_summary r.summary text;
    status = "revised";
    last_revised_at = some now;
  }

  unfoldable pub revise_open : PendingActionProposal → String → Action PendingActionProposal
  unfolding utc_now create_audit_event
  revise_open r text = do
    draft ← revise_draft env r.draft_json text timezone
    now ← utc_now env
    modify (put_proposal (revised_row draft text now r))
    create_audit_event env (
        proposal_audit env "user" "owner" "action_proposal.revised" "Revised proposal: "
          (revised_row draft text now r) (fields_of (("revision_text", str text) ∷ [])))
    pure (revised_row draft text now r)

  -- `revise_action_proposal`
  unfoldable pub revise_proposal : PendingActionProposal → String → Action PendingActionProposal
  unfolding revise_open
  revise_proposal r text =
      if member r.status open_statuses
      then revise_open r text
      else throw (Exception.value_error ("Proposal is not open: " ⧺ r.status))

  unfoldable pub decide_row : Decision → PendingActionProposal → Action Reply
  unfolding execute_proposal reject_proposal revise_proposal
  decide_row Decision.approve r = do
    done ← execute_proposal r "user" "owner"
    pure (executed_reply done)
  decide_row Decision.reject r = do row ← reject_proposal r; pure (plain_reply row)
  decide_row (Decision.revise text payload) r = do
    row ←
        revise_proposal r
          (text_or text (text_of env (or_json (get_or "text" null payload) (str ""))))
    pure (plain_reply row)
  decide_row Decision.ask r = pure (plain_reply r)

  -- `decide_action_proposal`
  unfoldable pub decide_proposal : String → Decision → Action Reply
  unfolding decide_row
  decide_proposal id d s = elim (find_row proposal_key id s.proposals) [
    | none ↦ (ok (record { ok = false; status = "not_found"; result = none }), s)
    | some r ↦ decide_row d r s
  ]
