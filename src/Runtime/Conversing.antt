-- ===== src/Runtime/Conversing.antt =====
-- `_try_conversation_action_loop`: a follow-up on a proposal, or a planned turn. `parse` is
-- `ConversationTurnPlan.model_validate_json`.
use life_os_vnex.Prelude.{◌+◌, String, Option, none, some, List, [], ◌∷◌, if◌then◌else◌, map}
use life_os_vnex.Prelude.Text.{◌⧺◌}
use life_os_vnex.Prelude.Json.{Json, str, int, array, fields_of}
use life_os_vnex.Prelude.Env.{Env}
use life_os_vnex.State.{
  Store, AgentRun, AgentSession, Message, PendingActionProposal, Result, Action, pure, gets, ◌>>=◌,
  ◌>>◌, utc_now, create_status_event,
}
use life_os_vnex.Planner.{
  PlanMode, TurnPlan, FollowUpKind, FollowUpPlan, interpret_follow_up, plan_turn,
}
use life_os_vnex.Providers.{ProviderCompletion}
use life_os_vnex.Proposals.{open_pending, persist_proposals, formal_reviews, text_or}
use life_os_vnex.Runtime.Results.{RunResult, plain}
use life_os_vnex.Runtime.Replies.{
  answer_only_reply, clarify_reply, inline_proposal_reply, formal_review_reply, approved_reply,
}
use life_os_vnex.Runtime.Executing.{
  Executed, done, unclear, failed, action_entries, command_types, audit_ids, execute_rows,
}
use life_os_vnex.Runtime.Answering.{public_dicts, present_rows, unclear_result, handle_follow_up}
use life_os_vnex.Runtime.Planning.{
  is_model_identity_question, kind_text, mode_text, plan_fields, readings, questions, first_id,
  plan_json, announce, session_origin, run_origin,
}
use life_os_vnex.Runtime.Identity.{model_identity_reply}
use life_os_vnex.Runtime.Finishing.{run_event}

abbrev answer_plan : List (String × Json) → RunResult → RunResult
answer_plan plan r = record r { action_plan = fields_of plan }

module _ (env : Env) (timezone : String) (run : AgentRun) (r : AgentSession) (m : Message) where
  -- The result of the proposals that are executed at once.
  abbrev pub executed_result : TurnPlan → List PendingActionProposal → Executed → Store → RunResult
  executed_result plan rows (unclear row text) s =
      record (unclear_result env timezone (public_dicts env timezone s (row ∷ [])) text) {
        action_plan = plan_fields plan;
      }
  executed_result plan rows (failed results) s =
      record (plain "failed"
        "I tried to do that, but the command bus rejected the state change. I did not create anything."
        "- Attempted the explicit low-risk command through the command bus.\n- The command failed safely."
        "Command failed safely") {
          autonomous_actions = action_entries rows results;
          audit_refs = audit_ids results;
          action_proposals = public_dicts env timezone s rows;
          action_plan = plan_fields plan;
        }
  executed_result plan rows (done results) s =
      record (plain "final"
        (approved_reply env (present_rows env timezone s rows) (command_types results))
        "- Executed explicit low-risk command through the command bus."
        "Executed explicit low-risk action") {
          autonomous_actions = action_entries rows results;
          audit_refs = audit_ids results;
          action_proposals = public_dicts env timezone s rows;
          action_plan = plan_fields plan;
        }

  abbrev pub announce_done : List PendingActionProposal → Executed → Action Unit
  announce_done rows (done results) = create_status_event env (
      run_event run.id "conversation.action_completed" "Conversation action completed"
        "discord_compact" (fields_of (("actions", array (action_entries rows results)) ∷ [])))
  announce_done rows other = pure tt

  abbrev pub inline_result : TurnPlan → List PendingActionProposal → Store → RunResult
  inline_result plan rows s =
      record (plain "waiting_confirmation"
        (inline_proposal_reply env (present_rows env timezone s rows))
        "- Created pending inline proposal(s)." "Waiting for inline confirmation") {
          action_proposals = public_dicts env timezone s rows;
          action_plan = plan_fields plan;
        }

  abbrev review_result : TurnPlan → List String → RunResult
  review_result plan ids =
      record (plain "needs_approval" (formal_review_reply plan.proposals ids)
        "- Created formal review item(s) and did not execute the action."
        "Formal review required") {
          review_item_id = first_id ids;
          review_item_ids = ids;
          action_plan = plan_fields plan;
        }

  -- The branches on the mode of the plan.
  unfoldable pub carry_out : PlanMode → String → TurnPlan → Action RunResult
  carry_out PlanMode.answer_only source plan = pure (
      answer_plan (("mode", str (mode_text plan.mode)) ∷ []) (
        plain "final" (answer_only_reply plan.assistant_reply (text_or m.content_md ""))
          "- Answered without mutating LifeOS state." "Answered without state change"))
  carry_out PlanMode.clarify source plan =
      pure
        (record (plain "needs_clarification" (clarify_reply plan.assistant_reply)
          "- Asked for clarification before acting." "Needs clarification") {
            clarifying_questions = questions plan.clarifying_question;
            action_plan = plan_fields plan;
          })
  carry_out PlanMode.execute_now source plan = do
    rows ← persist_proposals env (session_origin r) m source plan.proposals
    ended ← execute_rows env timezone "agent" (text_or (some r.agent_id) "orchestrator") [] rows
    announce_done rows ended
    gets (executed_result plan rows ended)
  carry_out PlanMode.propose_inline source plan = do
    rows ← persist_proposals env (session_origin r) m source plan.proposals
    gets (inline_result plan rows)
  carry_out PlanMode.formal_review source plan = do
    reviews ← formal_reviews env (run_origin run) m plan.proposals
    pure (review_result plan (map (λ v. v.id) reviews))

  abbrev identity_result : Store → RunResult
  identity_result s =
      answer_plan (("mode", str "answer_only") ∷ ("source", str "runtime_config") ∷ []) (
        plain "final" (model_identity_reply env (text_or (some r.agent_id) "orchestrator") s)
          "- Answered from runtime provider configuration." "Answered model identity")

  module _ (default_mode : String) (complete : Result ProviderCompletion)
      (parse : String → Option TurnPlan) where
    -- A turn that is no follow-up and no question on the model.
    unfoldable pub planned_turn : String → String → Action RunResult
    planned_turn source message = do
      json ← plan_json env timezone default_mode complete run.id message
      plan ← (λ s. (
        plan_turn env timezone parse s.reads message json,
        record s { reads = s.reads + readings (elim json [ none ↦ none | some j ↦ parse j ]) },
      ))
      announce env timezone run.id (mode_text plan.mode) plan.status_events
      carry_out plan.mode source plan

    abbrev pub answer_turn : String → String → Action RunResult
    answer_turn source message =
        if is_model_identity_question message
        then gets identity_result
        else planned_turn source message

    abbrev pub follow_turn :
        List PendingActionProposal → FollowUpPlan → String → String → Action RunResult
    follow_turn pending plan source message = do
      create_status_event env (
          run_event run.id "proposal.follow_up_detected"
            ("Proposal follow-up: " ⧺ kind_text plan.kind) "discord_compact"
            (fields_of (("proposal_indexes", array (map (λ i. int i) plan.proposal_indexes)) ∷ [])))
      handle_follow_up env timezone pending plan message

    -- What the message is, with the proposals that are pending.
    unfoldable pub turn :
        FollowUpKind
        → List PendingActionProposal
        → FollowUpPlan
        → String
        → String
        → Action RunResult
    turn FollowUpKind.no_action pending plan source message = answer_turn source message
    turn kind pending plan source message = follow_turn pending plan source message

    -- `_try_conversation_action_loop`, which returns a result for every mode that a plan has.
    unfoldable pub conversation_turn : String → String → Action RunResult
    conversation_turn source message = do
      pending ← open_pending env (some r.id) 5
      now ← utc_now env
      let plan = interpret_follow_up env timezone now message pending
      turn plan.kind pending plan source message
