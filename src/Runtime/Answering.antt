-- ===== src/Runtime/Answering.antt =====
-- `_handle_proposal_follow_up`: what the owner says about the proposals that are pending.
use life_os_vnex.Prelude.{String, List, [], ◌∷◌, if◌then◌else◌, map}
use life_os_vnex.Prelude.Text.{◌⧺◌, lower, has}
use life_os_vnex.Prelude.Json.{Json}
use life_os_vnex.Prelude.Env.{Env}
use life_os_vnex.State.{Store, PendingActionProposal, Action, pure, gets, ◌>>=◌, ◌>>◌}
use life_os_vnex.Planner.{FollowUpKind, FollowUpPlan}
use life_os_vnex.Proposals.{public_dict, text_or}
use life_os_vnex.Runtime.Results.{RunResult, plain}
use life_os_vnex.Runtime.Replies.{proposal_details, reject_reply, revision_reply, approved_reply}
use life_os_vnex.Runtime.Executing.{
  Executed, done, unclear, failed, present, selected_proposals, action_entries, command_types,
  audit_ids, ids_of, execute_rows, reject_rows, revise_rows, reject_others,
}

module _ (env : Env) (timezone : String) where
  abbrev pub public_dicts : Store → List PendingActionProposal → List Json
  public_dicts s rows = map (λ r. public_dict env (present s r)) rows

  abbrev pub present_rows : Store → List PendingActionProposal → List PendingActionProposal
  present_rows s rows = map (present s) rows

  abbrev pub unclear_result : List Json → String → RunResult
  unclear_result rows m =
      record (plain "needs_clarification" ("I could not complete that safely: " ⧺ m)
        "- Stopped before changing state because the action target was unclear."
        "Action target unclear") { clarifying_questions = m ∷ []; action_proposals = rows }

  -- The result of an approval.
  abbrev approval_result : List PendingActionProposal → Executed → Store → RunResult
  approval_result rows (unclear r m) s = unclear_result (public_dicts s rows) m
  approval_result rows (failed results) s =
      record (plain "failed"
        "I tried to create it, but the command bus rejected the state change. I did not create anything."
        "- Attempted the approved inline proposal through the command bus.\n- The command failed safely."
        "Command failed safely") {
          autonomous_actions = action_entries rows results;
          action_proposals = public_dicts s rows;
          audit_refs = audit_ids results;
        }
  approval_result rows (done results) s =
      record (plain "final" (approved_reply env (present_rows s rows) (command_types results))
        "- Executed approved inline proposal(s) through the command bus."
        "Approved proposal executed") {
          autonomous_actions = action_entries rows results;
          action_proposals = public_dicts s rows;
          audit_refs = audit_ids results;
        }

  abbrev pub reject_unless_only : String → List String → List PendingActionProposal → Action Unit
  reject_unless_only message ids pending =
      if has (lower message) "only" then reject_others env timezone ids pending else pure tt

  -- The branches on the kind of the follow-up.
  unfoldable pub follow :
      FollowUpKind
      → List PendingActionProposal
      → List PendingActionProposal
      → FollowUpPlan
      → String
      → Action RunResult
  follow FollowUpKind.ask pending rows plan message = gets (λ s.
      record (plain "final" (proposal_details env rows)
        "- Explained the pending proposal without changing state." "Explained pending proposal") {
          action_proposals = public_dicts s rows;
        })
  follow FollowUpKind.reject pending rows plan message = do
    reject_rows env timezone rows
    gets (λ s.
        record (plain "final" (reject_reply env (present_rows s rows))
          "- Rejected the pending proposal." "Proposal rejected") {
            action_proposals = public_dicts s rows;
          })
  follow FollowUpKind.revise pending rows plan message = do
    revise_rows env timezone (text_or plan.revision_text message) rows
    gets (λ s.
        record (plain "waiting_confirmation" (revision_reply env (present_rows s rows))
          "- Revised the pending proposal without executing it." "Proposal revised") {
            action_proposals = public_dicts s rows;
          })
  follow FollowUpKind.approve pending rows plan message = do
    reject_unless_only message (ids_of rows) pending
    ended ← execute_rows env timezone "user" "owner" [] rows
    gets (approval_result rows ended)
  follow FollowUpKind.no_action pending rows plan message =
      pure
        (record (plain "needs_clarification"
          "I am not sure whether you want me to create, edit, or ignore the pending proposal."
          "- Asked for clarification before acting." "Proposal follow-up unclear") {
            clarifying_questions = "Should I create, edit, or ignore it?" ∷ [];
          })

  abbrev no_proposal : RunResult
  no_proposal =
      record (plain "needs_clarification"
        "I do not see an open proposal to edit or approve here. Tell me the action again and I will stage it cleanly."
        "- Asked for clarification before acting on a proposal." "Proposal reference unclear") {
          clarifying_questions = "Which proposal should I use?" ∷ [];
        }

  unfoldable pub follow_selected :
      List PendingActionProposal
      → List PendingActionProposal
      → FollowUpPlan
      → String
      → Action RunResult
  follow_selected pending [] plan message = pure no_proposal
  follow_selected pending (r ∷ rs) plan message = follow plan.kind pending (r ∷ rs) plan message

  -- `_handle_proposal_follow_up`
  unfoldable pub handle_follow_up :
      List PendingActionProposal → FollowUpPlan → String → Action RunResult
  handle_follow_up pending plan message =
      follow_selected pending (selected_proposals pending plan.proposal_indexes) plan message
