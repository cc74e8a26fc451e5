-- ===== src/Proposals/Values.antt =====
-- The proposals of a plan, the texts made of them, and the public form of a row.
use life_os_vnex.Prelude.{
  ℕ, String, ◌||◌, Option, none, some, List, [], ◌∷◌, if◌then◌else◌, ◌==◌, or_default,
}
use life_os_vnex.Prelude.Text.{◌⧺◌, starts_with, strip, compact, take_text}
use life_os_vnex.Prelude.Json.{Json, null, str, obj, object, text_or_null}
use life_os_vnex.Prelude.Env.{Env}
use life_os_vnex.State.{PendingActionProposal, Message}
pub use life_os_vnex.Planner.{ActionProposal}

abbrev pub open_statuses : List String
open_statuses = "pending" ∷ "revised" ∷ []

abbrev pub proposal_key : PendingActionProposal → String
proposal_key r = r.id

-- `_revised_summary`
unfoldable pub revised_summary : String → String → String
revised_summary summary text =
    let revision = compact text in
    if revision == "" then summary else summary ⧺ " (revised: " ⧺ take_text 80 revision ⧺ ")"

-- `_review_kind`
unfoldable pub review_kind : ActionProposal → String
review_kind p =
    if starts_with p.type "memory"
    then "memory"
    else if starts_with p.type "job" || starts_with p.type "reminder"
    then "planning"
    else if starts_with p.type "file" || starts_with p.type "terminal"
    then "system"
    else "conversation_action"

-- The first line of `_formal_review_body`.
unfoldable pub review_lead : ActionProposal → String
review_lead p =
    if p.type == "memory_candidate.create"
    then "This looks like a preference worth remembering, but memory needs approval before it becomes durable."
    else if p.type == "job.create_recurring"
    then "This would create a recurring automation, so it is waiting for approval before activation."
    else if p.risk == "destructive"
    then "This could be destructive, so it is waiting here instead of running."
    else "This crossed the review threshold, so LifeOS paused before acting."

-- `a or b` on an optional text.
abbrev pub text_or : Option String → String → String
text_or none b = b
text_or (some s) b = if s == "" then b else s

-- `_formal_review_body`
unfoldable pub review_body : ActionProposal → Message → String
unfolding review_lead
review_body p message =
    review_lead p
    ⧺ "\n\nProposal: "
    ⧺ p.summary
    ⧺ "\nRisk: `"
    ⧺ p.risk
    ⧺ "`\nReason: "
    ⧺ text_or p.reason "Policy requires review."
    ⧺ "\n\nSource message:\n> "
    ⧺ take_text 1000 (strip (or_default message.content_md ""))

module _ (env : Env) where
  abbrev iso_or_null : Option ℕ → Json
  iso_or_null none = null
  iso_or_null (some t) = str (env.iso t)

  -- `proposal_to_public_dict`
  unfoldable pub public_dict : PendingActionProposal → Json
  public_dict r = object (
      ("id", str r.id)
      ∷ ("session_id", text_or_null r.session_id)
      ∷ ("source_message_id", text_or_null r.source_message_id)
      ∷ ("source", str r.source)
      ∷ ("agent_name", str r.agent_name)
      ∷ ("type", str r.proposal_type)
      ∷ ("summary", str r.summary)
      ∷ ("draft", obj r.draft_json)
      ∷ ("risk", str r.risk_level)
      ∷ ("status", str r.status)
      ∷ ("created_at", str (env.iso r.created_at))
      ∷ ("expires_at", iso_or_null r.expires_at)
      ∷ ("last_revised_at", iso_or_null r.last_revised_at)
      ∷ ("executed_command_id", text_or_null r.executed_command_id)
      ∷ ("review_item_id", text_or_null r.review_item_id)
      ∷ [])
