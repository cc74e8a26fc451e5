-- ===== src/Runtime/Replies.antt =====
-- The texts that a turn answers with.
use life_os_vnex.Prelude.{
  ℕ, suc, String, Option, none, some, List, [], ◌∷◌, ◌==◌, if◌then◌else◌, or_default,
}
use life_os_vnex.Prelude.Text.{◌⧺◌, strip, lower, has}
use life_os_vnex.Prelude.Json.{Json, Fields, null, obj, int, end, get_or, or_json, truthy}
use life_os_vnex.Prelude.Env.{Env, text_of}
use life_os_vnex.Prelude.Regex.{Re, seqs, space, digit, full_match, remove}
use life_os_vnex.State.{PendingActionProposal}
use life_os_vnex.Bus.{replace_z}
use life_os_vnex.Planner.{ActionProposal}

-- The dict that a value is, or an empty one.
abbrev dict_in : Json → Fields
dict_in (obj d) = d
dict_in other = end

-- `_proposal_payload`
unfoldable pub proposal_payload : PendingActionProposal → Fields
proposal_payload r =
    dict_in (get_or "payload" (obj end) (dict_in (get_or "command" (obj end) r.draft_json)))

-- `test\s*\d*`
abbrev pub test_re : Re
test_re = seqs (Re.text "test" ∷ Re.star space ∷ Re.star digit ∷ [])

-- `^{lead}\s*`
abbrev lead_re : String → Re
lead_re lead = seqs (Re.begin ∷ Re.text lead ∷ Re.star space ∷ [])

unfoldable pub summary_title : String → String
summary_title summary =
    let rest =
      remove (lead_re "Create recurring reminder:")
        (remove (lead_re "Mark task done:") (remove (lead_re "Create task:") summary)) in
    if rest == "" then "the item" else rest

-- `_answer_only_reply`
unfoldable pub answer_only_reply : String → String → String
answer_only_reply reply message =
    if full_match test_re (lower (strip message))
    then "I see `" ⧺ strip message ⧺ "`. Test ping received; I did not change anything."
    else reply

-- `_clarify_reply`
unfoldable pub clarify_reply : String → String
clarify_reply reply =
    if has (lower reply) "could not validate"
    then "I am not confident enough to act on that as-is. Tell me the action in one sentence and I will stage it safely."
    else reply

abbrev quoted_ids : List String → String
quoted_ids [] = ""
quoted_ids (id ∷ []) = "`" ⧺ id ⧺ "`"
quoted_ids (id ∷ j ∷ ids) = "`" ⧺ id ⧺ "`, " ⧺ quoted_ids (j ∷ ids)

abbrev review_lead_of : ActionProposal → String
review_lead_of p =
    if p.type == "memory_candidate.create"
    then "I can remember that preference, but I will not write memory from a chat line without approval."
    else if p.type == "job.create_recurring"
    then "That is a recurring automation, so I paused before activating it."
    else if p.risk == "destructive"
    then "That could be destructive, so I stopped before touching anything."
    else "This crosses the review line, so I paused before acting."

-- `_formal_review_reply`
unfoldable pub formal_review_reply : List ActionProposal → List String → String
formal_review_reply [] ids = "I sent this to formal review before doing anything."
formal_review_reply (p ∷ ps) ids = review_lead_of p ⧺ "\n\nI created review " ⧺ quoted_ids ids ⧺ "."

module _ (env : Env) where
  -- `_proposal_title`
  unfoldable pub proposal_title : PendingActionProposal → String
  proposal_title r =
      let payload = proposal_payload r in
      let title = or_json (get_or "title" null payload) (get_or "name" null payload) in
      if truthy title then text_of env title else summary_title r.summary

  abbrev due_value : Fields → Json
  due_value payload =
      if truthy (get_or "due_at" null payload)
      then get_or "due_at" null payload
      else get_or "run_at" null (
          dict_in (
            or_json (or_json (get_or "schedule" null payload) (get_or "schedule_json" null payload))
              (obj end)))

  -- `_friendly_due`
  unfoldable pub friendly_due : Fields → Option String
  friendly_due payload =
      let value = due_value payload in
      let text = text_of env value in
      if truthy value then some (or_default (env.friendly_text (replace_z text)) text) else none

  abbrev timing : Option String → String
  timing none = ""
  timing (some due) = "Timing I have: " ⧺ due ⧺ ".\n"

  -- `_inline_proposal_reply`
  unfoldable pub inline_proposal_reply : List PendingActionProposal → String
  inline_proposal_reply [] = "I can stage that for you, but I need one more detail before I do."
  inline_proposal_reply (r ∷ rs) =
      "I read that as something you might want tracked, so I staged it: **"
      ⧺ proposal_title r
      ⧺ "**.\n"
      ⧺ timing (friendly_due (proposal_payload r))
      ⧺ "\nCreate adds it, Edit lets you adjust the wording or timing, and Ignore drops it."

  abbrev due_line : Option String → String
  due_line none = ""
  due_line (some due) = "   Timing: " ⧺ due ⧺ "\n"

  abbrev path_line : Json → String
  path_line (obj command) =
      if truthy (get_or "command_type" null command)
      then "   Path: `"
        ⧺ text_of env (get_or "command_type" null command)
        ⧺ "` through the audited command bus\n"
      else ""
  path_line other = ""

  -- The lines on the proposals, from the n-th on.
  abbrev detail_lines : ℕ → List PendingActionProposal → String
  detail_lines n [] = ""
  detail_lines n (r ∷ rs) =
      text_of env (int n)
      ⧺ ". "
      ⧺ proposal_title r
      ⧺ "\n"
      ⧺ due_line (friendly_due (proposal_payload r))
      ⧺ path_line (get_or "command" (obj end) r.draft_json)
      ⧺ detail_lines (suc n) rs

  -- `_proposal_details`
  unfoldable pub proposal_details : List PendingActionProposal → String
  proposal_details rs =
      "Here is the exact change I have staged:\n"
      ⧺ detail_lines 1 rs
      ⧺ "\nNothing changes until you say yes or press Create."

  abbrev added_reply : String → Option String → String
  added_reply title none = "Done. I added **" ⧺ title ⧺ "**."
  added_reply title (some due) = "Done. I added **" ⧺ title ⧺ "** for " ⧺ due ⧺ "."

  abbrev updated_reply : String → String → String
  updated_reply type title =
      if type == "task.complete"
      then "Done. Marked **" ⧺ title ⧺ "** complete."
      else "Done. I updated **" ⧺ title ⧺ "**."

  abbrev set_reply : String → Option String → String
  set_reply title none = "Done. Reminder created: **" ⧺ title ⧺ "**."
  set_reply title (some due) = "Done. I set **" ⧺ title ⧺ "** for " ⧺ due ⧺ "."

  -- `_approved_reply` on the type of the first command; a title is never empty.
  unfoldable pub approved_reply : List PendingActionProposal → List String → String
  approved_reply rows [] = "Done."
  approved_reply [] (type ∷ types) =
      if type == "life_item.create"
      then "Done. Task created."
      else if type == "life_item.update"
      then "Done. Task updated."
      else if type == "job.create"
      then "Done. Reminder created."
      else "Done."
  approved_reply (r ∷ rs) (type ∷ types) =
      if type == "life_item.create"
      then added_reply (proposal_title r) (friendly_due (proposal_payload r))
      else if type == "life_item.update"
      then updated_reply r.proposal_type (proposal_title r)
      else if type == "job.create"
      then set_reply (proposal_title r) (friendly_due (proposal_payload r))
      else "Done."

  abbrev revised_reply : String → Option String → String
  revised_reply title none =
      "Updated. The staged item is now **" ⧺ title
      ⧺ "**. Say yes or press Create when that is right."
  revised_reply title (some due) =
      "Updated. I now have **" ⧺ title ⧺ "** set for " ⧺ due
      ⧺ ". Say yes or press Create when that is right."

  -- `_revision_reply`
  unfoldable pub revision_reply : List PendingActionProposal → String
  revision_reply [] = "I updated the proposal. Say yes when it looks right."
  revision_reply (r ∷ rs) = revised_reply (proposal_title r) (friendly_due (proposal_payload r))

  -- `_reject_reply`
  unfoldable pub reject_reply : List PendingActionProposal → String
  reject_reply [] = "Ignored. I did not create anything."
  reject_reply (r ∷ rs) = "Ignored **" ⧺ proposal_title r ⧺ "**. I did not create anything."
