-- ===== src/Runtime/Results.antt =====
-- `_result`, the dict that a run returns, and the status that it gives the run.
use life_os_vnex.Prelude.{String, Option, none, some, List, [], ◌∷◌, ◌==◌, if◌then◌else◌, map}
use life_os_vnex.Prelude.Json.{Json, Fields, str, obj, end, array, fields_of, text_or_null}

-- The keywords of `_result` that the callers give; `tool_calls` and `memory_candidates` are empty.
pub record RunResult : Type 0 where
  pub status : String
  pub final_message_md : Json
  pub what_i_did_md : String
  pub review_item_id : Option String
  pub review_item_ids : List String
  pub clarifying_questions : List String
  pub handoffs : List Json
  pub autonomous_actions : List Json
  pub action_proposals : List Json
  pub action_plan : Fields
  pub preference_candidates : List Json
  pub audit_refs : List String
  pub status_summary : String

-- A result with a status, its texts and nothing else.
abbrev pub plain : String → String → String → String → RunResult
plain status final did summary = record {
  status = status;
  final_message_md = str final;
  what_i_did_md = did;
  review_item_id = none;
  review_item_ids = [];
  clarifying_questions = [];
  handoffs = [];
  autonomous_actions = [];
  action_proposals = [];
  action_plan = end;
  preference_candidates = [];
  audit_refs = [];
  status_summary = summary;
}

-- `review_item_ids or ([review_item_id] if review_item_id else [])`
abbrev pub review_ids : List String → Option String → List String
review_ids (id ∷ ids) item = id ∷ ids
review_ids [] none = []
review_ids [] (some id) = if id == "" then [] else id ∷ []

abbrev pub texts : List String → Json
texts xs = array (map (λ x. str x) xs)

-- `_result`
unfoldable pub result_fields : RunResult → Fields
result_fields r = fields_of (
    ("status", str r.status)
    ∷ ("final_message_md", r.final_message_md)
    ∷ ("what_i_did_md", str r.what_i_did_md)
    ∷ ("review_item_id", text_or_null r.review_item_id)
    ∷ ("review_item_ids", texts (review_ids r.review_item_ids r.review_item_id))
    ∷ ("clarifying_questions", texts r.clarifying_questions)
    ∷ ("tool_calls", array [])
    ∷ ("handoffs", array r.handoffs)
    ∷ ("autonomous_actions", array r.autonomous_actions)
    ∷ ("action_proposals", array r.action_proposals)
    ∷ ("action_plan", obj r.action_plan)
    ∷ ("memory_candidates", array [])
    ∷ ("preference_candidates", array r.preference_candidates)
    ∷ ("audit_refs", texts r.audit_refs)
    ∷ ("status_summary", str r.status_summary)
    ∷ [])

-- `_run_status_from_result`
unfoldable pub run_status : String → String
run_status status =
    if status == "final"
    then "completed"
    else if status == "needs_clarification"
    then "needs_clarification"
    else if status == "needs_approval"
    then "waiting_approval"
    else if status == "waiting_confirmation"
    then "waiting_confirmation"
    else if status == "failed"
    then "failed"
    else if status == "max_iterations"
    then "max_iterations"
    else "completed"
