-- ===== src/Examples/ToolRuns.antt =====
-- Runs of the tool requests.
use life_os_vnex.Prelude.{String, ◌≡◌, refl, none, some, [], ◌∷◌, ◌++◌}
use life_os_vnex.Prelude.Json.{Fields, str, object, fields_of, get, get_or}
use life_os_vnex.Prelude.Env.{text_of}
use life_os_vnex.State.{ToolCall, ReviewItem, ok}
use life_os_vnex.Policy.{tool_effect}
use life_os_vnex.Tools.{ToolRequest, create_tool_call}
use life_os_vnex.Tools.Requests.{IsRequested, approval_of, asked_reviews}
use life_os_vnex.Examples.{sample_env, empty_store}

abbrev config : Fields
config = fields_of (
    (
      "agent_permissions",
      object (
          (
            "work.generic",
            object (
                ("search", object (("effect", str "allow") ∷ []))
                ∷ ("shell", object (("effect", str "ask") ∷ []))
                ∷ []),
          )
          ∷ []),
    )
    ∷ ("global_tool_policy", object (("default_effect", str "deny") ∷ []))
    ∷ [])

abbrev request : String → ToolRequest
request tool = record {
  run_id = none;
  agent_id = "work.generic";
  tool_id = tool;
  input_json = fields_of [];
}

asked_reviews_example :
    (call : ToolCall) × (review : ReviewItem) × ((create_tool_call sample_env config
        (request "shell")
        empty_store).0
      ≡ ok call)
    × IsRequested sample_env config
        (request "shell")
        empty_store
        (create_tool_call sample_env config (request "shell") empty_store).1
        call
    × (call.status ≡ "requested")
    × (call.output_json ≡ none)
    × (call.approval_review_item_id ≡ some review.id)
    × ((create_tool_call sample_env config (request "shell") empty_store).1.reviews
        ≡ empty_store.reviews ++ review ∷ [])
    × (review.status ≡ "pending")
    × (review.proposed_action_json ≡ approval_of call)
unfolding tool_effect get get_or text_of
asked_reviews_example = asked_reviews sample_env config (request "shell") empty_store refl
