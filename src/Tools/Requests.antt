-- ===== src/Tools/Requests.antt =====
-- The call that each effect of the tool policy leaves.
use life_os_vnex.Prelude.{◌≡◌, refl, none, some, [], ◌∷◌, ◌++◌}
use life_os_vnex.Prelude.{suc}
use life_os_vnex.State.{id_at}
use life_os_vnex.Tools.{tool_call_row, tool_review}
use life_os_vnex.Prelude.Json.{Fields, str, obj, object, fields_of, text_or_null}
use life_os_vnex.Prelude.Env.{Env}
use life_os_vnex.State.{
  Store, ToolCall, ReviewItem, ok, new_id, utc_now, create_status_event, create_audit_event,
}
use life_os_vnex.Policy.{tool_effect}
use life_os_vnex.Tools.{ToolRequest, ask_review, run_events, create_tool_call}

-- The action that approves a call, with what it is about.
abbrev pub approval_of : ToolCall → Fields
approval_of call = fields_of (
    ("command_type", str "tool_call.approve")
    ∷ ("risk_level", str "external_side_effect")
    ∷ (
      "payload",
      object (
          ("run_id", text_or_null call.run_id)
          ∷ ("agent_id", str call.agent_id)
          ∷ ("tool_id", str call.tool_id)
          ∷ ("input_json", obj call.input_json)
          ∷ ("tool_call_id", str call.id)
          ∷ []),
    )
    ∷ [])

module _ (env : Env) (config : Fields) (q : ToolRequest) where
  -- What is stored of a call.
  pub record IsRequested (s t : Store) (call : ToolCall) : Type 0 where
    pub stored : t.tables ≡ record s.tables { tool_calls = s.tables.tool_calls ++ call ∷ [] }
    pub input : call.input_json ≡ q.input_json
    pub tool : call.tool_id ≡ q.tool_id
    pub agent : call.agent_id ≡ q.agent_id
    pub run : call.run_id ≡ q.run_id

  -- A tool call that the policy asks about is stored as requested, without output, and names the one
  -- review that is added, which is pending and whose action is to approve the call with that id, with its run,
  -- agent, tool and input.
  pub asked_reviews :
      (s : Store)
      → tool_effect env q.agent_id q.tool_id config ≡ some "ask"
      → (call : ToolCall) × (review : ReviewItem) × ((create_tool_call env config q s).0 ≡ ok call)
        × IsRequested s (create_tool_call env config q s).1 call
        × (call.status ≡ "requested")
        × (call.output_json ≡ none)
        × (call.approval_review_item_id ≡ some review.id)
        × ((create_tool_call env config q s).1.reviews ≡ s.reviews ++ review ∷ [])
        × (review.status ≡ "pending")
        × (review.proposed_action_json ≡ approval_of call)
  unfolding create_tool_call ask_review run_events create_status_event create_audit_event new_id
      utc_now
  asked_reviews s h = (
    tool_call_row q "ask" (some (id_at env "rev" (suc s.draws))) (id_at env "toolcall" s.draws)
        (env.clock s.reads),
    tool_review q (id_at env "toolcall" s.draws) (id_at env "rev" (suc s.draws))
        (env.clock s.reads),
    rw h refl,
    rw h (record { stored = refl; input = refl; tool = refl; agent = refl; run = refl }),
    refl,
    refl,
    refl,
    rw h refl,
    refl,
    refl,
  )
