-- ===== src/Runtime/Identity.antt =====
-- `_model_identity_reply`, from the table of the agents' models.
use life_os_vnex.Prelude.{String, none, some, [], ◌∷◌, if◌then◌else◌, ◌==◌, ◌&&◌}
use life_os_vnex.Prelude.Text.{◌⧺◌}
use life_os_vnex.Prelude.Json.{
  Json, Fields, null, bool, obj, end, field, object, fields_of, get_or, set, truthy, text_or_null,
}
use life_os_vnex.Prelude.Env.{Env, text_of}
use life_os_vnex.State.{Store, AgentModelConfig, find_row}

abbrev model_key : AgentModelConfig → String
model_key r = r.agent_id

-- `d.update(e)`
unfoldable pub updated_with : Fields → Fields → Fields
updated_with d end = d
updated_with d (field k v e) = updated_with (set k v d) e

-- `agent_model_to_payload`
unfoldable pub model_payload : AgentModelConfig → Fields
model_payload r =
    updated_with
      (fields_of (
        (
          "primary",
          object (
              ("provider", text_or_null r.primary_provider_id)
              ∷ ("model", text_or_null r.primary_model)
              ∷ []),
        )
        ∷ (
          "secondary",
          object (
              ("provider", text_or_null r.secondary_provider_id)
              ∷ ("model", text_or_null r.secondary_model)
              ∷ []),
        )
        ∷ ("fallback_allowed", bool r.fallback_allowed)
        ∷ []))
      r.settings_json

-- `models.get(agent_id) or models.get("orchestrator") or {}`
unfoldable pub model_of : String → Store → Fields
model_of agent s = elim (find_row model_key agent s.models) [
  | some r ↦ model_payload r
  | none ↦ elim (find_row model_key "orchestrator" s.models) [
    | some r ↦ model_payload r
    | none ↦ end
  ]
]

module _ (env : Env) where
  -- `_provider_model_text`
  unfoldable pub provider_model_text : Json → String
  provider_model_text (obj raw) =
      let provider = get_or "provider" null raw in
      let model = get_or "model" null raw in
      if truthy provider && truthy model
      then text_of env provider ⧺ "/" ⧺ text_of env model
      else if truthy provider
      then text_of env provider
      else ""
  provider_model_text other = ""

  abbrev routed_reply : String → String → String → String
  routed_reply agent primary secondary =
      if secondary == ""
      then (if primary == ""
          then "I am LifeOS's `" ⧺ agent
            ⧺ "` session. I do not see a configured model route in the DB right now; `/lifeos providers` will show the current provider state."
          else "I am LifeOS's `" ⧺ agent ⧺ "` session, routed through `" ⧺ primary
            ⧺ "`. Provider calls are logged on each run; `/lifeos providers` shows the live config.")
      else "I am LifeOS's `" ⧺ agent ⧺ "` session, routed through `" ⧺ primary ⧺ "` with fallback `"
        ⧺ secondary
        ⧺ "`. Provider calls are logged on each run; `/lifeos providers` shows the live config."

  -- `_model_identity_reply`
  unfoldable pub model_identity_reply : String → Store → String
  model_identity_reply agent s =
      let config = model_of agent s in
      routed_reply agent (provider_model_text (get_or "primary" (obj end) config))
        (provider_model_text (get_or "secondary" (obj end) config))
